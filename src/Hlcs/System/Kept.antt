-- ===== src/Hlcs/System/Kept.antt =====
-- Every step keeps the invariant: example/services/hwLockCtrlService/src/hwLockCtrlService.c.
pub mod Push
pub mod Act
pub mod Results
pub mod Receive
use cpputest_for_freertos.Hlcs.{Kernel, Signal, queue_depth, Driver, Hlcs, lock_state_unknown}
use cpputest_for_freertos.Hlcs.System.Inv.{
  Inv, Holds, is_created, rests, takes, tests, returns, halts, Stands-queue, InTest-queue, enters,
  Storing-queue, informs, Telling-queue,
}
use cpputest_for_freertos.Service.EventQueue.{EventQueue}
use cpputest_for_freertos.Hlcs.System.{
  System, TaskStep, begins, Step, works, asks, Reach, later, created, receives, begin, waiting,
  holding, acts, stores, storing, tells, telling,
}
use cpputest_for_freertos.Base.{[], subst, sym, ◌∷◌, arith, ◌≡◌}
use cpputest_for_freertos.Hlcs.System.Kept.Receive.{
  begin-Inv, receive-Inv, receive-next, Holds-taken,
}
use cpputest_for_freertos.Hlcs.System.Kept.Push.{push-Inv}
use cpputest_for_freertos.Hlcs.System.Kept.Act.{request-Inv, return-Inv, store-Inv, tell-Inv}
use cpputest_for_freertos.Hlcs.Process.{request_of}

module _ {Q : Type 0} (events : EventQueue Q Signal queue_depth) (driver : Driver)
    (kernel : Kernel) where
  abbrev Kept : System Q → Type 0
  Kept = Inv events driver kernel

  pub TaskStep-Inv : {x y : System Q} → TaskStep events driver kernel x y → Kept x → Kept y
  TaskStep-Inv (begins {s}) (is_created {q = q} {es = es} h e) =
      begin-Inv events driver kernel s q es h e
  TaskStep-Inv (receives {s} goes) (rests {l = l} {q = q} {es = es} h st) =
      receive-Inv events driver kernel s q es h
        (λ e ds same r h'. takes {l = l} h' (Stands-queue events driver kernel st) r)
        (λ h'. rests {l = l} h' (Stands-queue events driver kernel st))
  TaskStep-Inv (acts {e} {s}) (takes {l = l} {q = q} {es = es} h st r) =
      request-Inv events driver kernel s q es h l e st r
  TaskStep-Inv (receives {s} goes) (tests {l = l} {q = q} {es = es} h st) =
      subst Kept (sym (receive-next events driver kernel s q (request_of l) es h.has h.waits)) (
        returns (Holds-taken events driver kernel s q (request_of l) es h)
          (InTest-queue events driver kernel st))
  TaskStep-Inv (acts {e} {s}) (returns {l = l} {q = q} {es = es} h st) =
      return-Inv events driver kernel s q es h l st
  TaskStep-Inv (stores {l} {s}) (enters {q = q} {es = es} h st) =
      store-Inv events driver kernel s q es h l st
  TaskStep-Inv (tells {l} {s}) (informs {q = q} {es = es} h st) =
      tell-Inv events driver kernel s q es h l st

  pub Step-Inv : {x y : System Q} → Step events driver kernel x y → Kept x → Kept y
  Step-Inv (works w) v = TaskStep-Inv w v
  Step-Inv (asks e r run) (is_created {s = s} {q = q} {es = es} h unknown) =
      push-Inv events driver kernel e s q es h r created (λ h'. is_created h' unknown)
  Step-Inv (asks e r run) (rests {s = s} {q = q} {es = es} h st) =
      push-Inv events driver kernel e s q es h r waiting
        (λ h'. rests h' (Stands-queue events driver kernel st))
  Step-Inv (asks e r run) (takes {s = s} {e = d} {q = q} {es = es} h st r') =
      push-Inv events driver kernel e s q es h r (holding d)
        (λ h'. takes h' (Stands-queue events driver kernel st) r')
  Step-Inv (asks e r run) (tests {s = s} {l = l} {q = q} {es = es} h st) =
      push-Inv events driver kernel e s q (request_of l ∷ es) h r waiting
        (λ h'. tests h' (InTest-queue events driver kernel st))
  Step-Inv (asks e r run) (returns {s = s} {l = l} {q = q} {es = es} h st) =
      push-Inv events driver kernel e s q es h r (holding (request_of l))
        (λ h'. returns h' (InTest-queue events driver kernel st))
  Step-Inv (asks e r run) (enters {s = s} {l = l} {q = q} {es = es} h st) =
      push-Inv events driver kernel e s q es h r (storing l)
        (λ h'. enters h' (Storing-queue events driver kernel st))
  Step-Inv (asks e r run) (informs {s = s} {l = l} {q = q} {es = es} h st) =
      push-Inv events driver kernel e s q es h r (telling l)
        (λ h'. informs h' (Telling-queue events driver kernel st))
  Step-Inv (asks e r run) (halts why) = ground (arith, run)

  pub Reach-Inv :
      {start : Hlcs Q} {q : Q} {x : System Q}
      → Holds events driver kernel start q []
      → start.lock_state ≡ lock_state_unknown
      → Reach events driver kernel start x
      → Kept x
  Reach-Inv h e begin = is_created h e
  Reach-Inv h e (later r st) = Step-Inv st (Reach-Inv h e r)
