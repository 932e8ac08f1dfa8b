-- ===== src/Hlcs/System/Live.antt =====
-- From every state that clients lead to the task alone comes to rest:
-- example/services/hwLockCtrlService/src/hwLockCtrlService.c.
use cpputest_for_freertos.Hlcs.{
  Kernel, Signal, queue_depth, Driver, Hlcs, Effect, below_2000, statics,
}
use cpputest_for_freertos.Service.{ok}
use cpputest_for_freertos.Hlcs.System.{System, Phase, created, holding, is_running, Reach}
use cpputest_for_freertos.Hlcs.System.Inv.{
  last_command, Inv, is_created, rests, takes, tests, returns, halts, enters, informs,
}
use cpputest_for_freertos.Base.{
  Option, some, List, none, ◌∷◌, ◌≡◌, true, subst, length, ap, ◌∙◌, arith, refl, Bool, ◌≤◌, suc,
}
use cpputest_for_freertos.Service.EventQueue.{EventQueue}
use cpputest_for_freertos.Hlcs.Process.{Lock, shut, request_of, opened}
use cpputest_for_freertos.Hlcs.Drain.{follow_all}
use cpputest_for_freertos.Hlcs.System.Launch.{Willing, launched, launched-Holds, launched-unknown}
use cpputest_for_freertos.Hlcs.System.Kept.{Reach-Inv}
use cpputest_for_freertos.Hlcs.System.Works.{
  Quiets, waiting_in, created-Quiets, rest-Quiets, held-Quiets, test-Quiets, return-Quiets,
  storing-Quiets, telling-Quiets,
}

abbrev pub at_command : Option Lock → Lock
at_command none = shut
at_command (some l) = l

module _ {Q : Type 0} (events : EventQueue Q Signal queue_depth) (driver : Driver)
    (kernel : Kernel) where
  open events use {create}

  abbrev Reposes : System Q → Lock → Type 0
  Reposes = Quiets events driver kernel

  -- The event that the task holds, before those in the queue.
  abbrev pub pending : Phase → Hlcs Q → List Signal
  pending (holding e) s = e ∷ waiting_in events driver kernel s.event_queue
  pending _ s = waiting_in events driver kernel s.event_queue

  -- The position of the last command, and locked before the task has run.
  abbrev pub position : Phase → Hlcs Q → Lock
  position created s = shut
  position _ s = at_command (last_command s.log)

  module _ (low : (log : List Effect) → below_2000 (driver.read_current log) ≡ true) where
    returning :
        {x : System Q} (l : Lock) (es : List Signal)
        → Reposes x (follow_all l es)
        → Reposes x (follow_all l (request_of l ∷ es))
    returning shut es z = z
    returning opened es z = z

    moved_to :
        (x : System Q) {l m : Lock} {ds es : List Signal}
        → m ≡ l
        → ds ≡ es
        → Reposes x (follow_all l es)
        → Reposes x (follow_all m ds)
    moved_to x e e' z = rw e (rw e' z)

    Inv-Quiets :
        {x : System Q}
        → Inv events driver kernel x
        → is_running x.phase ≡ true
        → length (pending x.phase x.service) ≤ queue_depth
        → Reposes x (follow_all (position x.phase x.service) (pending x.phase x.service))
    Inv-Quiets (is_created {s = s} {q = q} {es = es} h e) run room =
        moved_to _ refl (ap (waiting_in events driver kernel) h.has ∙ h.waits)
          (created-Quiets events driver kernel low s q es h e)
    Inv-Quiets (rests {s = s} {l = l} {q = q} {es = es} h st) run room =
        moved_to _ (ap at_command st.commanded)
          (ap (waiting_in events driver kernel) h.has ∙ h.waits)
          (rest-Quiets events driver kernel low es l s q h st)
    Inv-Quiets (takes {s = s} {l = l} {e = e} {q = q} {es = es} h st r) run room =
        let same = ap (waiting_in events driver kernel) h.has ∙ h.waits in
        let fits : suc (length es) ≤ queue_depth =
          subst (λ ds. suc (length ds) ≤ queue_depth) same room in
        moved_to _ (ap at_command st.commanded) (ap (λ ds. e ∷ ds) same) (
          held-Quiets events driver kernel low es (rest-Quiets events driver kernel low es) s q h
            (omega (arith, fits)) l e st r)
    Inv-Quiets (tests {s = s} {l = l} {q = q} {es = es} h st) run room =
        moved_to _ (ap at_command st.commanded)
          (ap (waiting_in events driver kernel) h.has ∙ h.waits)
          (returning l es (
            test-Quiets events driver kernel low es (rest-Quiets events driver kernel low es) l s q
              h st))
    Inv-Quiets (returns {s = s} {l = l} {q = q} {es = es} h st) run room =
        moved_to _ (ap at_command st.commanded)
          (ap (λ ds. request_of l ∷ ds) (ap (waiting_in events driver kernel) h.has ∙ h.waits))
          (returning l es (
            return-Quiets events driver kernel low es (rest-Quiets events driver kernel low es) l s
              q h st))
    Inv-Quiets (enters {s = s} {l = l} {q = q} {es = es} h st) run room =
        moved_to _ (ap at_command st.commanded)
          (ap (waiting_in events driver kernel) h.has ∙ h.waits)
          (storing-Quiets events driver kernel es (rest-Quiets events driver kernel low es) l s q h
            st)
    Inv-Quiets (informs {s = s} {l = l} {q = q} {es = es} h st) run room =
        moved_to _ (ap at_command st.commanded)
          (ap (waiting_in events driver kernel) h.has ∙ h.waits)
          (telling-Quiets events driver kernel es (rest-Quiets events driver kernel low es) l s q h
            st)
    Inv-Quiets (halts why) run room = ground (arith, run)

  -- Let the kernel create the queue, the timer and the task and start the timer, let the driver
  -- read less than 2000 mA always, and let clients and the timer push requests while the task runs,
  -- in any order, as long as no client destroys the service. From every state so reached in which
  -- no assertion has failed and at most ten events are pending, the one that the task holds
  -- included, the task alone comes to wait with no event, in the position to which the last of the
  -- pending requests to lock or to unlock leads, with the lock commanded to this position and the
  -- service showing it.
  pub launched-Quiets :
      (on_state on_test : Bool) (q : Q) (log : List Effect) (s : Hlcs Q) (x : System Q)
      → create ≡ some q
      → Willing kernel
      → ((log : List Effect) → below_2000 (driver.read_current log) ≡ true)
      → launched events driver kernel on_state on_test (record statics { log = log }) ≡ ok tt s
      → Reach events driver kernel s x
      → is_running x.phase ≡ true
      → length (pending x.phase x.service) ≤ queue_depth
      → Reposes x (follow_all (position x.phase x.service) (pending x.phase x.service))
  launched-Quiets on_state on_test q log s x made k low runs r = Inv-Quiets low (
      Reach-Inv events driver kernel
        (launched-Holds events driver kernel on_state on_test q log made k runs)
        (launched-unknown events driver kernel on_state on_test q log made k runs) r)
