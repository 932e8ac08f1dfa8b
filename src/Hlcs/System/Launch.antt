-- ===== src/Hlcs/System/Launch.antt =====
-- The start for normal use, in which a task runs the service:
-- example/services/hwLockCtrlService/src/hwLockCtrlService.c.
use cpputest_for_freertos.Hlcs.{
  Kernel, statics, task_created, Effect, Signal, queue_depth, Driver, Hlcs, timer_started,
  timer_created, lock_state_unknown,
}
use cpputest_for_freertos.Service.{ok, Outcome, normal, ◌>>◌, returned_state}
use cpputest_for_freertos.Base.{
  ◌≡◌, true, Bool, List, some, ◌∷◌, [], arith, refl, sym, ◌∙◌, subst, ap,
}
use cpputest_for_freertos.Service.EventQueue.{EventQueue}
use cpputest_for_freertos.Hlcs.Api.{
  init, register_change_state_callback, start, register_self_test_result_callback,
}
use cpputest_for_freertos.Hlcs.System.Inv.{Holds}

-- The kernel makes the timer and the task and starts the timer.
pub record Willing (kernel : Kernel) : Type 0 where
  pub timer_made : kernel.timer_create ≡ true
  pub timer_begun : kernel.timer_start ≡ true
  pub task_made : kernel.task_create ≡ true

module _ {Q : Type 0} (events : EventQueue Q Signal queue_depth) (driver : Driver)
    (kernel : Kernel) where
  open events use {create, create_empty}

  -- The calls of `HLCS_Init`, the two registrations and `HLCS_Start`.
  unfoldable pub launched : Bool → Bool → Hlcs Q → Outcome (Hlcs Q) (Unit {0})
  launched on_state on_test = do
    init events driver kernel
    register_change_state_callback events driver kernel on_state
    register_self_test_result_callback events driver kernel on_test
    start events driver kernel normal

  -- The service before its task runs.
  abbrev pub launch : Bool → Bool → Q → List Effect → Hlcs Q
  launch on_state on_test q log = record statics {
    event_queue = some q;
    timer = true;
    thread = kernel.task_handle;
    state_changed_callback = on_state;
    self_test_result_callback = on_test;
    log = timer_started ∷ task_created ∷ timer_created ∷ log;
  }

  module _ (on_state on_test : Bool) (q : Q) (log : List Effect) (made : create ≡ some q) where
    pub launched_lem :
        Willing kernel
        → launched on_state on_test (record statics { log = log })
          ≡ ok tt (launch on_state on_test q log)
    unfolding launched init start register_change_state_callback register_self_test_result_callback
    launched_lem k = ground (arith, made, k.timer_made, k.timer_begun, k.task_made)

    pub launch-Holds : Holds events driver kernel (launch on_state on_test q log) q []
    launch-Holds = record {
      has = refl;
      waits = create_empty q made;
      requests = refl;
      fits = omega arith;
      goes_on = refl;
    }

    same_service :
        {s : Hlcs Q}
        → Willing kernel
        → launched on_state on_test (record statics { log = log }) ≡ ok tt s
        → s ≡ launch on_state on_test q log
    same_service {s} k runs =
        let same : ok tt s ≡ ok tt (launch on_state on_test q log) = sym runs ∙ launched_lem k in
        ap (returned_state (launch on_state on_test q log)) same

    pub launched-Holds :
        {s : Hlcs Q}
        → Willing kernel
        → launched on_state on_test (record statics { log = log }) ≡ ok tt s
        → Holds events driver kernel s q []
    launched-Holds {s} k runs =
        subst (λ t. Holds events driver kernel t q []) (sym (same_service k runs)) launch-Holds

    pub launched-unknown :
        {s : Hlcs Q}
        → Willing kernel
        → launched on_state on_test (record statics { log = log }) ≡ ok tt s
        → s.lock_state ≡ lock_state_unknown
    launched-unknown k runs = ap (λ t. t.lock_state) (same_service k runs)
