-- ===== src/Hlcs/Start.antt =====
-- Starting, requesting and destroying: `HLCS_Init`, `HLCS_Start`, `PushEvent` and `HLCS_Destroy` of
-- example/services/hwLockCtrlService/src/hwLockCtrlService.c.
use cpputest_for_freertos.Hlcs.{
  Hlcs, Signal, Driver, Kernel, queue_depth, statics, hw_lock, hw_init, sm_locked,
  lock_state_locked, timer_started, sig_request_thread_exit, notify_state, timer_created,
  queue_deleted, timer_deleted,
}
use cpputest_for_freertos.Service.EventQueue.{EventQueue}
use cpputest_for_freertos.Service.{◌>>◌, Outcome, ok, unit_test, asserted}
use cpputest_for_freertos.Base.{
  Bool, ◌≡◌, List, some, true, ◌≤◌, length, [], ◌<◌, ◌++◌, ◌∷◌, arith, ◌⊎◌, false, refl, Bool-cases,
  ltb, inl, ◌∙◌, ap, inr, if◌then◌else◌,
}
use cpputest_for_freertos.Hlcs.Api.{
  init, destroy, register_change_state_callback, start, register_self_test_result_callback,
}
use cpputest_for_freertos.Hlcs.Machine.{push_event, push_urgent_event, sm_initialize}
use cpputest_for_freertos.Hlcs.Process.{Lock, Rests, shut, entered}
use cpputest_for_freertos.Hlcs.{Effect, task_deleted}

module _ {Q : Type 0} (events : EventQueue Q Signal queue_depth) (driver : Driver)
    (kernel : Kernel) where
  open events use {
    create, send_to_back, send_to_front, contents, back_room, back_full, create_empty, front_full,
    front_room,
  }

  -- The service that `HLCS_Init`, the two registrations and `HLCS_Start` make.
  unfoldable pub started : Bool → Bool → Hlcs Q → Outcome (Hlcs Q) (Unit {0})
  started on_state on_test = do
    init events driver kernel
    register_change_state_callback events driver kernel on_state
    register_self_test_result_callback events driver kernel on_test
    start events driver kernel unit_test

  pub record Begins (out : Outcome (Hlcs Q) (Unit {0})) (callback : Bool) (q : Q)
      (log : List Effect) : Type 0 where
    pub state : Hlcs Q
    pub runs : out ≡ ok tt state
    pub rests : Rests events driver kernel state shut q []
    pub effects : state.log ≡ timer_started ∷ entered callback shut (hw_init ∷ timer_created ∷ log)

  -- Let the kernel create the queue and the timer and start the timer. Then HLCS_Init from the
  -- initial statics, whatever has happened outside before, the two registrations and HLCS_Start for
  -- a unit test return, having initialised the driver, locked, reported that where a callback is
  -- registered, and started the timer; the service rests locked with no event.
  pub started_lem :
      (on_state on_test : Bool) (q : Q) (log : List Effect)
      → create ≡ some q
      → kernel.timer_create ≡ true
      → kernel.timer_start ≡ true
      → Begins (started on_state on_test (record statics { log = log })) on_state q log
  unfolding started init start sm_initialize register_change_state_callback
      register_self_test_result_callback
  started_lem true on_test q log made created begun = record {
    state = record statics {
      event_queue = some q;
      timer = true;
      state_changed_callback = true;
      self_test_result_callback = on_test;
      current_state = some sm_locked;
      lock_state = lock_state_locked;
      log =
          timer_started ∷ notify_state lock_state_locked ∷ hw_lock ∷ hw_init ∷ timer_created ∷ log;
    };
    runs = ground (arith, made, created, begun);
    rests = record { has = refl; waits = create_empty q made; current = refl; shows = refl };
    effects = refl;
  }
  started_lem false on_test q log made created begun = record {
    state = record statics {
      event_queue = some q;
      timer = true;
      self_test_result_callback = on_test;
      current_state = some sm_locked;
      lock_state = lock_state_locked;
      log = timer_started ∷ hw_lock ∷ hw_init ∷ timer_created ∷ log;
    };
    runs = ground (arith, made, created, begun);
    rests = record { has = refl; waits = create_empty q made; current = refl; shows = refl };
    effects = refl;
  }

  -- The service after `PushEvent`, with the queue as the kernel left it.
  abbrev pub pushed : Signal → Hlcs Q → Q → Hlcs Q
  pushed e s q = record s { event_queue = some (send_to_back e q).1 }

  -- An event pushed to a lock service at rest waits behind the others where fewer than ten wait;
  -- otherwise it is lost and the assertion on line 219 fails. In both cases the service is at rest
  -- as before.
  pub push_event_lem :
      (e : Signal) (s : Hlcs Q) (l : Lock) (q : Q) (es : List Signal)
      → Rests events driver kernel s l q es
      → ((length es < queue_depth)
          × (push_event events driver e s ≡ ok tt (pushed e s q))
          × Rests events driver kernel (pushed e s q) l (send_to_back e q).1 (es ++ e ∷ []))
        ⊎ ((queue_depth ≤ length es)
            × (push_event events driver e s ≡ asserted 219 (pushed e s q))
            × Rests events driver kernel (pushed e s q) l (send_to_back e q).1 es)
  unfolding push_event
  push_event_lem e s l q es v = elim (Bool-cases (ltb (length es) queue_depth)) [
    | inl fits ↦
        let at = back_room e q (ground (arith, fits, v.waits)) in
        inl (
          ground (arith, fits),
          ground (arith, v.has, at),
          record {
            has = refl;
            waits = at.1 ∙ ap (λ xs. xs ++ e ∷ []) v.waits;
            current = v.current;
            shows = v.shows;
          },
        )
    | inr fills ↦
        let at = back_full e q (ground (arith, fills, v.waits)) in
        inr (
          ground (arith, fills),
          ground (arith, v.has, at),
          record { has = refl; waits = at.1 ∙ v.waits; current = v.current; shows = v.shows },
        )
  ]

  -- HLCS_Destroy on a lock service whose queue holds ten events or more fails the assertion on line
  -- 233, before it deletes the task, the queue or the timer.
  pub destroy_full :
      (s : Hlcs Q) (q : Q)
      → s.event_queue ≡ some q
      → queue_depth ≤ length (contents q)
      → destroy events driver kernel s
        ≡ asserted 233 (record s {
          exit_thread = true;
          event_queue = some (send_to_front sig_request_thread_exit q).1;
        })
  unfolding destroy push_urgent_event
  destroy_full s q has full = ground (arith, has, front_full sig_request_thread_exit q full)

  pub destroy-runs :
      (s : Hlcs Q) (q : Q)
      → s.event_queue ≡ some q
      → length (contents q) < queue_depth
      → (log : List Effect) × (destroy events driver kernel s
          ≡ ok tt (record statics { log = log }))
  unfolding destroy push_urgent_event
  destroy-runs s q has room =
      let freed : List Effect = queue_deleted ∷ task_deleted ∷ s.log in
      let log : List Effect = if s.timer then timer_deleted ∷ freed else freed in
      (log, ground (arith, has, front_room sig_request_thread_exit q room))

  -- From any state of a lock service whose queue has room HLCS_Destroy returns to the initial
  -- statics, from which HLCS_Init, the two registrations and HLCS_Start for a unit test return,
  -- having initialised the driver, locked, reported that where a callback is registered, and
  -- started the timer; the service rests locked with no event. The kernel creates the queue and the
  -- timer and starts the timer.
  pub destroy-restarts :
      (on_state on_test : Bool) (s : Hlcs Q) (q q' : Q)
      → s.event_queue ≡ some q
      → length (contents q) < queue_depth
      → create ≡ some q'
      → kernel.timer_create ≡ true
      → kernel.timer_start ≡ true
      → (log : List Effect) × (destroy events driver kernel s
          ≡ ok tt (record statics { log = log }))
        × Begins (started on_state on_test (record statics { log = log })) on_state q' log
  destroy-restarts on_state on_test s q q' has room made created begun =
      let (log, runs) = destroy-runs s q has room in
      (log, runs, started_lem on_state on_test q' log made created begun)
