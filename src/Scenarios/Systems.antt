-- ===== src/Scenarios/Systems.antt =====
-- The theorems on the lock service and its clients, on a schedule of steps, with a list as the event
-- queue.
use cpputest_for_freertos.Hlcs.{
  Hlcs, Driver, Kernel, Signal, queue_depth, positive, passed, statics, sig_request_unlocked,
  sm_locked, notify_state, sig_request_self_test, lock_state_locked, sig_request_locked, hw_lock,
  hw_init, timer_started, timer_created, Effect, task_created,
}
use cpputest_for_freertos.Hlcs.System.{
  System, Reach, begin, later, begins, asks, works, receives, holding, stores, tells,
}
use cpputest_for_freertos.Service.{ok}
use cpputest_for_freertos.Service.EventQueue.{EventQueue}
use cpputest_for_freertos.Base.{some, true, List, ◌≡◌, map, refl, [], ◌∷◌, ℕ, arith}
use cpputest_for_freertos.Hlcs.System.Launch.{Willing, launched, launch, launched_lem}
use cpputest_for_freertos.Hlcs.Machine.{push_event}
use cpputest_for_freertos.Hlcs.System.Safety.{Safe, launched-Safe}
use cpputest_for_freertos.Hlcs.System.Live.{launched-Quiets}
use cpputest_for_freertos.Hlcs.System.Works.{Quiets}
use cpputest_for_freertos.Scenarios.ListQueue.{list_queue}
use cpputest_for_freertos.Hlcs.Process.{opened}
use cpputest_for_freertos.Hlcs.System.Overrun.{self_test-overrun, Overruns}
use cpputest_for_freertos.Hlcs.Command.{initialize_command}

abbrev events : EventQueue (List Signal) Signal queue_depth
events = list_queue queue_depth

abbrev driver : Driver
driver = record { self_test = λ log. some passed; read_current = λ log. positive 150 }

abbrev kernel : Kernel
kernel = record { task_create = true; task_handle = true; timer_create = true; timer_start = true }

willing : Willing kernel
willing = record { timer_made = refl; timer_begun = refl; task_made = refl }

abbrev fresh : Hlcs (List Signal)
fresh = launch events driver kernel true true [] []

launched-fresh : launched events driver kernel true true statics ≡ ok tt fresh
launched-fresh = launched_lem events driver kernel true true [] [] refl willing

-- The service in the position, with the events and the log.
abbrev at_rest : List Signal → List Effect → Hlcs (List Signal)
at_rest es log = record fresh {
  current_state = some sm_locked;
  lock_state = lock_state_locked;
  event_queue = some es;
  log = log;
}

abbrev first_log : List Effect
first_log =
    notify_state lock_state_locked
    ∷ hw_lock
    ∷ hw_init
    ∷ timer_started
    ∷ task_created
    ∷ timer_created
    ∷ []

-- The task has begun, and taken up the first of two requests.
abbrev busy : System (List Signal)
busy = record {
  service = at_rest (sig_request_unlocked ∷ []) first_log;
  phase = holding sig_request_self_test;
}

Reach-busy : Reach events driver kernel fresh busy
unfolding initialize_command push_event
Reach-busy =
    let begun = later (later (later begin (works begins)) (works stores)) (works tells) in
    later (later (later begun (asks sig_request_self_test refl refl)) (works (receives refl)))
      (asks sig_request_unlocked refl refl)

launched-Safe_example : Safe events driver kernel busy
launched-Safe_example =
    launched-Safe events driver kernel true true [] [] fresh busy refl willing launched-fresh
      Reach-busy

launched-Quiets_example : Quiets events driver kernel busy opened
launched-Quiets_example =
    launched-Quiets events driver kernel true true [] [] fresh busy refl willing (λ log. refl)
      launched-fresh Reach-busy refl (omega arith)

abbrev ten : List Signal
ten = map (λ (n : ℕ). sig_request_locked) (1 ∷ 2 ∷ 3 ∷ 4 ∷ 5 ∷ 6 ∷ 7 ∷ 8 ∷ 9 ∷ 10 ∷ [])

self_test-overrun_example :
    (s : Hlcs (List Signal)) × (launched events driver kernel true true statics ≡ ok tt s)
    × Overruns events driver kernel s ten
self_test-overrun_example =
    self_test-overrun events driver kernel true true [] [] ten refl willing refl refl
