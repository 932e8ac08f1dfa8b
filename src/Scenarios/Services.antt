-- ===== src/Scenarios/Services.antt =====
-- The theorems on the lock service at concrete states, with a list as the event queue.
use cpputest_for_freertos.Hlcs.{
  Hlcs, Driver, Kernel, Signal, positive, sig_request_self_test, sig_request_unlocked, queue_depth,
  passed, statics, sig_request_locked, sig_request_current_check, lock_state_locked, sm_locked,
  sm_self_test, notify_self_test, result_pass, notify_state, hw_self_test, hw_lock,
}
use cpputest_for_freertos.Service.EventQueue.{EventQueue}
use cpputest_for_freertos.Base.{List, some, true, ◌∷◌, map, ◌≡◌, [], ℕ, refl, arith, none}
use cpputest_for_freertos.Hlcs.Drain.{Settles, rounds}
use cpputest_for_freertos.Hlcs.Requests.{Leads, one_event, self_test_request}
use cpputest_for_freertos.Hlcs.Start.{Begins, started, destroy_full, destroy-restarts}
use cpputest_for_freertos.Hlcs.Api.{destroy}
use cpputest_for_freertos.Hlcs.Process.{Rests, opened, shut}
use cpputest_for_freertos.Scenarios.ListQueue.{list_queue}
use cpputest_for_freertos.Service.{asserted, ok}
use cpputest_for_freertos.Hlcs.{Effect}
use cpputest_for_freertos.World.{World}
use cpputest_for_freertos.Queue.Fifo.Events.{FakeEvents}
use cpputest_for_freertos.Hlcs.OnFake.{signal_layout, on_fake, push_all, Settles-on_fake}

abbrev events : EventQueue (List Signal) Signal queue_depth
events = list_queue queue_depth

-- A driver whose self test passes and that reads 150 mA.
abbrev driver : Driver
driver = record { self_test = λ log. some passed; read_current = λ log. positive 150 }

abbrev kernel : Kernel
kernel = record { task_create = true; task_handle = true; timer_create = true; timer_start = true }

-- A service at rest, locked, with the given events.
abbrev resting : List Signal → Hlcs (List Signal)
resting es = record statics {
  lock_state = lock_state_locked;
  event_queue = some es;
  state_changed_callback = true;
  self_test_result_callback = true;
  current_state = some sm_locked;
  timer = true;
}

Rests-resting : (es : List Signal) → Rests events driver kernel (resting es) shut es es
Rests-resting es = record { has = refl; waits = refl; current = refl; shows = refl }

abbrev three : List Signal
three = sig_request_unlocked ∷ sig_request_self_test ∷ sig_request_current_check ∷ []

self_test_request_example :
    let s = resting (sig_request_self_test ∷ []) in
    let s' = record s {
      event_queue = some (sig_request_locked ∷ []);
      current_state = some sm_self_test;
      state_history = some sm_locked;
      log = notify_self_test result_pass ∷ hw_self_test ∷ [];
    } in
    let s'' = record s' {
      event_queue = some [];
      current_state = some sm_locked;
      log =
          notify_state lock_state_locked
          ∷ hw_lock
          ∷ notify_self_test result_pass
          ∷ hw_self_test
          ∷ [];
    } in
    (one_event events driver kernel s ≡ ok true s') × Leads events driver kernel s' s'' shut [] []
self_test_request_example =
    self_test_request events driver kernel (resting (sig_request_self_test ∷ [])) shut
      (sig_request_self_test ∷ []) [] (Rests-resting (sig_request_self_test ∷ [])) (omega arith)

abbrev ten : List Signal
ten = map (λ (n : ℕ). sig_request_locked) (1 ∷ 2 ∷ 3 ∷ 4 ∷ 5 ∷ 6 ∷ 7 ∷ 8 ∷ 9 ∷ 10 ∷ [])

destroy_full_example :
    destroy events driver kernel (resting ten)
    ≡ asserted 233 (record (resting ten) { exit_thread = true })
destroy_full_example = destroy_full events driver kernel (resting ten) ten refl (omega arith)

destroy-restarts_example :
    (log : List Effect) × (destroy events driver kernel (resting three)
      ≡ ok tt (record statics { log = log }))
    × Begins events driver kernel
        (started events driver kernel true true (record statics { log = log }))
        true
        []
        log
destroy-restarts_example =
    destroy-restarts events driver kernel true true (resting three) three [] refl (omega arith) refl
      refl refl

-- No object and no list of mutexes.
abbrev nothing : World
nothing = record { heap = []; mutexes = none }

Settles-on_fake_example :
    (s : Hlcs (FakeEvents signal_layout)) × (s' : Hlcs (FakeEvents signal_layout)) × (started
        (on_fake driver kernel nothing 1 (omega arith))
        driver
        kernel
        true
        true
        statics
      ≡ ok tt s)
    × (push_all (on_fake driver kernel nothing 1 (omega arith)) driver kernel three s ≡ ok tt s')
    × Settles
        (on_fake driver kernel nothing 1 (omega arith))
        driver
        kernel
        opened
        (rounds (on_fake driver kernel nothing 1 (omega arith)) driver kernel 5 s')
Settles-on_fake_example =
    Settles-on_fake driver kernel nothing 1 (omega arith) true true three refl refl (λ log. refl)
      refl (omega arith)
