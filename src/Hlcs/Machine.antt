-- ===== src/Hlcs/Machine.antt =====
-- The state machine of example/services/hwLockCtrlService/src/hwLockCtrlService.c.
use cpputest_for_freertos.Service.{
  ◌>>=◌, ◌>>◌, Run, get, ok, undefined_behavior, put, pure, config_assert,
}
use cpputest_for_freertos.Hlcs.{
  Hlcs, Signal, queue_depth, Driver, Effect, LockState, SelfTestResult, StateFunc, HwResult,
  sig_request_locked, hw_self_test, hw_read_current, hw_lock, hw_unlock, sm_locked, hw_init,
  notify_state, notify_self_test, lock_state_locked, lock_state_unlocked, sm_unlocked, sm_exit,
  result_pass, sig_request_unlocked, below_2000, sm_self_test, sm_enter, sm_initial_pseudo_state,
  result_fail, sig_request_self_test, passed, sig_request_current_check, same_state, failed_power,
  sig_request_thread_exit, failed_motor,
}
use cpputest_for_freertos.Service.EventQueue.{EventQueue}
use cpputest_for_freertos.Base.{Option, if◌then◌else◌, Bool, ◌∷◌, some, none, true, false}

-- `ok && (result == HW_LOCK_CTRL_SELF_TEST_PASSED)`
abbrev pub test_result : Option HwResult → SelfTestResult
test_result (some passed) = result_pass
test_result (some failed_power) = result_fail
test_result (some failed_motor) = result_fail
test_result none = result_fail

-- The request that leads back to the state before the self test.
abbrev pub back_to : Option StateFunc → Signal
back_to none = sig_request_locked
back_to (some sm_unlocked) = sig_request_unlocked
back_to (some sm_locked) = sig_request_locked
back_to (some sm_self_test) = sig_request_locked
back_to (some sm_initial_pseudo_state) = sig_request_locked

abbrev pub same_pointer : Option StateFunc → Option StateFunc → Bool
same_pointer none none = true
same_pointer none (some g) = false
same_pointer (some f) none = false
same_pointer (some f) (some g) = same_state f g

-- Runs over the static variables, with an event queue of type `Q`.
abbrev pub Action : Type 0 → Type 0 → Type 0
Action Q A = Run (Hlcs Q) A

module _ {Q : Type 0} where
  -- An effect on the world outside.
  abbrev pub emit : Effect → Action Q (Unit {0})
  emit e s = ok tt (record s { log = e ∷ s.log })

  -- The handle of the event queue, which the kernel's calls are given.
  abbrev pub event_queue_of : Option Q → Action Q Q
  event_queue_of none s = undefined_behavior
  event_queue_of (some q) s = ok q s

  -- `Handled()` is `s_currentState`.
  abbrev pub handled : Action Q (Option StateFunc)
  handled s = ok s.current_state s

  abbrev pub transition_to : StateFunc → Action Q (Option StateFunc)
  transition_to f = pure (some f)

  abbrev pub remember : StateFunc → Action Q (Unit {0})
  remember f s = ok tt (record s { state_history = some f })

module _ {Q : Type 0} (events : EventQueue Q Signal queue_depth) (driver : Driver) where
  open events use {send_to_back, send_to_front}

  unfoldable pub push_event : Signal → Action Q (Unit {0})
  push_event sig = do
    s ← get
    q ← event_queue_of s.event_queue
    let (sent, q') = send_to_back sig q
    put (record s { event_queue = some q' })
    config_assert 219 sent

  unfoldable pub push_urgent_event : Signal → Action Q (Unit {0})
  push_urgent_event sig = do
    s ← get
    q ← event_queue_of s.event_queue
    let (sent, q') = send_to_front sig q
    put (record s { event_queue = some q' })
    config_assert 233 sent

  -- The store to `s_lockState`, which is atomic.
  abbrev pub store_state : LockState → Action Q (Unit {0})
  store_state state s = ok tt (record s { lock_state = state })

  abbrev pub tell_state : Action Q (Unit {0})
  tell_state = do
    s ← get
    if s.state_changed_callback then emit (notify_state s.lock_state) else pure tt

  unfoldable pub notify_changed_state : LockState → Action Q (Unit {0})
  notify_changed_state state = store_state state >> tell_state

  unfoldable pub notify_self_test_result : SelfTestResult → Action Q (Unit {0})
  notify_self_test_result result = do
    s ← get
    if s.self_test_result_callback then emit (notify_self_test result) else pure tt

  unfoldable pub perform_self_test : Action Q (Unit {0})
  unfolding notify_self_test_result push_urgent_event
  perform_self_test = do
    s ← get
    emit hw_self_test
    notify_self_test_result (test_result (driver.self_test s.log))
    t ← get
    push_urgent_event (back_to t.state_history)

  unfoldable pub do_current_check : Action Q (Unit {0})
  do_current_check = do
    s ← get
    emit hw_read_current
    config_assert 425 (below_2000 (driver.read_current s.log))

  unfoldable pub locked : Signal → Action Q (Option StateFunc)
  unfolding notify_changed_state do_current_check
  locked sm_enter = do emit hw_lock; notify_changed_state lock_state_locked; handled
  locked sm_exit = do rtn ← handled; remember sm_locked; pure rtn
  locked sig_request_locked = handled
  locked sig_request_unlocked = transition_to sm_unlocked
  locked sig_request_self_test = transition_to sm_self_test
  locked sig_request_current_check = do_current_check >> handled
  locked sig_request_thread_exit = handled

  unfoldable pub unlocked : Signal → Action Q (Option StateFunc)
  unfolding notify_changed_state do_current_check
  unlocked sm_enter = do
    rtn ← handled
    emit hw_unlock
    notify_changed_state lock_state_unlocked
    pure rtn
  unlocked sm_exit = do rtn ← handled; remember sm_unlocked; pure rtn
  unlocked sig_request_locked = transition_to sm_locked
  unlocked sig_request_unlocked = handled
  unlocked sig_request_self_test = transition_to sm_self_test
  unlocked sig_request_current_check = do_current_check >> handled
  unlocked sig_request_thread_exit = handled

  unfoldable pub self_testing : Signal → Action Q (Option StateFunc)
  unfolding perform_self_test
  self_testing sm_enter = perform_self_test >> handled
  self_testing sig_request_locked = transition_to sm_locked
  self_testing sig_request_unlocked = transition_to sm_unlocked
  self_testing sig_request_self_test = handled
  self_testing sm_exit = handled
  self_testing sig_request_current_check = handled
  self_testing sig_request_thread_exit = handled

  unfoldable pub initial_pseudo_state : Signal → Action Q (Option StateFunc)
  initial_pseudo_state sig = emit hw_init >> transition_to sm_locked

  -- A call of `s_currentState`.
  unfoldable pub call : Option StateFunc → Signal → Action Q (Option StateFunc)
  unfolding locked unlocked self_testing initial_pseudo_state
  call none sig = λ s. undefined_behavior
  call (some sm_initial_pseudo_state) sig = initial_pseudo_state sig
  call (some sm_locked) sig = locked sig
  call (some sm_unlocked) sig = unlocked sig
  call (some sm_self_test) sig = self_testing sig

  abbrev pub call_current : Signal → Action Q (Option StateFunc)
  call_current sig s = call s.current_state sig s

  unfoldable pub sm_process : Signal → Action Q (Unit {0})
  unfolding call
  sm_process sig = do
    rtn ← call_current sig
    s ← get
    if same_pointer rtn s.current_state then pure tt else do
      call_current sm_exit
      t ← get
      put (record t { current_state = rtn })
      call_current sm_enter
      pure tt

  unfoldable pub sm_initialize : Action Q (Unit {0})
  unfolding call
  sm_initialize = do
    s ← get
    put (record s { current_state = some sm_initial_pseudo_state })
    first ← call_current sm_enter
    t ← get
    put (record t { current_state = first })
    call_current sm_enter
    pure tt
