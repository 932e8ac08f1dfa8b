-- ===== src/Hlcs/Api.antt =====
-- The functions of example/services/hwLockCtrlService/include/hwLockCtrlService.h.
use cpputest_for_freertos.Service.{
  ◌>>=◌, ◌>>◌, ExecutionOption, get, ok, pure, config_assert, put, normal,
}
use cpputest_for_freertos.Hlcs.{
  Signal, queue_depth, Driver, Kernel, LockState, sig_request_locked, sig_request_unlocked,
  sig_request_self_test, sig_request_current_check, is_unknown, is_none, statics, timer_deleted,
  timer_created, is_unit_test, sig_request_thread_exit, task_created, queue_deleted, timer_started,
  task_deleted,
}
use cpputest_for_freertos.Service.EventQueue.{EventQueue}
use cpputest_for_freertos.Base.{
  Bool, Option, ℕ, if◌then◌else◌, false, suc, some, not, true, ◌∷◌, none, zero, ◌&&◌, ◌==◌,
}
use cpputest_for_freertos.Hlcs.Machine.{
  push_event, sm_initialize, push_urgent_event, sm_process, Action, event_queue_of,
}

abbrev pub is_thread_exit : Signal → Bool
is_thread_exit sig_request_thread_exit = true
is_thread_exit _ = false

module _ {Q : Type 0} (events : EventQueue Q Signal queue_depth) (driver : Driver)
    (kernel : Kernel) where
  open events use {create, receive, messages_waiting}
  open kernel use {task_create, task_handle, timer_create, timer_start}

  unfoldable pub init : Action Q (Unit {0})
  init = do
    s ← get
    config_assert 90 (is_unknown s.lock_state)
    config_assert 91 (not s.thread)
    config_assert 92 (is_none s.event_queue)
    config_assert 93 (not s.timer)
    config_assert 94 (not s.state_changed_callback)
    config_assert 95 (not s.self_test_result_callback)
    config_assert 96 (is_none s.current_state)
    config_assert 97 (is_none s.state_history)
    config_assert 98 (not s.exit_thread)
    put (record s { event_queue = create })
    config_assert 101 (not (is_none create))
    put (record s { event_queue = create; timer = timer_create; log = timer_created ∷ s.log })
    config_assert 105 timer_create

  unfoldable pub destroy_queue : Action Q (Unit {0})
  destroy_queue = do
    s ← get
    if is_none s.event_queue then pure tt else do
      put (record s { exit_thread = true })
      push_urgent_event events driver sig_request_thread_exit
      t ← get
      put (record t { log = queue_deleted ∷ task_deleted ∷ t.log })

  unfoldable pub destroy : Action Q (Unit {0})
  unfolding destroy_queue
  destroy = do
    destroy_queue
    s ← get
    put (record statics { log = if s.timer then timer_deleted ∷ s.log else s.log })

  unfoldable pub start : ExecutionOption → Action Q (Unit {0})
  start option = do
    s ← get
    config_assert 136 (is_none s.current_state)
    config_assert 137 (not s.thread)
    if is_unit_test option then sm_initialize events driver else do
      put (record s { thread = task_handle; log = task_created ∷ s.log })
      config_assert 142 task_create
    t ← get
    put (record t { log = timer_started ∷ t.log })
    config_assert 150 timer_start

  unfoldable pub get_state : Action Q LockState
  get_state s = ok s.lock_state s

  -- The argument says whether the callback is not `NULL`.
  unfoldable pub register_change_state_callback : Bool → Action Q (Unit {0})
  register_change_state_callback callback s = ok tt (record s { state_changed_callback = callback })

  unfoldable pub register_self_test_result_callback : Bool → Action Q (Unit {0})
  register_self_test_result_callback callback s =
      ok tt (record s { self_test_result_callback = callback })

  unfoldable pub request_locked_async : Action Q (Unit {0})
  request_locked_async = push_event events driver sig_request_locked

  unfoldable pub request_unlocked_async : Action Q (Unit {0})
  request_unlocked_async = push_event events driver sig_request_unlocked

  unfoldable pub request_self_test_async : Action Q (Unit {0})
  request_self_test_async = push_event events driver sig_request_self_test

  unfoldable pub check_current_timer_callback : Action Q (Unit {0})
  check_current_timer_callback = push_event events driver sig_request_current_check

  -- What follows the receive.
  unfoldable pub dispatch : Option Signal → Action Q Bool
  dispatch none = pure false
  dispatch (some event) =
      if is_thread_exit event
      then (λ s. ok false (record s { exit_thread = true }))
      else (sm_process events driver event >> pure true)

  unfoldable pub process_one_event : ExecutionOption → Action Q Bool
  unfolding dispatch
  process_one_event option = do
    s ← get
    q ← event_queue_of s.event_queue
    if is_unit_test option && (messages_waiting q == 0) then pure false else do
      let (event, q') = receive q
      put (record s { event_queue = some q' })
      dispatch event

  -- The loop of `HLCS_Task`, for at most so many rounds.
  unfoldable pub task_rounds : ℕ → Action Q (Unit {0})
  unfolding process_one_event
  task_rounds zero = pure tt
  task_rounds (suc n) = do
    s ← get
    if s.exit_thread then pure tt else do process_one_event normal; task_rounds n

  unfoldable pub task : ℕ → Action Q (Unit {0})
  unfolding task_rounds
  task n = sm_initialize events driver >> task_rounds n
