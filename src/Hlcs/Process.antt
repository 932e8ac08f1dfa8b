-- ===== src/Hlcs/Process.antt =====
-- What one call of `HLCS_ProcessOneEvent` does to a service that is at rest between two events:
-- example/services/hwLockCtrlService/src/hwLockCtrlService.c.
use cpputest_for_freertos.Hlcs.{
  Hlcs, StateFunc, LockState, Signal, Effect, sm_locked, lock_state_locked, sig_request_locked,
  hw_lock, queue_depth, sm_unlocked, lock_state_unlocked, sig_request_unlocked, hw_unlock, Driver,
  notify_state, Kernel, sm_self_test, notify_self_test, sig_request_self_test, hw_self_test,
  hw_read_current, sig_request_current_check, below_2000,
}
use cpputest_for_freertos.Base.{Bool, List, if◌then◌else◌, ◌∷◌, ◌≡◌, some, true, arith, [], false}
use cpputest_for_freertos.Service.EventQueue.{EventQueue}
use cpputest_for_freertos.Service.{Outcome, unit_test, ok, asserted}
use cpputest_for_freertos.Hlcs.Api.{process_one_event, dispatch}
use cpputest_for_freertos.Hlcs.Machine.{sm_process, test_result}

-- The two positions of the lock, with the state function, the state that is shown, the request and
-- the command to the driver that belong to each.
pub data Lock : Type 0 where
  shut opened : Lock

abbrev pub func_of : Lock → StateFunc
func_of shut = sm_locked
func_of opened = sm_unlocked

abbrev pub state_of : Lock → LockState
state_of shut = lock_state_locked
state_of opened = lock_state_unlocked

abbrev pub request_of : Lock → Signal
request_of shut = sig_request_locked
request_of opened = sig_request_unlocked

abbrev pub command_of : Lock → Effect
command_of shut = hw_lock
command_of opened = hw_unlock

abbrev pub other : Lock → Lock
other shut = opened
other opened = shut

-- The effects of entering a position, last first.
abbrev pub entered : Bool → Lock → List Effect → List Effect
entered callback l log =
    if callback then notify_state (state_of l) ∷ command_of l ∷ log else command_of l ∷ log

module _ {Q : Type 0} (events : EventQueue Q Signal queue_depth) (driver : Driver)
    (kernel : Kernel) where
  open events use {
    send_to_back, send_to_front, receive, contents, front_room, receive_first, waiting_length,
  }

  -- The service rests in position `l`, and the events `es` wait in its queue `q`.
  pub record Rests (s : Hlcs Q) (l : Lock) (q : Q) (es : List Signal) : Type 0 where
    pub has : s.event_queue ≡ some q
    pub waits : contents q ≡ es
    pub current : s.current_state ≡ some (func_of l)
    pub shows : s.lock_state ≡ state_of l

  -- The service is in its self test, which it began in position `l`.
  pub record Tests (s : Hlcs Q) (l : Lock) (q : Q) (es : List Signal) : Type 0 where
    pub has : s.event_queue ≡ some q
    pub waits : contents q ≡ es
    pub current : s.current_state ≡ some sm_self_test
    pub shows : s.lock_state ≡ state_of l
    pub history : s.state_history ≡ some (func_of l)

  abbrev pub process : Hlcs Q → Outcome (Hlcs Q) Bool
  process s = process_one_event events driver kernel unit_test s

  -- The service after it has taken a request and moved to position `l`.
  abbrev pub moved : Lock → Hlcs Q → Q → Hlcs Q
  moved l s q = record s {
    event_queue = some q;
    current_state = some (func_of l);
    state_history = some (func_of (other l));
    lock_state = state_of l;
    log = entered s.state_changed_callback l s.log;
  }

  -- The service after it has entered its self test from position `l`.
  abbrev pub self_tested : Lock → Hlcs Q → Q → Hlcs Q
  self_tested l s q = record s {
    event_queue = some (send_to_front (request_of l) q).1;
    current_state = some sm_self_test;
    state_history = some (func_of l);
    log =
        if s.self_test_result_callback
        then notify_self_test (test_result (driver.self_test s.log)) ∷ hw_self_test ∷ s.log
        else hw_self_test ∷ s.log;
  }

  -- The service after its self test has led it back to position `l`.
  abbrev pub returned : Lock → Hlcs Q → Q → Hlcs Q
  returned l s q = record s {
    event_queue = some q;
    current_state = some (func_of l);
    lock_state = state_of l;
    log = entered s.state_changed_callback l s.log;
  }

  -- The service after it has checked the current.
  abbrev pub checked : Hlcs Q → Outcome (Hlcs Q) Bool
  checked s =
      let s' = record s { log = hw_read_current ∷ s.log } in
      if below_2000 (driver.read_current s.log) then ok true s' else asserted 425 s'

  module _ (s : Hlcs Q) {q : Q} where
    pub process-next :
        {e : Signal} {es : List Signal}
        → s.event_queue ≡ some q
        → contents q ≡ e ∷ es
        → process s
          ≡ dispatch events driver kernel (some e) (record s { event_queue = some (receive q).1 })
    unfolding process_one_event
    process-next {e} {es} has waits =
        ground (arith, has, waits, receive_first q e es waits, waiting_length q)

    pub process-none : s.event_queue ≡ some q → contents q ≡ [] → process s ≡ ok false s
    unfolding process_one_event
    process-none has waits = ground (arith, has, waits, waiting_length q)

  -- What the state machine makes of a request, when the queue is `q` already.
  module _ (s : Hlcs Q) {q : Q} (l : Lock) (has : s.event_queue ≡ some q)
      (current : s.current_state ≡ some (func_of l)) where
    pub dispatch-same : dispatch events driver kernel (some (request_of l)) s ≡ ok true s
    unfolding dispatch sm_process
    dispatch-same =
        elim l
            as (λ m.
              s.current_state ≡ some (func_of m)
              → dispatch events driver kernel (some (request_of m)) s ≡ ok true s) [
                | shut ↦ λ c. ground (arith, c)
                | opened ↦ λ c. ground (arith, c)
              ]
          current

    pub dispatch-other :
        dispatch events driver kernel (some (request_of (other l))) s
        ≡ ok true (moved (other l) s q)
    unfolding dispatch sm_process
    dispatch-other =
        elim l
            as (λ m.
              s.current_state ≡ some (func_of m)
              → dispatch events driver kernel (some (request_of (other m))) s
                ≡ ok true (moved (other m) s q)) [
                  | shut ↦ λ c. ground (arith, c)
                  | opened ↦ λ c. ground (arith, c)
                ]
          current

    pub dispatch-self_test :
        (send_to_front (request_of l) q).0 ≡ true
        → dispatch events driver kernel (some sig_request_self_test) s ≡ ok true (self_tested l s q)
    unfolding dispatch sm_process
    dispatch-self_test =
        elim l
            as (λ m.
              s.current_state ≡ some (func_of m)
              → (send_to_front (request_of m) q).0 ≡ true
              → dispatch events driver kernel (some sig_request_self_test) s
                ≡ ok true (self_tested m s q)) [
                  | shut ↦ λ c room. ground (arith, c, room)
                  | opened ↦ λ c room. ground (arith, c, room)
                ]
          current

    pub dispatch-self_test_full :
        (send_to_front (request_of l) q).0 ≡ false
        → dispatch events driver kernel (some sig_request_self_test) s
          ≡ asserted 233 (self_tested l s q)
    unfolding dispatch sm_process
    dispatch-self_test_full =
        elim l
            as (λ m.
              s.current_state ≡ some (func_of m)
              → (send_to_front (request_of m) q).0 ≡ false
              → dispatch events driver kernel (some sig_request_self_test) s
                ≡ asserted 233 (self_tested m s q)) [
                  | shut ↦ λ c full. ground (arith, c, full)
                  | opened ↦ λ c full. ground (arith, c, full)
                ]
          current

    pub dispatch-current_check :
        dispatch events driver kernel (some sig_request_current_check) s ≡ checked s
    unfolding dispatch sm_process
    dispatch-current_check =
        elim l
            as (λ m.
              s.current_state ≡ some (func_of m)
              → dispatch events driver kernel (some sig_request_current_check) s ≡ checked s) [
                | shut ↦ λ c. ground (arith, c)
                | opened ↦ λ c. ground (arith, c)
              ]
          current

  module _ (s : Hlcs Q) {q : Q} (l : Lock) (has : s.event_queue ≡ some q)
      (current : s.current_state ≡ some sm_self_test) where
    pub dispatch-return :
        dispatch events driver kernel (some (request_of l)) s ≡ ok true (returned l s q)
    unfolding dispatch sm_process
    dispatch-return =
        elim l
          as (λ m.
            dispatch events driver kernel (some (request_of m)) s ≡ ok true (returned m s q)) [
              | shut ↦ ground (arith, current)
              | opened ↦ ground (arith, current)
            ]
