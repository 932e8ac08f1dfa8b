-- ===== src/Hlcs/System/Commands.antt =====
-- What the task does with an event up to its command to the lock, in each position:
-- example/services/hwLockCtrlService/src/hwLockCtrlService.c.
use cpputest_for_freertos.Base.{
  Option, some, ◌≡◌, ◌∷◌, if◌then◌else◌, none, arith, true, false, refl,
}
use cpputest_for_freertos.Service.EventQueue.{EventQueue}
use cpputest_for_freertos.Hlcs.{
  Signal, queue_depth, Driver, Kernel, Hlcs, sm_locked, hw_read_current, sm_self_test, hw_lock,
  sig_request_current_check, hw_init, below_2000, sig_request_self_test,
}
use cpputest_for_freertos.Hlcs.Process.{
  Lock, func_of, other, command_of, shut, request_of, opened, self_tested,
}
use cpputest_for_freertos.Hlcs.Command.{initialize_command, dispatch_command}
use cpputest_for_freertos.Service.{asserted, Outcome, ok}

module _ {Q : Type 0} (events : EventQueue Q Signal queue_depth) (driver : Driver)
    (kernel : Kernel) where
  open events use {send_to_front}

  -- The service that has commanded the lock to another position, out of a position.
  abbrev pub moving : Lock → Hlcs Q → Hlcs Q
  moving l s = record s {
    current_state = some (func_of l);
    state_history = some (func_of (other l));
    log = command_of l ∷ s.log;
  }

  -- The service that has commanded the lock to the position before the self test.
  abbrev pub returning : Lock → Hlcs Q → Hlcs Q
  returning l s = record s { current_state = some (func_of l); log = command_of l ∷ s.log }

  -- The service that has commanded the lock for the first time.
  abbrev pub starting : Hlcs Q → Hlcs Q
  starting s = record s { current_state = some sm_locked; log = hw_lock ∷ hw_init ∷ s.log }

  abbrev pub reading : Hlcs Q → Outcome (Hlcs Q) (Option Lock)
  reading s =
      let s' = record s { log = hw_read_current ∷ s.log } in
      if below_2000 (driver.read_current s.log) then ok none s' else asserted 425 s'

  pub initialize_command_lem :
      (s : Hlcs Q) → initialize_command events driver s ≡ ok (some shut) (starting s)
  unfolding initialize_command
  initialize_command_lem s = refl

  module _ (s : Hlcs Q) {q : Q} (l : Lock) (has : s.event_queue ≡ some q)
      (current : s.current_state ≡ some (func_of l)) where
    pub command-same : dispatch_command events driver (request_of l) s ≡ ok none s
    unfolding dispatch_command
    command-same =
        elim l
            as (λ m.
              s.current_state ≡ some (func_of m)
              → dispatch_command events driver (request_of m) s ≡ ok none s) [
                | shut ↦ λ c. ground (arith, c)
                | opened ↦ λ c. ground (arith, c)
              ]
          current

    pub command-other :
        dispatch_command events driver (request_of (other l)) s
        ≡ ok (some (other l)) (moving (other l) s)
    unfolding dispatch_command
    command-other =
        elim l
            as (λ m.
              s.current_state ≡ some (func_of m)
              → dispatch_command events driver (request_of (other m)) s
                ≡ ok (some (other m)) (moving (other m) s)) [
                  | shut ↦ λ c. ground (arith, c)
                  | opened ↦ λ c. ground (arith, c)
                ]
          current

    pub command-self_test :
        (send_to_front (request_of l) q).0 ≡ true
        → dispatch_command events driver sig_request_self_test s
          ≡ ok none (self_tested events driver kernel l s q)
    unfolding dispatch_command
    command-self_test =
        elim l
            as (λ m.
              s.current_state ≡ some (func_of m)
              → (send_to_front (request_of m) q).0 ≡ true
              → dispatch_command events driver sig_request_self_test s
                ≡ ok none (self_tested events driver kernel m s q)) [
                  | shut ↦ λ c room. ground (arith, c, room)
                  | opened ↦ λ c room. ground (arith, c, room)
                ]
          current

    pub command-self_test_full :
        (send_to_front (request_of l) q).0 ≡ false
        → dispatch_command events driver sig_request_self_test s
          ≡ asserted 233 (self_tested events driver kernel l s q)
    unfolding dispatch_command
    command-self_test_full =
        elim l
            as (λ m.
              s.current_state ≡ some (func_of m)
              → (send_to_front (request_of m) q).0 ≡ false
              → dispatch_command events driver sig_request_self_test s
                ≡ asserted 233 (self_tested events driver kernel m s q)) [
                  | shut ↦ λ c full. ground (arith, c, full)
                  | opened ↦ λ c full. ground (arith, c, full)
                ]
          current

    pub command-current_check :
        dispatch_command events driver sig_request_current_check s ≡ reading s
    unfolding dispatch_command
    command-current_check =
        elim l
            as (λ m.
              s.current_state ≡ some (func_of m)
              → dispatch_command events driver sig_request_current_check s ≡ reading s) [
                | shut ↦ λ c. ground (arith, c)
                | opened ↦ λ c. ground (arith, c)
              ]
          current

  pub command-return :
      (s : Hlcs Q) (l : Lock)
      → s.current_state ≡ some sm_self_test
      → dispatch_command events driver (request_of l) s ≡ ok (some l) (returning l s)
  unfolding dispatch_command
  command-return s shut current = ground (arith, current)
  command-return s opened current = ground (arith, current)
