-- ===== src/Hlcs/Command.antt =====
-- The state machine up to the moment at which it has commanded the lock and not yet stored the state
-- that HLCS_GetState returns: example/services/hwLockCtrlService/src/hwLockCtrlService.c. A function
-- returns the position to which the lock has been commanded, if it has been, and what is left is
-- `HLCS_NotifyChangedState`.
use cpputest_for_freertos.Base.{
  Option, if◌then◌else◌, some, none, true, ◌≡◌, Bool-cases, inl, arith, inr, refl, ◌∷◌, Bool, false,
  ap,
}
use cpputest_for_freertos.Service.{
  asserted, ◌>>=◌, ◌>>◌, ok, undefined_behavior, pure, get, put, Outcome,
}
use cpputest_for_freertos.Service.EventQueue.{EventQueue}
use cpputest_for_freertos.Hlcs.{
  Signal, queue_depth, Driver, StateFunc, hw_lock, Hlcs, sm_exit, sm_initial_pseudo_state, sm_enter,
  hw_unlock, sm_locked, sm_unlocked, sm_self_test, hw_init, Kernel,
}
use cpputest_for_freertos.Hlcs.Machine.{
  Action, call, self_testing, locked, initial_pseudo_state, unlocked, emit, call_current,
  notify_changed_state, same_pointer, sm_process, sm_initialize,
}
use cpputest_for_freertos.Hlcs.Process.{Lock, state_of, shut, opened}
use cpputest_for_freertos.Hlcs.Api.{is_thread_exit, dispatch}

module _ {Q : Type 0} (events : EventQueue Q Signal queue_depth) (driver : Driver) where
  -- `SM_ENTER` of `HLCS_SmLocked` and `HLCS_SmUnlocked` up to the command; the other states do not
  -- command the lock when they are entered.
  abbrev pub enter_command : Option StateFunc → Action Q (Option Lock)
  enter_command none = λ s. undefined_behavior
  enter_command (some sm_locked) = emit hw_lock >> pure (some shut)
  enter_command (some sm_unlocked) = emit hw_unlock >> pure (some opened)
  enter_command (some sm_self_test) = self_testing events driver sm_enter >> pure none
  enter_command (some sm_initial_pseudo_state) =
      initial_pseudo_state events driver sm_enter >> pure none

  -- The call of `s_currentState` with the event of entering.
  abbrev pub enter_current : Action Q (Option Lock)
  enter_current s = enter_command s.current_state s

  -- What follows the call with the event: the exit, the new state and its entry.
  abbrev pub switch_command : Option StateFunc → Action Q (Option Lock)
  switch_command rtn = do
    s ← get
    if same_pointer rtn s.current_state then pure none else do
      call_current events driver sm_exit
      t ← get
      put (record t { current_state = rtn })
      enter_current

  unfoldable pub process_command : Signal → Action Q (Option Lock)
  unfolding call
  process_command sig = call_current events driver sig >>= switch_command

  unfoldable pub initialize_command : Action Q (Option Lock)
  unfolding call
  initialize_command = do
    s ← get
    put (record s { current_state = some sm_initial_pseudo_state })
    first ← call_current events driver sm_enter
    t ← get
    put (record t { current_state = first })
    enter_current

  unfoldable pub dispatch_command : Signal → Action Q (Option Lock)
  unfolding process_command
  dispatch_command event =
      if is_thread_exit event
      then (λ s. ok none (record s { exit_thread = true }))
      else process_command event

  -- What follows a command.
  abbrev pub finish : Option Lock → Action Q (Unit {0})
  finish none = pure tt
  finish (some l) = notify_changed_state events driver (state_of l)

  -- Nothing is left after a run that does not command the lock.
  discarded :
      {A : Type 0} (out : Outcome (Hlcs Q) A) (s : Hlcs Q)
      → ((λ _. out) >> pure tt) s ≡ (((λ _. out) >> pure none) >>= finish) s
  discarded (ok a t) s = refl
  discarded (asserted line t) s = refl
  discarded undefined_behavior s = refl

  entering :
      (f : Option StateFunc) (s : Hlcs Q)
      → (call events driver f sm_enter >> pure tt) s ≡ (enter_command f >>= finish) s
  unfolding call locked unlocked self_testing initial_pseudo_state notify_changed_state
  entering none s = refl
  entering (some sm_locked) s = elim (Bool-cases s.state_changed_callback) [
    | inl e ↦ ground (arith, e)
    | inr e ↦ ground (arith, e)
  ]
  entering (some sm_unlocked) s = elim (Bool-cases s.state_changed_callback) [
    | inl e ↦ ground (arith, e)
    | inr e ↦ ground (arith, e)
  ]
  entering (some sm_self_test) s = discarded (call events driver (some sm_self_test) sm_enter s) s
  entering (some sm_initial_pseudo_state) s = refl

  -- What follows the exit, and what follows the call with the event, whatever they have come to.
  exited :
      (out : Outcome (Hlcs Q) (Option StateFunc)) (rtn : Option StateFunc) (s : Hlcs Q)
      → ((λ _. out)
            >> (get >>= λ t.
                put (record t { current_state = rtn })
                >> (call_current events driver sm_enter >> pure tt)))
          s
        ≡ (((λ _. out) >> (get >>= λ t. put (record t { current_state = rtn }) >> enter_current))
              >>= finish)
            s
  exited (ok a t) rtn s = entering rtn (record t { current_state = rtn })
  exited (asserted line t) rtn s = refl
  exited undefined_behavior rtn s = refl

  abbrev switch : Option StateFunc → Action Q (Unit {0})
  switch rtn = do
    s ← get
    if same_pointer rtn s.current_state then pure tt else do
      call_current events driver sm_exit
      t ← get
      put (record t { current_state = rtn })
      call_current events driver sm_enter
      pure tt

  chosen :
      (same : Bool) (rtn : Option StateFunc) (s : Hlcs Q)
      → (if same
            then pure tt
            else (call_current events driver sm_exit
                >> (get >>= λ t.
                    put (record t { current_state = rtn })
                    >> (call_current events driver sm_enter >> pure tt))))
          s
        ≡ ((if same
                then pure none
                else (call_current events driver sm_exit
                    >> (get >>= λ t. put (record t { current_state = rtn }) >> enter_current)))
              >>= finish)
            s
  unfolding call
  chosen true rtn s = refl
  chosen false rtn s = exited (call_current events driver sm_exit s) rtn s

  called :
      (out : Outcome (Hlcs Q) (Option StateFunc)) (s : Hlcs Q)
      → ((λ _. out) >>= switch) s ≡ (((λ _. out) >>= switch_command) >>= finish) s
  unfolding call
  called (ok rtn t) s = chosen (same_pointer rtn t.current_state) rtn t
  called (asserted line t) s = refl
  called undefined_behavior s = refl

  -- The run of `HLCS_SmProcess` is that of its two parts.
  process_command-finish :
      (sig : Signal) (s : Hlcs Q)
      → sm_process events driver sig s ≡ (process_command sig >>= finish) s
  unfolding sm_process process_command
  process_command-finish sig s = called (call_current events driver sig s) s

  pub initialize_command-finish :
      (s : Hlcs Q) → sm_initialize events driver s ≡ (initialize_command >>= finish) s
  unfolding sm_initialize initialize_command
  initialize_command-finish s =
      entering (some sm_locked) (record s { current_state = some sm_locked; log = hw_init ∷ s.log })

  pub dispatch_command-finish :
      (kernel : Kernel) (event : Signal) (s : Hlcs Q)
      → is_thread_exit event ≡ false
      → dispatch events driver kernel (some event) s
        ≡ ((dispatch_command event >>= finish) >> pure true) s
  unfolding dispatch dispatch_command
  dispatch_command-finish kernel event s e =
      rw e (ap (λ out. ((λ _. out) >> pure true) s) (process_command-finish event s))
