-- ===== src/Hlcs/System/Safety.antt =====
-- What clients can rely on: example/services/hwLockCtrlService/src/hwLockCtrlService.c.
use cpputest_for_freertos.Hlcs.{
  Kernel, statics, Effect, LockState, Signal, queue_depth, Driver, Hlcs, lock_state_unknown,
}
use cpputest_for_freertos.Service.{ok}
use cpputest_for_freertos.Hlcs.System.Inv.{
  Inv, is_created, rests, takes, tests, returns, halts, last_command, Reason, last_notified, Stale,
  enters, informs, unknown, known,
}
use cpputest_for_freertos.Hlcs.System.{
  Phase, System, holding, created, stopped, waiting, Reach, storing, telling,
}
use cpputest_for_freertos.Service.EventQueue.{EventQueue}
use cpputest_for_freertos.Base.{Bool, false, true, List, ◌≡◌, ap, some, ℕ, refl, ◌⊎◌}
use cpputest_for_freertos.Hlcs.Api.{get_state}
use cpputest_for_freertos.Hlcs.Process.{Lock, state_of}
use cpputest_for_freertos.Hlcs.System.Launch.{Willing, launched, launched-Holds, launched-unknown}
use cpputest_for_freertos.Hlcs.System.Kept.{Reach-Inv}

-- The task is between two events.
abbrev pub is_between : Phase → Bool
is_between waiting = true
is_between (holding e) = true
is_between _ = false

module _ {Q : Type 0} (events : EventQueue Q Signal queue_depth) (driver : Driver)
    (kernel : Kernel) where
  open events use {create}

  -- What HLCS_GetState returns.
  abbrev pub Returns : Hlcs Q → LockState → Type 0
  Returns s state = get_state events driver kernel s ≡ ok state s

  -- There is no callback, or it was called last with the state of the position.
  abbrev pub Told : Hlcs Q → Lock → Type 0
  Told s l = (s.state_changed_callback ≡ false) ⊎ (last_notified s.log ≡ some (state_of l))

  pub data Safe : System Q → Type 0 where
    not_yet :
        {s : Hlcs Q} → Returns s lock_state_unknown → Safe (record { service = s; phase = created })
    first_command :
        {s : Hlcs Q} {l : Lock}
        → last_command s.log ≡ some l
        → Returns s lock_state_unknown
        → Safe (record { service = s; phase = storing l })
    later_command :
        {s : Hlcs Q} {l : Lock}
        → last_command s.log ≡ some l
        → (before : Lock) → Returns s (state_of before)
        → Told s before
        → Safe (record { service = s; phase = storing l })
    shows :
        {s : Hlcs Q} {l : Lock}
        → last_command s.log ≡ some l
        → Returns s (state_of l)
        → Safe (record { service = s; phase = telling l })
    agrees :
        {s : Hlcs Q} {phase : Phase}
        → (l : Lock) → is_between phase ≡ true
        → last_command s.log ≡ some l
        → Returns s (state_of l)
        → Told s l
        → Safe (record { service = s; phase = phase })
    failed :
        {s : Hlcs Q} {line : ℕ}
        → Reason events driver kernel s line
        → Safe (record { service = s; phase = stopped line })

  module _ {s : Hlcs Q} where
    shown :
        {state : LockState} → s.lock_state ≡ state → get_state events driver kernel s ≡ ok state s
    unfolding get_state
    shown e = ap (λ state. ok state s) e

  storing-Safe :
      {s : Hlcs Q} {l : Lock}
      → last_command s.log ≡ some l
      → Stale events driver kernel s
      → Safe (record { service = s; phase = storing l })
  storing-Safe commanded (unknown e) = first_command commanded (shown e)
  storing-Safe commanded (known m e told) = later_command commanded m (shown e) told

  Inv-Safe : {x : System Q} → Inv events driver kernel x → Safe x
  Inv-Safe (is_created h e) = not_yet (shown e)
  Inv-Safe (enters h st) = storing-Safe st.commanded st.stale
  Inv-Safe (informs h st) = shows st.commanded (shown st.shows)
  Inv-Safe (rests {l = l} h st) = agrees l refl st.commanded (shown st.shows) st.told
  Inv-Safe (takes {l = l} h st r) = agrees l refl st.commanded (shown st.shows) st.told
  Inv-Safe (tests {l = l} h st) = agrees l refl st.commanded (shown st.shows) st.told
  Inv-Safe (returns {l = l} h st) = agrees l refl st.commanded (shown st.shows) st.told
  Inv-Safe (halts why) = failed why

  -- Let the kernel create the queue, the timer and the task and start the timer, and let clients
  -- and the timer push requests while the task runs, between any two of its steps, which end at its
  -- calls of the kernel, at its command to the lock, at its store of the state and at its call of
  -- the callback. Then in every state that HLCS_Init, the two registrations and HLCS_Start for
  -- normal use, before the scheduler is started, lead to, as long as no client destroys the
  -- service, one of these holds. The task has not run yet, and HLCS_GetState returns unknown. It
  -- has commanded the lock and not stored the state: HLCS_GetState returns unknown, or the position
  -- that a registered callback was told last. It has stored the state and not called the callback:
  -- HLCS_GetState returns the position of the last command. It is between two events: HLCS_GetState
  -- returns the position of the last command, which a registered callback was told last. Or an
  -- assertion has failed, on line 219 or 233 with ten events or more in the queue, or on line 425
  -- after a reading of 2000 mA or more.
  pub launched-Safe :
      (on_state on_test : Bool) (q : Q) (log : List Effect) (s : Hlcs Q) (x : System Q)
      → create ≡ some q
      → Willing kernel
      → launched events driver kernel on_state on_test (record statics { log = log }) ≡ ok tt s
      → Reach events driver kernel s x
      → Safe x
  launched-Safe on_state on_test q log s x made k runs r = Inv-Safe (
      Reach-Inv events driver kernel
        (launched-Holds events driver kernel on_state on_test q log made k runs)
        (launched-unknown events driver kernel on_state on_test q log made k runs) r)
