-- ===== src/Hlcs/System/Inv.antt =====
-- What holds of the lock service whatever its clients do:
-- example/services/hwLockCtrlService/src/hwLockCtrlService.c.
use cpputest_for_freertos.Hlcs.{
  Kernel, Effect, Signal, queue_depth, Driver, Hlcs, sm_self_test, hw_read_current, below_2000,
  hw_lock, hw_unlock, LockState, notify_state, lock_state_unknown,
}
use cpputest_for_freertos.Base.{
  List, Option, none, ◌≡◌, ◌∷◌, some, ℕ, true, length, ◌≤◌, false, [], ◌⊎◌,
}
use cpputest_for_freertos.Service.EventQueue.{EventQueue}
use cpputest_for_freertos.Hlcs.Process.{Lock, shut, func_of, opened, state_of, request_of}
use cpputest_for_freertos.Hlcs.System.{System, created, waiting, holding, stopped, storing, telling}
use cpputest_for_freertos.Hlcs.Drain.{all_requests, is_request}

-- The position of the last command to the lock.
abbrev pub last_command : List Effect → Option Lock
last_command [] = none
last_command (hw_lock ∷ log) = some shut
last_command (hw_unlock ∷ log) = some opened
last_command (_ ∷ log) = last_command log

-- The state with which the callback was called last.
abbrev pub last_notified : List Effect → Option LockState
last_notified [] = none
last_notified (notify_state state ∷ log) = some state
last_notified (_ ∷ log) = last_notified log

module _ {Q : Type 0} (events : EventQueue Q Signal queue_depth) (driver : Driver)
    (kernel : Kernel) where
  open events use {contents}

  -- At most ten events wait in the queue, requests all, and the task goes on.
  pub record Holds (s : Hlcs Q) (q : Q) (es : List Signal) : Type 0 where
    pub has : s.event_queue ≡ some q
    pub waits : contents q ≡ es
    pub requests : all_requests es ≡ true
    pub fits : length es ≤ queue_depth
    pub goes_on : s.exit_thread ≡ false

  -- The state that is shown is unknown, or a position, which a callback was told last.
  pub data Stale (s : Hlcs Q) : Type 0 where
    unknown : s.lock_state ≡ lock_state_unknown → Stale s
    known :
        (l : Lock)
        → s.lock_state ≡ state_of l
        → (s.state_changed_callback ≡ false) ⊎ (last_notified s.log ≡ some (state_of l))
        → Stale s

  -- What the service shows, its state, the last command to the lock and, where there is a callback,
  -- the last state that it was told are of one position.
  pub record Stands (s : Hlcs Q) (l : Lock) : Type 0 where
    pub current : s.current_state ≡ some (func_of l)
    pub shows : s.lock_state ≡ state_of l
    pub commanded : last_command s.log ≡ some l
    pub told : (s.state_changed_callback ≡ false) ⊎ (last_notified s.log ≡ some (state_of l))

  -- The service is in its self test, with the position before it as its history.
  pub record InTest (s : Hlcs Q) (l : Lock) : Type 0 where
    pub current : s.current_state ≡ some sm_self_test
    pub shows : s.lock_state ≡ state_of l
    pub commanded : last_command s.log ≡ some l
    pub told : (s.state_changed_callback ≡ false) ⊎ (last_notified s.log ≡ some (state_of l))
    pub history : s.state_history ≡ some (func_of l)

  -- The lock has been commanded to the position of the state that was entered, and `s_lockState` is
  -- as before: unknown at first, else a position, which a callback was told.
  pub record Storing (s : Hlcs Q) (l : Lock) : Type 0 where
    pub current : s.current_state ≡ some (func_of l)
    pub commanded : last_command s.log ≡ some l
    pub stale : Stale s

  -- The state is stored, and the callback is not called yet.
  pub record Telling (s : Hlcs Q) (l : Lock) : Type 0 where
    pub current : s.current_state ≡ some (func_of l)
    pub shows : s.lock_state ≡ state_of l
    pub commanded : last_command s.log ≡ some l

  -- Why an assertion failed: no room for a request, no room for the return from the self test, or a
  -- current of 2000 mA or more.
  pub data Reason (s : Hlcs Q) : ℕ → Type 0 where
    no_room_back :
        (q : Q) → s.event_queue ≡ some q → queue_depth ≤ length (contents q) → Reason s 219
    no_room_front :
        (q : Q) → s.event_queue ≡ some q → queue_depth ≤ length (contents q) → Reason s 233
    high_current :
        (log : List Effect)
        → s.log ≡ hw_read_current ∷ log
        → below_2000 (driver.read_current log) ≡ false
        → Reason s 425

  pub data Inv : System Q → Type 0 where
    is_created :
        {s : Hlcs Q} {q : Q} {es : List Signal}
        → Holds s q es
        → s.lock_state ≡ lock_state_unknown
        → Inv (record { service = s; phase = created })
    rests :
        {s : Hlcs Q} {l : Lock} {q : Q} {es : List Signal}
        → Holds s q es
        → Stands s l
        → Inv (record { service = s; phase = waiting })
    takes :
        {s : Hlcs Q} {l : Lock} {e : Signal} {q : Q} {es : List Signal}
        → Holds s q es
        → Stands s l
        → is_request e ≡ true
        → Inv (record { service = s; phase = holding e })
    tests :
        {s : Hlcs Q} {l : Lock} {q : Q} {es : List Signal}
        → Holds s q (request_of l ∷ es)
        → InTest s l
        → Inv (record { service = s; phase = waiting })
    returns :
        {s : Hlcs Q} {l : Lock} {q : Q} {es : List Signal}
        → Holds s q es
        → InTest s l
        → Inv (record { service = s; phase = holding (request_of l) })
    enters :
        {s : Hlcs Q} {l : Lock} {q : Q} {es : List Signal}
        → Holds s q es
        → Storing s l
        → Inv (record { service = s; phase = storing l })
    informs :
        {s : Hlcs Q} {l : Lock} {q : Q} {es : List Signal}
        → Holds s q es
        → Telling s l
        → Inv (record { service = s; phase = telling l })
    halts :
        {s : Hlcs Q} {line : ℕ} → Reason s line → Inv (record { service = s; phase = stopped line })

  pub Holds-of :
      {s t : Hlcs Q} {q : Q} {es : List Signal}
      → Holds s q es
      → t.event_queue ≡ some q
      → t.exit_thread ≡ false
      → Holds t q es
  Holds-of h has goes_on = record {
    has = has;
    waits = h.waits;
    requests = h.requests;
    fits = h.fits;
    goes_on = goes_on;
  }

  Stale-queue : {s : Hlcs Q} {x : Option Q} → Stale s → Stale (record s { event_queue = x })
  Stale-queue (unknown e) = unknown e
  Stale-queue (known m e told) = known m e told

  module _ {s : Hlcs Q} {l : Lock} {x : Option Q} where
    pub Stands-queue : Stands s l → Stands (record s { event_queue = x }) l
    Stands-queue v = record {
      current = v.current;
      shows = v.shows;
      commanded = v.commanded;
      told = v.told;
    }

    pub InTest-queue : InTest s l → InTest (record s { event_queue = x }) l
    InTest-queue v = record {
      current = v.current;
      shows = v.shows;
      commanded = v.commanded;
      told = v.told;
      history = v.history;
    }

    pub Storing-queue : Storing s l → Storing (record s { event_queue = x }) l
    Storing-queue v = record {
      current = v.current;
      commanded = v.commanded;
      stale = Stale-queue v.stale;
    }

    pub Telling-queue : Telling s l → Telling (record s { event_queue = x }) l
    Telling-queue v = record { current = v.current; shows = v.shows; commanded = v.commanded }
