-- ===== src/Hlcs/System.antt =====
-- The lock service and its clients as threads that interleave: a client or the timer pushes a
-- request, or reads the state, while `HLCS_Task` is before its first state, waits for an event, has
-- received one that it has not processed yet, has commanded the lock and not yet stored the state,
-- or has stored it and not yet called the callback:
-- example/services/hwLockCtrlService/src/hwLockCtrlService.c. A step of the task ends where it
-- changes what the others read, which is the queue and `s_lockState`: with an event it calls the
-- kernel once at most. A send that waits for room and then succeeds is the send made later; one whose
-- waiting time runs out is the send that finds no room. `HLCS_Destroy` is no step: the service is
-- used and not destroyed.
pub mod Commands
pub mod Inv
pub mod Kept
pub mod Launch
pub mod Safety
pub mod Overrun
pub mod Works
pub mod Live
pub mod Whole
use cpputest_for_freertos.Service.{Outcome, ok, asserted, undefined_behavior}
use cpputest_for_freertos.Hlcs.{Signal, Hlcs, queue_depth, Driver, Kernel}
use cpputest_for_freertos.Base.{Bool, ℕ, true, false, Option, some, ◌≡◌, none}
use cpputest_for_freertos.Service.EventQueue.{EventQueue}
use cpputest_for_freertos.Hlcs.Machine.{push_event, store_state, tell_state}
use cpputest_for_freertos.Hlcs.Drain.{is_request}
use cpputest_for_freertos.Hlcs.Process.{Lock, state_of}
use cpputest_for_freertos.Hlcs.Command.{initialize_command, dispatch_command}

-- Where the task stands. A failed assertion, of the task or of a client, stops the system, as does
-- the use of a null handle.
pub data Phase : Type 0 where
  created waiting : Phase
  holding : Signal → Phase
  storing telling : Lock → Phase
  stopped : ℕ → Phase
  crashed : Phase

pub record System (Q : Type 0) : Type 0 where
  pub service : Hlcs Q
  pub phase : Phase

abbrev pub is_running : Phase → Bool
is_running created = true
is_running waiting = true
is_running (holding e) = true
is_running (storing l) = true
is_running (telling l) = true
is_running (stopped line) = false
is_running crashed = false

module _ {Q : Type 0} where
  -- The system after a run over the service `s`, with the task in the given phase if it returns.
  abbrev pub after : {A : Type 0} → Hlcs Q → Phase → Outcome (Hlcs Q) A → System Q
  after s phase (ok a t) = record { service = t; phase = phase }
  after s phase (asserted line t) = record { service = t; phase = stopped line }
  after s phase undefined_behavior = record { service = s; phase = crashed }

  -- The system after the task's part of a run up to its command to the lock.
  abbrev pub after_command : Hlcs Q → Outcome (Hlcs Q) (Option Lock) → System Q
  after_command s (ok none t) = record { service = t; phase = waiting }
  after_command s (ok (some l) t) = record { service = t; phase = storing l }
  after_command s (asserted line t) = record { service = t; phase = stopped line }
  after_command s undefined_behavior = record { service = s; phase = crashed }

module _ {Q : Type 0} (events : EventQueue Q Signal queue_depth) (driver : Driver)
    (kernel : Kernel) where
  open events use {receive}

  -- The receive of `HLCS_ProcessOneEvent`: the task waits on while there is no event.
  abbrev pub received : Hlcs Q → Option Signal × Q → System Q
  received s (none, q) = record { service = record s { event_queue = some q }; phase = waiting }
  received s (some e, q) = record { service = record s { event_queue = some q }; phase = holding e }

  abbrev pub received_from : Hlcs Q → Option Q → System Q
  received_from s none = record { service = s; phase = crashed }
  received_from s (some q) = received s (receive q)

  -- A step of the task, while `s_exitThread` is not set.
  pub data TaskStep : System Q → System Q → Type 0 where
    begins :
        {s : Hlcs Q}
        → TaskStep
            (record { service = s; phase = created })
            (after_command s (initialize_command events driver s))
    receives :
        {s : Hlcs Q}
        → s.exit_thread ≡ false
        → TaskStep (record { service = s; phase = waiting }) (received_from s s.event_queue)
    acts :
        {e : Signal} {s : Hlcs Q}
        → TaskStep
            (record { service = s; phase = holding e })
            (after_command s (dispatch_command events driver e s))
    stores :
        {l : Lock} {s : Hlcs Q}
        → TaskStep
            (record { service = s; phase = storing l })
            (after s (telling l) (store_state events driver (state_of l) s))
    tells :
        {l : Lock} {s : Hlcs Q}
        → TaskStep
            (record { service = s; phase = telling l })
            (after s waiting (tell_state events driver s))

  pub data Step (x : System Q) : System Q → Type 0 where
    asks :
        (e : Signal)
        → is_request e ≡ true
        → is_running x.phase ≡ true
        → Step x (after x.service x.phase (push_event events driver e x.service))
    works : {y : System Q} → TaskStep x y → Step x y

  -- The states that a new service and its clients come to.
  pub data Reach (start : Hlcs Q) : System Q → Type 0 where
    begin : Reach start (record { service = start; phase = created })
    later : {x y : System Q} → Reach start x → Step x y → Reach start y

  -- A run of the task alone.
  pub data Alone : System Q → System Q → Type 0 where
    done : {x : System Q} → Alone x x
    next : {x y z : System Q} → TaskStep x y → Alone y z → Alone x z
