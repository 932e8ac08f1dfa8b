-- ===== src/Button/System.antt =====
-- The button service and the interrupt of the buttons as threads that interleave: an interrupt gives
-- the semaphore while `ButtonService_Task` is before its first round, waits for the semaphore, or has
-- taken it and not read the buttons yet: example/services/buttonService/src/buttonService.c.
pub mod Served
pub mod Launch
pub mod Live
use cpputest_for_freertos.Service.{Outcome, ok, asserted, undefined_behavior}
use cpputest_for_freertos.Service.BinarySemaphore.{BinarySemaphore}
use cpputest_for_freertos.Button.{Button, Reader, Kernel, initialize, taken, isr_callback}
use cpputest_for_freertos.Base.{ℕ, Bool, ◌≡◌, false, true, some, Option, none}

pub data Phase : Type 0 where
  created waiting holds_token : Phase
  stopped : ℕ → Phase
  crashed : Phase

-- `unserved` says whether an interrupt has come after the last read of the buttons began. The code
-- has no such variable.
pub record System (S : Type 0) : Type 0 where
  pub service : Button S
  pub phase : Phase
  pub unserved : Bool

abbrev pub is_running : Phase → Bool
is_running created = true
is_running waiting = true
is_running holds_token = true
is_running (stopped line) = false
is_running crashed = false

module _ {S : Type 0} where
  -- The system after a run over the service `s`, with the task in the given phase if it returns.
  abbrev pub after : {A : Type 0} → Button S → Phase → Bool → Outcome (Button S) A → System S
  after s phase unserved (ok a t) = record { service = t; phase = phase; unserved = unserved }
  after s phase unserved (asserted line t) = record {
    service = t;
    phase = stopped line;
    unserved = unserved;
  }
  after s phase unserved undefined_behavior = record {
    service = s;
    phase = crashed;
    unserved = unserved;
  }

module _ {S : Type 0} (sema : BinarySemaphore S) (reader : Reader) (kernel : Kernel) where
  open sema use {take}

  -- `xSemaphoreTake` with portMAX_DELAY: the task waits on while there is no token.
  abbrev pub took : Button S → Bool → Bool × S → System S
  took s unserved (true, h) = record {
    service = record s { event_sema = some h };
    phase = holds_token;
    unserved = unserved;
  }
  took s unserved (false, h) = record {
    service = record s { event_sema = some h };
    phase = waiting;
    unserved = unserved;
  }

  abbrev pub took_from : Button S → Bool → Option S → System S
  took_from s unserved none = record { service = s; phase = crashed; unserved = unserved }
  took_from s unserved (some h) = took s unserved (take h)

  -- A step of the task, while `s_exitThread` is not set.
  pub data TaskStep : System S → System S → Type 0 where
    begins :
        {s : Button S} {unserved : Bool}
        → TaskStep
            (record { service = s; phase = created; unserved = unserved })
            (after s waiting unserved (initialize s))
    takes :
        {s : Button S} {unserved : Bool}
        → s.exit_thread ≡ false
        → TaskStep
            (record { service = s; phase = waiting; unserved = unserved })
            (took_from s unserved s.event_sema)
    reads :
        {s : Button S} {unserved : Bool}
        → TaskStep
            (record { service = s; phase = holds_token; unserved = unserved })
            (after s waiting false (taken sema reader kernel true s))

  pub data Step (x : System S) : System S → Type 0 where
    interrupts :
        is_running x.phase ≡ true
        → Step x (after x.service x.phase true (isr_callback sema reader kernel x.service))
    works : {y : System S} → TaskStep x y → Step x y

  -- The states that a new service and its interrupts come to.
  pub data Reach (start : Button S) : System S → Type 0 where
    begin : Reach start (record { service = start; phase = created; unserved = false })
    later : {x y : System S} → Reach start x → Step x y → Reach start y

  -- A run of the task alone.
  pub data Alone : System S → System S → Type 0 where
    done : {x : System S} → Alone x x
    next : {x y z : System S} → TaskStep x y → Alone y z → Alone x z
