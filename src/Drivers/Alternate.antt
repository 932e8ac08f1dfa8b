-- ===== src/Drivers/Alternate.antt =====
-- The button service on the button reader of the demo:
-- example/services/buttonService/src/buttonService.c and
-- example/drivers/buttonReader/src/buttonReader.c.
use cpputest_for_freertos.Service.{◌>>◌, Outcome, ok}
use cpputest_for_freertos.Service.BinarySemaphore.{BinarySemaphore}
use cpputest_for_freertos.Base.{
  Bool, ℕ, some, ◌≡◌, true, suc, ◌∷◌, Bool-cases, not, false, inl, refl, arith, inr,
}
use cpputest_for_freertos.Button.{
  Kernel, ButtonState, Button, button_pressed, button_released, button_change, reader_read,
}
use cpputest_for_freertos.Drivers.{button_reader_read, replayed, demo_reader}
use cpputest_for_freertos.Button.Events.{isr_times, process, isrs-one_event}

abbrev pub read_state : Bool → ButtonState
read_state true = button_pressed
read_state false = button_released

module _ {S : Type 0} (sema : BinarySemaphore S) (kernel : Kernel) where
  -- One or more interrupts, and the event that they cause.
  abbrev pub event : ℕ → Button S → Outcome (Button S) Bool
  event n s = (isr_times sema demo_reader kernel (suc n) >> process sema demo_reader kernel) s

  -- The service after the reader has told of the on/off button.
  abbrev pub told_once : Button S → S → Button S
  told_once s h = record s {
    event_sema = some h;
    log = button_change 1 (read_state (replayed s.log).toggle) s.context ∷ reader_read ∷ s.log;
  }

  event-told :
      (n : ℕ) (s : Button S) (h : S)
      → s.event_sema ≡ some h
      → s.callback ≡ true
      → (h' : S) × (event n s ≡ ok true (told_once s h'))
  unfolding button_reader_read
  event-told n s h e heard = elim (Bool-cases (replayed s.log).toggle) [
    | inl on ↦
        let (_, h', runs, first, _) =
          isrs-one_event sema demo_reader kernel n s h 2 0 e (ground (arith, on)) in
        (h', ground (arith, runs, first, heard, on))
    | inr off ↦
        let (_, h', runs, first, _) =
          isrs-one_event sema demo_reader kernel n s h 0 2 e (ground (arith, off)) in
        (h', ground (arith, runs, first, heard, off))
  ]

  -- Let a button service with a semaphore and a callback run on the button reader of the demo. One
  -- or more interrupts, an event, one or more interrupts again and an event call the callback
  -- twice, with the flag of the on/off button and the two states in turn, beginning with the one
  -- that the reader comes to next. The semaphore behaves as FreeRTOS documents.
  pub events-alternate :
      (m n : ℕ) (s : Button S) (h : S)
      → s.event_sema ≡ some h
      → s.callback ≡ true
      → let told = read_state (replayed s.log).toggle in
        let then_told = read_state (not (replayed s.log).toggle) in
        (s' : Button S) × (s'' : Button S) × (event m s ≡ ok true s')
        × (event n s' ≡ ok true s'')
        × (s''.log
            ≡ button_change 1 then_told s.context
              ∷ reader_read
              ∷ button_change 1 told s.context
              ∷ reader_read
              ∷ s.log)
  unfolding replayed button_reader_read
  events-alternate m n s h e heard =
      let (h', first) = event-told m s h e heard in
      let (h'', second) = event-told n (told_once s h') h' refl heard in
      (told_once s h', told_once (told_once s h') h'', first, second, refl)
