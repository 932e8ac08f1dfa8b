-- ===== src/Button/Events.antt =====
-- Interrupts and the events that they cause: example/services/buttonService/src/buttonService.c.
use cpputest_for_freertos.Service.{◌>>◌, Outcome, ok, pure, asserted, unit_test}
use cpputest_for_freertos.Service.BinarySemaphore.{BinarySemaphore}
use cpputest_for_freertos.Base.{
  Bool, ℕ, List, some, ◌≡◌, suc, arith, true, false, none, zero, if◌then◌else◌, refl, ◌&&◌, ◌∷◌,
  ◌||◌,
}
use cpputest_for_freertos.Button.{
  Reader, Kernel, ButtonState, Action, Button, simulate_isr, process_one_event, isr_callback,
  Effect, button_released, button_pressed, reader_read, has_on_off_bit, has_func_a_bit,
  button_change, flags_of,
}

-- What the service tells of changed buttons: nothing where no bit has a meaning or no callback is
-- registered.
abbrev pub told : Bool → ℕ → ButtonState → ℕ → List Effect → List Effect
told callback context state bits log =
    if callback && (has_on_off_bit bits || has_func_a_bit bits)
    then button_change (flags_of bits) state context ∷ log
    else log

module _ {S : Type 0} (sema : BinarySemaphore S) (reader : Reader) (kernel : Kernel) where
  open sema use {get_count, take, give_from_isr, give_from_isr_one, take_one}

  unfoldable pub isr_times : ℕ → Action S (Unit {0})
  isr_times zero = pure tt
  isr_times (suc n) = simulate_isr sema reader kernel >> isr_times n

  abbrev pub process : Button S → Outcome (Button S) Bool
  process = process_one_event sema reader kernel unit_test

  isr_times-one :
      (n : ℕ) (s : Button S) (h : S)
      → s.event_sema ≡ some h
      → (h' : S) × (isr_times (suc n) s ≡ ok tt (record s { event_sema = some h' }))
        × (get_count h' ≡ 1)
  unfolding isr_times simulate_isr isr_callback
  isr_times-one zero s h e = ((give_from_isr h).1, ground (arith, e), give_from_isr_one h)
  isr_times-one (suc n) s h e =
      let s' = record s { event_sema = some (give_from_isr h).1 } in
      let (h', e', one) = isr_times-one n s' (give_from_isr h).1 refl in (h', rw e e', one)

  -- The service after an event.
  abbrev pub after_event : Button S → S → ℕ → ℕ → Button S
  after_event s h pressed released = record s {
    event_sema = some h;
    log =
        told s.callback s.context button_released released
          (told s.callback s.context button_pressed pressed (reader_read ∷ s.log));
  }

  process-event :
      (s : Button S) (h : S) (pressed released : ℕ)
      → s.event_sema ≡ some h
      → get_count h ≡ 1
      → reader.read s.log ≡ some (pressed, released)
      → process s ≡ ok true (after_event s (take h).1 pressed released)
  unfolding process_one_event
  process-event s h pressed released e one r = ground (arith, e, one, r, take_one h one)

  process-no_event :
      (s : Button S) (h : S) → s.event_sema ≡ some h → get_count h ≡ 0 → process s ≡ ok false s
  unfolding process_one_event
  process-no_event s h e none_waits = ground (arith, e, none_waits)

  -- One or more interrupts on a button service that has its semaphore cause one event: if the
  -- driver can read the buttons, the next ButtonService_ProcessOneEvent returns true, having read
  -- once and called the callback first for the pressed and then for the released bits, each where a
  -- callback is registered and a bit has a flag; the one after returns false and changes nothing.
  -- The semaphore behaves as FreeRTOS documents.
  pub isrs-one_event :
      (n : ℕ) (s : Button S) (h : S) (pressed released : ℕ)
      → s.event_sema ≡ some h
      → reader.read s.log ≡ some (pressed, released)
      → (h' : S) × (h'' : S) × (isr_times (suc n) s ≡ ok tt (record s { event_sema = some h' }))
        × (process (record s { event_sema = some h' })
            ≡ ok true (after_event s h'' pressed released))
        × (process (after_event s h'' pressed released)
            ≡ ok false (after_event s h'' pressed released))
  isrs-one_event n s h pressed released e r =
      let (h', e', one) = isr_times-one n s h e in
      (
        h',
        (take h').1,
        e',
        process-event (record s { event_sema = some h' }) h' pressed released refl one r,
        process-no_event (after_event s (take h').1 pressed released) (take h').1 refl
            (take_one h' one).1,
      )

  -- One or more interrupts on a button service that has its semaphore, whose driver cannot read the
  -- buttons, make the next ButtonService_ProcessOneEvent fail the assertion on line 115. The
  -- semaphore behaves as FreeRTOS documents.
  pub isrs-read_fails :
      (n : ℕ) (s : Button S) (h : S)
      → s.event_sema ≡ some h
      → reader.read s.log ≡ none
      → (h' : S) × (s'' : Button S) × (isr_times (suc n) s
          ≡ ok tt (record s { event_sema = some h' }))
        × (process (record s { event_sema = some h' }) ≡ asserted 115 s'')
  unfolding process_one_event
  isrs-read_fails n s h e r =
      let (h', e', one) = isr_times-one n s h e in
      (
        h',
        record s { event_sema = some (take h').1; log = reader_read ∷ s.log },
        e',
        ground (arith, one, r, take_one h' one),
      )
