-- ===== src/Drivers/OnFake.antt =====
-- The button service with the button reader of the demo, on the fake semaphore:
-- example/services/buttonService/src/buttonService.c, example/drivers/buttonReader/src/buttonReader.c
-- and cpputest-for-freertos-lib/src/cpputest_for_freertos_semaphore.cpp.
use cpputest_for_freertos.Button
use cpputest_for_freertos.Button.{
  Button, Kernel, init, start, register_button_change_callback, reader_init, reader_register,
  button_change, reader_read, button_pressed, button_released,
}
use cpputest_for_freertos.Service.{◌>>◌, Outcome, ok, unit_test}
use cpputest_for_freertos.Semaphore.{Macros}
use cpputest_for_freertos.Semaphore.Binary.{
  FakeSemaphore, fake_semaphore, fake_semaphore-create, made,
}
use cpputest_for_freertos.Drivers.Alternate.{event, events-alternate}
use cpputest_for_freertos.Drivers.{
  demo_reader, replayed, button_reader_init, button_reader_register_isr_callback,
}
use cpputest_for_freertos.Service.BinarySemaphore.{BinarySemaphore}
use cpputest_for_freertos.World.{World, Ptr, null}
use cpputest_for_freertos.Base.{ℕ, true, some, ◌≡◌, ◌≢◌, ◌∷◌, arith, [], refl}

module _ {S : Type 0} (sema : BinarySemaphore S) (kernel : Kernel) where
  -- The service that `ButtonService_Init`, the registration and `ButtonService_Start` make.
  unfoldable pub started : (context : ℕ) → Button S → Outcome (Button S) (Unit {0})
  started context = do
    init sema demo_reader kernel
    register_button_change_callback true context
    start sema demo_reader kernel unit_test

  abbrev pub start_state : ℕ → S → Button S
  start_state context h = record Button.statics {
    event_sema = some h;
    callback = true;
    context = context;
    log = reader_register ∷ reader_init ∷ [];
  }

  pub started_lem :
      (context : ℕ) (h : S)
      → sema.create ≡ some h
      → started context Button.statics ≡ ok tt (start_state context h)
  unfolding started init register_button_change_callback start
  started_lem context h e = ground (arith, e)

-- Let the button service have a fake semaphore as its event semaphore, at an address other than
-- nullptr in any world, and the button reader of the demo. From the initial statics
-- ButtonService_Init, the registration of a callback and ButtonService_Start for a unit test
-- return; then one or more interrupts, an event, one or more interrupts again and an event call the
-- callback twice, with the flag of the on/off button and the context, first for released and then
-- for pressed, after one read each. The macros give and count as FreeRTOS documents.
pub events-on_fake :
    (macros : Macros) (kernel : Kernel) (w : World) (fresh : Ptr) (ne : fresh ≢ null)
    (context m n : ℕ)
    → let sema = fake_semaphore macros w fresh ne in
      (s : Button FakeSemaphore) × (s' : Button FakeSemaphore) × (s'' : Button FakeSemaphore)
      × (started sema kernel context Button.statics ≡ ok tt s)
      × (event sema kernel m s ≡ ok true s')
      × (event sema kernel n s' ≡ ok true s'')
      × (s''.log
          ≡ button_change 1 button_pressed context
            ∷ reader_read
            ∷ button_change 1 button_released context
            ∷ reader_read
            ∷ reader_register
            ∷ reader_init
            ∷ [])
unfolding replayed button_reader_init button_reader_register_isr_callback
events-on_fake macros kernel w fresh ne context m n =
    let sema = fake_semaphore macros w fresh ne in
    let h = made macros w fresh ne in
    let (s', s'', first, second, told) =
      events-alternate sema kernel m n (start_state sema kernel context h) h refl refl in
    (
      start_state sema kernel context h,
      s',
      s'',
      started_lem sema kernel context h (fake_semaphore-create macros w fresh ne),
      first,
      second,
      told,
    )
