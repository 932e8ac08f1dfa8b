-- ===== src/Scenarios/Buttons.antt =====
-- The theorems on the button service at concrete states, with a number as the semaphore.
use cpputest_for_freertos.Base.{ℕ, List, some, true, ◌≡◌, false, ◌∷◌, [], refl, none, arith}
use cpputest_for_freertos.Button.{
  Reader, Kernel, Button, emit, statics, button_pressed, Effect, destroy, button_change, init,
  start, reader_register, reader_init, reader_read, button_released, task_created, isr_callback,
  initialize,
}
use cpputest_for_freertos.Button.Events.{isr_times, process, after_event, isrs-one_event}
use cpputest_for_freertos.Service.{ok, ◌>>◌, unit_test}
use cpputest_for_freertos.Button.Emit.{emit-bits_of}
use cpputest_for_freertos.Button.System.{
  System, Reach, holds_token, later, begin, interrupts, works, begins, takes,
}
use cpputest_for_freertos.Button.System.Launch.{launch, launched, launched_lem, launched-Served}
use cpputest_for_freertos.Button.System.Served.{Served}
use cpputest_for_freertos.Button.System.Live.{Serves, launched-Serves}
use cpputest_for_freertos.Drivers.OnFake.{started, events-on_fake}
use cpputest_for_freertos.World.{World}
use cpputest_for_freertos.Semaphore.Binary.{FakeSemaphore, fake_semaphore}
use cpputest_for_freertos.Scenarios.NumberSemaphore.{number_sema}
use cpputest_for_freertos.Button.Lifecycle.{restarts}
use cpputest_for_freertos.Drivers.Alternate.{event}
use cpputest_for_freertos.Scenarios.{macros}

-- A driver whose first read finds the on/off button pressed and the function button released.
abbrev reader : Reader
reader = record { read = λ log. some (2, 8) }

abbrev kernel : Kernel
kernel = record { task_create = true; task_handle = true }

-- A service with a callback and nothing to do.
abbrev idle : Button ℕ
idle = record statics { event_sema = some 0; callback = true; context = 42 }

emit-bits_of_example :
    emit 14 button_pressed idle
    ≡ ok tt (record idle { log = button_change 3 button_pressed 42 ∷ [] })
emit-bits_of_example = emit-bits_of button_pressed idle false true true true 0

isrs-one_event_example :
    (h' : ℕ) × (h'' : ℕ) × (isr_times number_sema reader kernel 3 idle
      ≡ ok tt (record idle { event_sema = some h' }))
    × (process number_sema reader kernel (record idle { event_sema = some h' })
        ≡ ok true (after_event number_sema reader kernel idle h'' 2 8))
    × (process number_sema reader kernel (after_event number_sema reader kernel idle h'' 2 8)
        ≡ ok false (after_event number_sema reader kernel idle h'' 2 8))
isrs-one_event_example = isrs-one_event number_sema reader kernel 2 idle 0 2 8 refl refl

restarts_example :
    (log : List Effect) × (destroy number_sema reader kernel idle
      ≡ ok tt (record statics { log = log }))
    × ((init number_sema reader kernel >> start number_sema reader kernel unit_test)
          (record statics { log = log })
        ≡ ok tt (record statics { event_sema = some 0; log = reader_register ∷ reader_init ∷ log }))
    × (◌≡◌ {A = ℕ} 0 0)
restarts_example = restarts number_sema reader kernel idle 0 refl

-- No object and no list of mutexes.
abbrev nothing : World
nothing = record { heap = []; mutexes = none }

events-on_fake_example :
    let sema = fake_semaphore macros nothing 1 (omega arith) in
    (s : Button FakeSemaphore) × (s' : Button FakeSemaphore) × (s'' : Button FakeSemaphore)
    × (started sema kernel 42 statics ≡ ok tt s)
    × (event sema kernel 0 s ≡ ok true s')
    × (event sema kernel 2 s' ≡ ok true s'')
    × (s''.log
        ≡ button_change 1 button_pressed 42
          ∷ reader_read
          ∷ button_change 1 button_released 42
          ∷ reader_read
          ∷ reader_register
          ∷ reader_init
          ∷ [])
events-on_fake_example = events-on_fake macros kernel nothing 1 (omega arith) 42 0 2

-- The service for normal use, and an interrupt before its task has begun and another while the task
-- holds the token of the first.
abbrev fresh : Button ℕ
fresh = launch number_sema reader kernel 42 0

launched-fresh : launched number_sema reader kernel 42 statics ≡ ok tt fresh
launched-fresh = launched_lem number_sema reader kernel 42 0 refl refl

abbrev interrupted : System ℕ
interrupted = record {
  service = record fresh {
    event_sema = some 1;
    log = reader_register ∷ reader_init ∷ task_created ∷ [];
  };
  phase = holds_token;
  unserved = true;
}

Reach-interrupted : Reach number_sema reader kernel fresh interrupted
unfolding isr_callback initialize
Reach-interrupted =
    later (later (later (later begin (interrupts refl)) (works begins)) (works (takes refl)))
      (interrupts refl)

launched-Served_example : Served number_sema reader kernel interrupted
launched-Served_example =
    launched-Served number_sema reader kernel 42 0 fresh interrupted refl refl launched-fresh
      Reach-interrupted

launched-Serves_example : Serves number_sema reader kernel interrupted
launched-Serves_example =
    launched-Serves number_sema reader kernel 42 0 fresh interrupted refl refl (λ log. refl)
      launched-fresh Reach-interrupted refl refl
