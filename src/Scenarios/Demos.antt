-- ===== src/Scenarios/Demos.antt =====
-- The theorems on the demo, with its own drivers, a list as the event queue and a number as the
-- semaphore.
use cpputest_for_freertos.Hlcs
use cpputest_for_freertos.Button
use cpputest_for_freertos.Demo
use cpputest_for_freertos.Demo.{Demo, main, user_input_task, waits_for_key}
use cpputest_for_freertos.Service.{ok}
use cpputest_for_freertos.Scenarios.NumberSemaphore.{number_sema}
use cpputest_for_freertos.Hlcs.{Signal, queue_depth}
use cpputest_for_freertos.Service.EventQueue.{EventQueue}
use cpputest_for_freertos.Base.{true, List, [], ℕ, ◌∷◌, ◌≡◌, arith, refl}
use cpputest_for_freertos.Demo.Whole.{Makes, ready, Shows, keys-Shows}
use cpputest_for_freertos.Demo.Spec.{leaves, requests_of}
use cpputest_for_freertos.Scenarios.ListQueue.{list_queue}
use cpputest_for_freertos.Drivers.{demo_driver, demo_reader}
use cpputest_for_freertos.Demo.Typed.{Typed}
use cpputest_for_freertos.Demo.Input.{user_input_task_lem}
use cpputest_for_freertos.Hlcs.System.Launch.{launch-Holds}
use cpputest_for_freertos.Hlcs.Process.{opened}

abbrev events : EventQueue (List Signal) Signal queue_depth
events = list_queue queue_depth

abbrev hlcs_kernel : Hlcs.Kernel
hlcs_kernel = record {
  task_create = true;
  task_handle = true;
  timer_create = true;
  timer_start = true;
}

abbrev button_kernel : Button.Kernel
button_kernel = record { task_create = true; task_handle = true }

makes : Makes events demo_driver hlcs_kernel number_sema demo_reader button_kernel [] 0 true
makes = record {
  queue_made = refl;
  sema_made = refl;
  willing = record { timer_made = refl; timer_begun = refl; task_made = refl };
  task_made = refl;
  input_made = refl;
}

abbrev set_up : Demo (List Signal) ℕ
set_up = ready events demo_driver hlcs_kernel number_sema demo_reader button_kernel [] 0

-- Self test, an interrupt, unlock, a key without meaning.
abbrev keys : List ℕ
keys = 50 ∷ 51 ∷ 48 ∷ 10 ∷ []

keys-Shows_example :
    (d : Demo (List Signal) ℕ) × (main events demo_driver hlcs_kernel number_sema demo_reader
        button_kernel true Demo.statics
      ≡ ok tt set_up)
    × (user_input_task events demo_driver hlcs_kernel number_sema demo_reader button_kernel 5 keys
          set_up
        ≡ ok waits_for_key d)
    × Shows events demo_driver hlcs_kernel number_sema demo_reader button_kernel d opened
unfolding leaves requests_of
keys-Shows_example =
    keys-Shows events demo_driver hlcs_kernel number_sema demo_reader button_kernel 5 keys [] 0 true
      makes (λ log. refl) refl (omega arith) (omega arith)

-- Lock, an interrupt, exit.
abbrev last_keys : List ℕ
last_keys = 49 ∷ 51 ∷ 57 ∷ []

user_input_task_lem_example :
    Typed events demo_driver hlcs_kernel number_sema demo_reader button_kernel 4 last_keys set_up []
      0
unfolding leaves requests_of
user_input_task_lem_example =
    user_input_task_lem events demo_driver hlcs_kernel number_sema demo_reader button_kernel 4
      last_keys set_up [] [] 0 (omega arith)
      (launch-Holds events demo_driver hlcs_kernel true true [] [] refl) refl (omega arith)
