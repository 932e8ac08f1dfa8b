-- ===== src/Scenarios.antt =====
-- Concrete instances of what the theorems take as parameters, and the theorems at concrete inputs.
pub mod ListQueue
pub mod NumberSemaphore
pub mod Queues
pub mod Semaphores
pub mod Mutexes
pub mod Services
pub mod Systems
pub mod Demos
pub mod Buttons
pub mod Clocks
pub mod Configs
pub mod Asserts
pub mod Tests
use cpputest_for_freertos.Semaphore.{Macros}
use cpputest_for_freertos.Queue.{
  x_queue_generic_send, send_to_back, ux_queue_messages_waiting, x_queue_generic_create,
}
use cpputest_for_freertos.Base.{none, refl}
use cpputest_for_freertos.World.{base}

-- The macros of semphr.h and queue.h as FreeRTOS documents them.
abbrev pub macros : Macros
macros = record {
  x_semaphore_give = λ p. x_queue_generic_send p none send_to_back;
  ux_semaphore_get_count = ux_queue_messages_waiting;
  x_queue_create = λ fresh n size. x_queue_generic_create fresh n size base;
  give_calls = λ p w. refl;
  count_calls = λ p w. refl;
  create_calls = λ fresh n size w. refl;
}
