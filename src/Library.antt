-- ===== src/Library.antt =====
-- The setup and the teardown of a test:
-- cpputest-for-freertos-lib/include/cpputest_for_freertos_lib.hpp, with the printing of assertions
-- of cpputest-for-freertos-lib/src/cpputest_for_freertos_assert.cpp and the owner of a handle of
-- cpputest-for-freertos-lib/include/cpputest_for_freertos_memory.hpp.
pub mod Calls
pub mod Lifecycle
use cpputest_for_freertos.Service.{Outcome as Result, Run}
use cpputest_for_freertos.World.{Outcome, pure, World, M, Ptr}
use cpputest_for_freertos.Clock.{Clock, FakeTimers, TickMacros}
use cpputest_for_freertos.Base.{ℕ, true, false, Bool, if◌then◌else◌, not}
use cpputest_for_freertos.Semaphore.{Macros}
use cpputest_for_freertos.Clock.Tasks.{task_init, task_destroy}
use cpputest_for_freertos.Mutex.{mutex_tracking_teardown, mutex_tracking_init}
use cpputest_for_freertos.Queue.{is_null, v_queue_delete}
use cpputest_for_freertos.Clock.Timers.{timers_init, timers_destroy}

-- What the fakes keep between two calls.
pub record State (T : Type 0) : Type 0 where
  pub world : World
  pub clock : Clock T
  pub print_assert : Bool

-- How a call ends. `undefined` and `out_of_fuel` come from the calls of World.
pub data Ending (T A : Type 0) : Type 0 where
  returned : A → State T → Ending T A
  asserted : ℕ → State T → Ending T A
  test_failed : State T → Ending T A
  undefined : Ending T A
  out_of_fuel : Ending T A

abbrev pub Test : Type 0 → Type 0 → Type 0
Test T A = State T → Ending T A

module _ {T A : Type 0} where
  -- A call of the queues, semaphores and mutexes.
  abbrev pub on_world : M A → Test T A
  on_world m s = elim (m s.world) [
    | Outcome.ok a w ↦ returned a (record s { world = w })
    | Outcome.asserted line w ↦ asserted line (record s { world = w })
    | Outcome.test_failed w ↦ test_failed (record s { world = w })
    | Outcome.fault ↦ undefined
    | Outcome.out_of_fuel ↦ out_of_fuel
  ]

  -- A call of the tasks and timers.
  abbrev pub on_clock : Run (Clock T) A → Test T A
  on_clock m s = elim (m s.clock) [
    | Result.ok a c ↦ returned a (record s { clock = c })
    | Result.asserted line c ↦ asserted line (record s { clock = c })
    | Result.undefined_behavior ↦ undefined
  ]

module _ {T A B : Type 0} where
  infixl 5 ◌>>◌
  abbrev pub ◌>>◌ : Test T A → Test T B → Test T B
  ◌>>◌ m n s = elim (m s) [
    | returned a t ↦ n t
    | asserted line t ↦ asserted line t
    | test_failed t ↦ test_failed t
    | undefined ↦ undefined
    | out_of_fuel ↦ out_of_fuel
  ]

module _ {T : Type 0} where
  unfoldable pub assert_output_enable : Test T (Unit {0})
  assert_output_enable s = returned tt (record s { print_assert = true })

  unfoldable pub assert_output_disable : Test T (Unit {0})
  assert_output_disable s = returned tt (record s { print_assert = false })

module _ {T : Type 0} (fake : FakeTimers T) (ticks : TickMacros) (an_object : ℕ)
    (macros : Macros) where
  unfoldable pub lib_init_all : Test T (Unit {0})
  unfolding assert_output_enable
  lib_init_all =
      on_clock (task_init fake ticks an_object)
      >> assert_output_enable
      >> on_clock (timers_init fake ticks an_object)
      >> on_world mutex_tracking_init

  unfoldable pub lib_teardown_all : Test T (Unit {0})
  lib_teardown_all =
      on_world (mutex_tracking_teardown macros)
      >> on_clock (timers_destroy fake ticks an_object)
      >> on_clock (task_destroy fake ticks an_object)

-- `FreeRTOSQueueDeleter`, by which `unique_queue` and `unique_sema` give up a handle.
unfoldable pub queue_deleter : Ptr → M (Unit {0})
queue_deleter handle = if not (is_null handle) then v_queue_delete handle else pure tt
