-- ===== src/Library/Lifecycle.antt =====
-- What a test finds and what it leaves:
-- cpputest-for-freertos-lib/include/cpputest_for_freertos_lib.hpp.
use cpputest_for_freertos.World.{◌>>=◌, Ptr}
use cpputest_for_freertos.Clock.{FakeTimers, TickMacros}
use cpputest_for_freertos.Base.{
  ℕ, ◌≡◌, List, some, none, All, true, [], if◌then◌else◌, false, arith, refl,
}
use cpputest_for_freertos.Semaphore.{Macros}
use cpputest_for_freertos.Library.{
  State, lib_init_all, lib_teardown_all, test_failed, returned, asserted,
}
use cpputest_for_freertos.Clock.Tasks.{task_init, task_destroy}
use cpputest_for_freertos.Clock.Timers.{timers_destroy, timers_init}
use cpputest_for_freertos.Mutex.Tracking.{some_locked, IsAlive, mutex_tracking_teardown_lem}
use cpputest_for_freertos.Mutex.{mutex_tracking_init, set_mutexes}

module _ {T : Type 0} (fake : FakeTimers T) (ticks : TickMacros) (an_object : ℕ)
    (macros : Macros) where
  open fake use {construct}

  -- No test runs, and nothing of the last one is left.
  pub record IsIdle (s : State T) : Type 0 where
    pub no_timers : s.clock.fake_timers ≡ none
    pub no_mutexes : s.world.mutexes ≡ none

  -- A test runs that has the live mutexes `ms`.
  pub record IsRunning (s : State T) (ms : List Ptr) : Type 0 where
    pub timers : T
    pub timing : s.clock.fake_timers ≡ some timers
    pub tracking : s.world.mutexes ≡ some ms
    pub alive : All (IsAlive s.world) ms

  abbrev pub begun : State T → State T
  begun s = record s {
    clock = record { tick_count = 0; fake_timers = some (construct 1) };
    print_assert = true;
    world = record s.world { mutexes = some [] };
  }

  -- From a state with no timers and no list of mutexes LibInitAll returns, with the tick count at
  -- 0, new timers, an empty list of mutexes, and assertions printed.
  pub init-IsRunning :
      (s : State T)
      → IsIdle s
      → (lib_init_all fake ticks an_object macros s ≡ returned tt (begun s))
        × IsRunning (begun s) []
  unfolding lib_init_all task_init timers_init mutex_tracking_init set_mutexes ◌>>=◌
  init-IsRunning s v = (
    ground (arith, v.no_timers, v.no_mutexes),
    record { timers = construct 1; timing = refl; tracking = refl; alive = tt },
  )

  abbrev pub ended : State T → State T
  ended s = record s {
    clock = record { tick_count = 0; fake_timers = none };
    world = record s.world { mutexes = none };
  }

  abbrev pub failed : State T → State T
  failed s = record s { world = record s.world { mutexes = none } }

  pub teardown_lem :
      (s : State T) (ms : List Ptr)
      → IsRunning s ms
      → lib_teardown_all fake ticks an_object macros s
        ≡ (if some_locked ms s.world.heap then test_failed (failed s) else returned tt (ended s))
  unfolding lib_teardown_all timers_destroy task_destroy
  teardown_lem s ms v =
      ground (arith, v.timing, mutex_tracking_teardown_lem macros ms s.world v.tracking v.alive)

  -- Let a test run with active timers and a list of live mutexes, one of which is locked. Then
  -- LibTeardownAll fails the test and leaves a state in which LibInitAll fails the assertion on
  -- line 37. The macro counts as FreeRTOS documents.
  pub init-after_failed :
      (s : State T) (ms : List Ptr)
      → IsRunning s ms
      → some_locked ms s.world.heap ≡ true
      → (s' : State T) × (s'' : State T) × (lib_teardown_all fake ticks an_object macros s
          ≡ test_failed s')
        × (lib_init_all fake ticks an_object macros s' ≡ asserted 37 s'')
  unfolding lib_init_all task_init timers_init
  init-after_failed s ms v locked = (
    failed s,
    record (failed s) { clock = record s.clock { tick_count = 0 }; print_assert = true },
    ground (arith, teardown_lem s ms v, locked),
    ground (arith, v.timing),
  )

  -- Let a test run with active timers and a list of live mutexes, none of which is locked. Then
  -- LibTeardownAll returns, and LibInitAll after it returns and makes a test that runs with no
  -- mutex. The macro counts as FreeRTOS documents.
  pub init-after_teardown :
      (s : State T) (ms : List Ptr)
      → IsRunning s ms
      → some_locked ms s.world.heap ≡ false
      → (s' : State T) × (lib_teardown_all fake ticks an_object macros s ≡ returned tt s')
        × (lib_init_all fake ticks an_object macros s' ≡ returned tt (begun s'))
        × IsRunning (begun s') []
  init-after_teardown s ms v free =
      let again = init-IsRunning (ended s) (record { no_timers = refl; no_mutexes = refl }) in
      (ended s, ground (arith, teardown_lem s ms v, free), again.0, again.1)
