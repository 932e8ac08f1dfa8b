-- ===== src/Scenarios/Tests.antt =====
-- The theorems on the setup of a test, and on sequences of calls, at concrete states.
use cpputest_for_freertos.World.{World, FakeQueue, lookup, mutex, recursive_mutex}
use cpputest_for_freertos.Scenarios.Clocks.{fake, ticks, OneTimer, timing, new_timer}
use cpputest_for_freertos.Base.{
  [], List, none, ◌∷◌, length, false, ◌≡◌, some, ◌<◌, true, All, arith, refl,
}
use cpputest_for_freertos.Library.{
  State, lib_init_all, lib_teardown_all, returned, test_failed, asserted,
}
use cpputest_for_freertos.World.Ensures.{Keeps, Any}
use cpputest_for_freertos.Scenarios.{macros}
use cpputest_for_freertos.Queue.{new_queue}
use cpputest_for_freertos.Library.Calls.{delete, Call}
use cpputest_for_freertos.Queue.Inv.{IsWf}
use cpputest_for_freertos.Library.Calls.{
  tracking_init, create_mutex, perform_calls, Keeps-perform_calls, take_recursive, create_set,
  add_to_set, tracking_teardown,
}
use cpputest_for_freertos.Library.Lifecycle.{
  IsRunning, begun, init-after_failed, init-after_teardown,
}
use cpputest_for_freertos.Mutex.Tracking.{IsAlive}

-- No object and no list of mutexes.
abbrev nothing : World
nothing = record { heap = []; mutexes = none }

abbrev idle : State OneTimer
idle = record {
  world = nothing;
  clock = record { tick_count = 5; fake_timers = none };
  print_assert = false;
}

-- A test that has locked a mutex, and one that has not.
abbrev locked_mutex : FakeQueue
locked_mutex = new_queue 1 0 mutex

abbrev free_mutex : FakeQueue
free_mutex = record (new_queue 1 0 mutex) { queue = [] ∷ [] }

abbrev running_with : FakeQueue → State OneTimer
running_with q = record {
  world = record { heap = (1, q) ∷ []; mutexes = some (1 ∷ []) };
  clock = timing;
  print_assert = true;
}

AreAlive-with :
    (q : FakeQueue) → length q.queue < 256 → All (IsAlive (running_with q).world) (1 ∷ [])
unfolding lookup
AreAlive-with q small = ((q, record { ne_null = omega arith; found = refl }, small), tt)

IsRunning-with :
    (q : FakeQueue)
    → length q.queue < 256
    → IsRunning fake ticks 100 macros (running_with q) (1 ∷ [])
IsRunning-with q small = record {
  timers = new_timer;
  timing = refl;
  tracking = refl;
  alive = AreAlive-with q small;
}

init-after_failed_example :
    (s' : State OneTimer) × (s'' : State OneTimer) × (lib_teardown_all fake ticks 100 macros
        (running_with locked_mutex)
      ≡ test_failed s')
    × (lib_init_all fake ticks 100 macros s' ≡ asserted 37 s'')
unfolding lookup
init-after_failed_example =
    init-after_failed fake ticks 100 macros (running_with locked_mutex) (1 ∷ [])
      (IsRunning-with locked_mutex (omega arith)) refl

init-after_teardown_example :
    (s' : State OneTimer) × (lib_teardown_all fake ticks 100 macros (running_with free_mutex)
      ≡ returned tt s')
    × (lib_init_all fake ticks 100 macros s' ≡ returned tt (begun fake ticks 100 macros s'))
    × IsRunning fake ticks 100 macros (begun fake ticks 100 macros s') []
unfolding lookup
init-after_teardown_example =
    init-after_teardown fake ticks 100 macros (running_with free_mutex) (1 ∷ [])
      (IsRunning-with free_mutex (omega arith)) refl

abbrev some_calls : List Call
some_calls =
    tracking_init
    ∷ create_mutex 1 recursive_mutex (omega arith)
    ∷ take_recursive 1
    ∷ create_set 2 4 (omega arith)
    ∷ add_to_set 1 2
    ∷ delete 1
    ∷ tracking_teardown
    ∷ []

Keeps-perform_calls_example : Keeps IsWf Any (perform_calls macros some_calls)
Keeps-perform_calls_example = Keeps-perform_calls macros some_calls
