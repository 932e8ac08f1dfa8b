-- ===== src/Scenarios/Mutexes.antt =====
-- The theorems on mutexes at concrete worlds.
use cpputest_for_freertos.World.{
  World, FakeQueue, ok, mutex, recursive_mutex, lookup, erase, test_failed, fault,
}
use cpputest_for_freertos.Mutex.Depth.{
  Call, IsRecursive, perform_all, perform_all-depth, result, number, taking, giving, counting,
}
use cpputest_for_freertos.Queue.{new_queue, remove, v_queue_delete, pd_true, pd_false}
use cpputest_for_freertos.Base.{◌∷◌, List, All, [], ◌≡◌, some, arith, refl, none}
use cpputest_for_freertos.Scenarios.{macros}
use cpputest_for_freertos.Mutex.{x_queue_create_mutex, mutex_tracking_teardown, is_any_mutex_locked}
use cpputest_for_freertos.Queue.Step.{Holds}
use cpputest_for_freertos.Mutex.Tracking.{IsAlive, mutex_tracking_teardown_lem}
use cpputest_for_freertos.Semaphore.Counter.{IsSemaphore}
use cpputest_for_freertos.Mutex.Create.{
  delete_mutex_lem, SameElsewhere, delete_recursive_dangles, create_mutex-IsSemaphore,
}

-- A locked mutex at the address 1, and a recursive mutex, locked once, at the address 2.
abbrev locked_mutex : FakeQueue
locked_mutex = new_queue 1 0 mutex

abbrev locked_recursive : FakeQueue
locked_recursive = record (new_queue 1 0 recursive_mutex) { recursive_call_count = 1 }

abbrev mutex_world : World
mutex_world = record {
  heap = (1, locked_mutex) ∷ (2, locked_recursive) ∷ [];
  mutexes = some (2 ∷ 1 ∷ []);
}

Holds-mutex : Holds mutex_world 1 locked_mutex
unfolding lookup
Holds-mutex = record { ne_null = omega arith; found = refl }

Holds-recursive : Holds mutex_world 2 locked_recursive
unfolding lookup
Holds-recursive = record { ne_null = omega arith; found = refl }

IsRecursive-recursive : IsRecursive mutex_world 2 locked_recursive 1
IsRecursive-recursive = record {
  holds = Holds-recursive;
  recursive = refl;
  one = refl;
  empty_items = refl;
  alone = refl;
  has = refl;
  counts = refl;
}

abbrev calls : List Call
calls = taking ∷ giving ∷ counting ∷ giving ∷ giving ∷ counting ∷ []

perform_all-depth_example :
    (w' : World) × (perform_all macros 2 calls mutex_world
      ≡ ok
          (result pd_true
            ∷ result pd_true
            ∷ number 0
            ∷ result pd_true
            ∷ result pd_false
            ∷ number 1
            ∷ [])
          w')
perform_all-depth_example = perform_all-depth macros calls IsRecursive-recursive (omega arith)

AreAlive : All (IsAlive mutex_world) (2 ∷ 1 ∷ [])
AreAlive = (
  (locked_recursive, Holds-recursive, omega arith),
  ((locked_mutex, Holds-mutex, omega arith), tt),
)

mutex_tracking_teardown_lem_example :
    mutex_tracking_teardown macros mutex_world ≡ test_failed (record mutex_world { mutexes = none })
unfolding lookup
mutex_tracking_teardown_lem_example =
    mutex_tracking_teardown_lem macros (2 ∷ 1 ∷ []) mutex_world refl AreAlive

delete_mutex_lem_example :
    let w' = record mutex_world { heap = erase 1 mutex_world.heap; mutexes = some (2 ∷ []) } in
    (v_queue_delete 1 mutex_world ≡ ok tt w') × All (IsAlive w') (2 ∷ [])
unfolding remove
delete_mutex_lem_example = delete_mutex_lem Holds-mutex (2 ∷ 1 ∷ []) refl refl AreAlive

delete_recursive_dangles_example :
    (w' : World) × (v_queue_delete 2 mutex_world ≡ ok tt w')
    × (is_any_mutex_locked macros w' ≡ fault)
delete_recursive_dangles_example =
    delete_recursive_dangles Holds-recursive macros (1 ∷ []) refl refl

create_mutex-IsSemaphore_example :
    (w' : World) × (q : FakeQueue) × (x_queue_create_mutex macros 3 mutex mutex_world ≡ ok 3 w')
    × IsSemaphore w' 3 q 1 1
    × (w'.mutexes ≡ some (2 ∷ 1 ∷ 3 ∷ []))
    × SameElsewhere 3 mutex_world w'
create_mutex-IsSemaphore_example = create_mutex-IsSemaphore macros 3 mutex_world (omega arith)
