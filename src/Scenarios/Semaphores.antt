-- ===== src/Scenarios/Semaphores.antt =====
-- The theorems on semaphores at concrete worlds.
use cpputest_for_freertos.World.{World, FakeQueue, base, ok, lookup, fault}
use cpputest_for_freertos.Semaphore.Counter.{
  Call, IsSemaphore, perform_all, perform_all-counter, Gives, result, number, give, give_from_isr,
  taking, count,
}
use cpputest_for_freertos.Queue.{new_queue, pd_true, err_queue_full}
use cpputest_for_freertos.Base.{◌∷◌, arith, List, [], none, ◌≡◌, ℕ, refl}
use cpputest_for_freertos.Scenarios.{macros}
use cpputest_for_freertos.Semaphore.{x_queue_semaphore_take, x_queue_create_counting_semaphore}
use cpputest_for_freertos.Queue.Step.{Holds}
use cpputest_for_freertos.Semaphore.Create.{x_queue_create_counting_semaphore-Gives}
use cpputest_for_freertos.Semaphore.Dummy.{semaphore_take_lem}

-- A counting semaphore with one of two tokens at the address 1.
abbrev semaphore : FakeQueue
semaphore = record (new_queue 2 0 base) { queue = [] ∷ [] }

abbrev semaphore_world : World
semaphore_world = record { heap = (1, semaphore) ∷ []; mutexes = none }

Holds-semaphore : Holds semaphore_world 1 semaphore
unfolding lookup
Holds-semaphore = record { ne_null = omega arith; found = refl }

IsSemaphore-semaphore : IsSemaphore semaphore_world 1 semaphore 2 1
IsSemaphore-semaphore = record {
  holds = Holds-semaphore;
  limited = refl;
  empty_items = refl;
  plain = refl;
  alone = refl;
  has = refl;
  within = omega arith;
  small = omega arith;
}

abbrev calls : List Call
calls = give ∷ give_from_isr ∷ taking ∷ count ∷ []

perform_all-counter_example :
    (w' : World) × (perform_all macros 1 calls semaphore_world
      ≡ ok (result pd_true ∷ result err_queue_full ∷ result pd_true ∷ number 1 ∷ []) w')
perform_all-counter_example = perform_all-counter macros calls IsSemaphore-semaphore

abbrev no_objects : World
no_objects = record { heap = []; mutexes = none }

x_queue_create_counting_semaphore-Gives_example :
    Gives 1 3 (x_queue_create_counting_semaphore macros 1 3 7 no_objects) 1 3
x_queue_create_counting_semaphore-Gives_example =
    x_queue_create_counting_semaphore-Gives macros 1 3 7 no_objects (omega arith)

-- A queue with an item of nine bytes.
abbrev nine_bytes : List ℕ
nine_bytes = 1 ∷ 2 ∷ 3 ∷ 4 ∷ 5 ∷ 6 ∷ 7 ∷ 8 ∷ 9 ∷ []

abbrev large : FakeQueue
large = record (new_queue 1 9 base) { queue = nine_bytes ∷ [] }

abbrev large_world : World
large_world = record { heap = (1, large) ∷ []; mutexes = none }

Holds-large : Holds large_world 1 large
unfolding lookup
Holds-large = record { ne_null = omega arith; found = refl }

semaphore_take_lem_example : x_queue_semaphore_take 1 large_world ≡ fault
semaphore_take_lem_example = semaphore_take_lem nine_bytes [] Holds-large refl refl refl
