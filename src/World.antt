-- ===== src/World.antt =====
-- The memory that the fakes of cpputest-for-freertos-lib/src share, and the runs of their code:
-- `struct QueueDefinition` of cpputest-for-freertos-lib/src/cpputest_for_freertos_fake_queue.hpp,
-- the `FakeQueue` objects that `new` has made, the list `s_mutexes` of
-- cpputest-for-freertos-lib/src/cpputest_for_freertos_mutex.cpp, and `configASSERT` of
-- cpputest-for-freertos-lib/port/include/FreeRTOSConfig.h.
pub mod Heap
pub mod Ensures
use cpputest_for_freertos.Base.{
  ℕ, suc, ◌+◌, ◌-◌, ◌%◌, ◌≡◌, Bool, true, false, Option, none, some, List, [], ◌∷◌, ◌==◌,
  if◌then◌else◌, length,
}

-- An address; `nullptr` is 0.
abbrev pub Ptr : Type 0
Ptr = ℕ

abbrev pub null : Ptr
null = 0

-- Bytes of memory.
abbrev pub Message : Type 0
Message = List ℕ

-- The values of `queueType` that the code tells apart.
pub data QueueType : Type 0 where
  base set mutex recursive_mutex other_type : QueueType

-- `UBaseType_t` is an unsigned char in this port, and `recursiveCallCount` a uint64_t.
abbrev pub u8 : ℕ → ℕ
u8 n = n % 256

abbrev pub u64 : ℕ → ℕ
u64 n = n % 18446744073709551616

pub record FakeQueue : Type 0 where
  pub queue_length : ℕ
  pub item_size : ℕ
  pub queue_type : QueueType
  pub queue : List Message
  pub recursive_call_count : ℕ
  pub registry_name : Ptr
  pub queue_set_container : Ptr

abbrev pub Heap : Type 0
Heap = List (Ptr × FakeQueue)

pub record World : Type 0 where
  pub heap : Heap
  pub mutexes : Option (List Ptr)

-- How a call ends: it returns; the `configASSERT` on a line of the source failed, which leaves
-- the test; FAIL_TEST was reached; or the behaviour is undefined (a dangling pointer, an access
-- out of bounds). The last value is that of a model whose fuel is used up.
pub data Outcome (A : Type 0) : Type 0 where
  ok : A → World → Outcome A
  asserted : ℕ → World → Outcome A
  test_failed : World → Outcome A
  fault : Outcome A
  out_of_fuel : Outcome A

abbrev pub M : Type 0 → Type 0
M A = World → Outcome A

abbrev pub pure : {A : Type 0} → A → M A
pure = ok

module _ {A B : Type 0} where
  infixl 5 ◌>>=◌ ◌>>◌
  unfoldable pub ◌>>=◌ : M A → (A → M B) → M B
  ◌>>=◌ m k w = elim (m w) [
    | ok a w' ↦ k a w'
    | asserted line w' ↦ asserted line w'
    | test_failed w' ↦ test_failed w'
    | fault ↦ fault
    | out_of_fuel ↦ out_of_fuel
  ]

  abbrev pub ◌>>◌ : M A → M B → M B
  m >> n = m >>= λ _. n

-- `configASSERT( x )` on the given line.
abbrev pub config_assert : ℕ → Bool → M (Unit {0})
config_assert line true w = ok tt w
config_assert line false w = asserted line w

abbrev pub undefined : {A : Type 0} → M A
undefined w = fault

-- The objects by address. A new object, or a new value of an object, takes the place of the old.
unfoldable pub lookup : Ptr → Heap → Option FakeQueue
lookup p [] = none
lookup p ((k, q) ∷ h) = if k == p then some q else lookup p h

unfoldable pub insert : Ptr → FakeQueue → Heap → Heap
insert p q [] = (p, q) ∷ []
insert p q ((k, r) ∷ h) = if k == p then (p, q) ∷ h else (k, r) ∷ insert p q h

unfoldable pub erase : Ptr → Heap → Heap
erase p [] = []
erase p ((k, r) ∷ h) = let rest = erase p h in if k == p then rest else (k, r) ∷ rest

-- Reading, writing and deleting an object: undefined where none lives.
abbrev pub or_fault : Option FakeQueue → M FakeQueue
or_fault none w = fault
or_fault (some q) w = ok q w

unfoldable pub deref : Ptr → M FakeQueue
deref p w = or_fault (lookup p w.heap) w

unfoldable pub store : Ptr → FakeQueue → M (Unit {0})
store p q w = ok tt (record w { heap = insert p q w.heap })

unfoldable pub delete : Ptr → M (Unit {0})
unfolding deref
delete p = deref p >>= λ _ w. ok tt (record w { heap = erase p w.heap })

-- How many messages the queues of a heap can still take.
unfoldable pub spaces : FakeQueue → ℕ
spaces q = q.queue_length - length q.queue

unfoldable pub total_spaces : Heap → ℕ
unfolding spaces
total_spaces [] = 0
total_spaces ((k, q) ∷ h) = spaces q + total_spaces h
