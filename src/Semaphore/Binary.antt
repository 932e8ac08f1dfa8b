-- ===== src/Semaphore/Binary.antt =====
-- The fake semaphore of cpputest-for-freertos-lib/src/cpputest_for_freertos_semaphore.cpp as an
-- instance of the interface of Service/BinarySemaphore.
--
-- A value of the instance is a world with a semaphore in it. Each operation makes the call on that
-- world, and goes on in the world that the call leaves.
use cpputest_for_freertos.Queue.{pd_true}
use cpputest_for_freertos.World.{World, FakeQueue, Ptr, ok, other_type, null}
use cpputest_for_freertos.Service.BinarySemaphore.{BinarySemaphore}
use cpputest_for_freertos.Semaphore.Counter.{
  Call, Answer, give, give_from_isr, taking, count, result, number, counter, IsSemaphore, perform,
  perform-counter, given,
}
use cpputest_for_freertos.Base.{
  ℕ, Bool, true, ◌≡◌, ◌≤◌, Option, ◌≢◌, false, arith, ap, some, subst, none, refl,
}
use cpputest_for_freertos.Semaphore.{Macros}
use cpputest_for_freertos.Queue.Step.{stored}
use cpputest_for_freertos.Queue.{new_queue}
use cpputest_for_freertos.World.Heap.{lookup-insert_self}

pub record FakeSemaphore : Type 0 where
  pub world : World
  pub handle : Ptr
  pub value : FakeQueue
  pub tokens : ℕ
  pub models : IsSemaphore world handle value 1 tokens

abbrev pub succeeded : Answer → Bool
succeeded (result pd_true) = true
succeeded _ = false

abbrev pub number_of : Answer → ℕ
number_of (number n) = n
number_of _ = 0

abbrev pub answer : Call → FakeSemaphore → Answer
answer c s = (counter 1 s.tokens c).0

module _ (macros : Macros) where
  -- After a call.
  abbrev pub after : Call → FakeSemaphore → FakeSemaphore
  after c s =
      let run = perform-counter macros c s.models in
      record {
        world = run.0;
        handle = s.handle;
        value = run.1;
        tokens = (counter 1 s.tokens c).1;
        models = run.3;
      }

  -- The call on the world of `s` returns the answer, and leaves the world of `after`.
  pub perform-after :
      (c : Call) (s : FakeSemaphore)
      → perform macros s.handle c s.world ≡ ok (answer c s) (after c s).world
  perform-after c s = (perform-counter macros c s.models).2

  called : Call → FakeSemaphore → Bool × FakeSemaphore
  called c s = (succeeded (answer c s), after c s)

  get_count : FakeSemaphore → ℕ
  get_count s = number_of (answer count s)

  given-one : (n : ℕ) → n ≤ 1 → (given 1 n).1 ≡ 1
  given-one n le = ground (arith, le)

  give-one : (s : FakeSemaphore) → get_count (called give s).1 ≡ 1
  unfolding called get_count
  give-one s = given-one s.tokens s.models.within

  give_from_isr-one : (s : FakeSemaphore) → get_count (called give_from_isr s).1 ≡ 1
  unfolding called get_count
  give_from_isr-one s = given-one s.tokens s.models.within

  take-none :
      (s : FakeSemaphore)
      → get_count s ≡ 0
      → ((called taking s).0 ≡ false) × (get_count (called taking s).1 ≡ 0)
  unfolding called get_count
  take-none s e = (ap (λ n. succeeded (counter 1 n taking).0) e, ap (λ n. (counter 1 n taking).1) e)

  take-one :
      (s : FakeSemaphore)
      → get_count s ≡ 1
      → ((called taking s).0 ≡ true) × (get_count (called taking s).1 ≡ 0)
  unfolding called get_count
  take-one s e = (ap (λ n. succeeded (counter 1 n taking).0) e, ap (λ n. (counter 1 n taking).1) e)

  abbrev IsFresh : Option FakeSemaphore → Type 0
  IsFresh none = Unit
  IsFresh (some s) = get_count s ≡ 0

  module _ (w : World) (fresh : Ptr) (ne : fresh ≢ null) where
    -- The semaphore that `xSemaphoreCreateBinary` makes, as a queue of one empty message.
    pub made : FakeSemaphore
    made = record {
      world = stored w fresh (new_queue 1 0 other_type);
      handle = fresh;
      value = new_queue 1 0 other_type;
      tokens = 0;
      models = record {
        holds = record { ne_null = ne; found = lookup-insert_self fresh _ w.heap };
        limited = refl;
        empty_items = refl;
        plain = refl;
        alone = refl;
        has = refl;
        within = omega arith;
        small = omega arith;
      };
    }

    made-empty : (s : FakeSemaphore) → some made ≡ some s → get_count s ≡ 0
    unfolding made get_count
    made-empty s e = subst IsFresh e refl

    pub fake_semaphore : BinarySemaphore FakeSemaphore
    fake_semaphore = record {
      create = some made;
      give = called give;
      give_from_isr = called give_from_isr;
      take = called taking;
      get_count = get_count;
      create_empty = made-empty;
      give_one = give-one;
      give_from_isr_one = give_from_isr-one;
      take_none = take-none;
      take_one = take-one;
    }

    pub fake_semaphore-create : BinarySemaphore.create fake_semaphore ≡ some made
    unfolding fake_semaphore
    fake_semaphore-create = refl
