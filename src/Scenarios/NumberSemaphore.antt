-- ===== src/Scenarios/NumberSemaphore.antt =====
-- The number of tokens as a binary semaphore: an instance of the interface of
-- Service/BinarySemaphore.
use cpputest_for_freertos.Service.BinarySemaphore.{BinarySemaphore}
use cpputest_for_freertos.Base.{
  ℕ, some, true, ◌==◌, ◌≡◌, if◌then◌else◌, false, ◌-◌, arith, refl, Bool,
}

abbrev pub take_one_of : ℕ → Bool × ℕ
take_one_of n = if n == 0 then (false, 0) else (true, n - 1)

pub empty-count : (n : ℕ) → some 0 ≡ some n → n ≡ 0
empty-count n e = ground (arith, e)

pub take-none : (n : ℕ) → n ≡ 0 → ((take_one_of n).0 ≡ false) × ((take_one_of n).1 ≡ 0)
take-none n e = ground (arith, e)

pub take-one : (n : ℕ) → n ≡ 1 → ((take_one_of n).0 ≡ true) × ((take_one_of n).1 ≡ 0)
take-one n e = ground (arith, e)

abbrev pub number_sema : BinarySemaphore ℕ
number_sema = record {
  create = some 0;
  give = λ n. (n == 0, 1);
  give_from_isr = λ n. (n == 0, 1);
  take = take_one_of;
  get_count = λ n. n;
  create_empty = empty-count;
  give_one = λ s. refl;
  give_from_isr_one = λ s. refl;
  take_none = take-none;
  take_one = take-one;
}
