-- ===== src/Scenarios/Asserts.antt =====
-- The theorems on failed assertions, with the number of expectations as the state of the mocks.
use cpputest_for_freertos.Assert.{Mock, Asserts, Place, AssertEnd, checked, test_exits, passes}
use cpputest_for_freertos.Assert.Expect.{config_assert_at-expected}
use cpputest_for_freertos.Base.{
  ℕ, Bool, ◌≡◌, suc, true, not, arith, false, [], ◌∷◌, refl, ◌==◌, ◌⊎◌, ◌-◌, ◌≢◌,
}

abbrev pub called : Place → ℕ → Bool × ℕ
called p n = (not (n == 0), n - 1)

pub called-expected :
    (p : Place) (x n : ℕ) → x ≡ suc n → ((called p x).0 ≡ true) × ((called p x).1 ≡ n)
called-expected p x n e = ground (arith, e)

pub called-unexpected : (p : Place) (x : ℕ) → x ≡ 0 → (called p x).0 ≡ false
called-unexpected p x e = ground (arith, e)

abbrev pub counting_mock : Mock ℕ
counting_mock = record {
  expect_one_call = suc;
  actual_call = called;
  unfulfilled = λ n. n;
  expects = λ n. refl;
  fulfils = called-expected;
  unexpected = called-unexpected;
}

abbrev pub place : Place
place = record { file = 4096; line = 33 }

abbrev pub quiet : Asserts ℕ
quiet = record { print_assert = true; printed = []; mock = 0 }

config_assert_at-expected_example :
    let x : ℕ = 0 in
    (e : AssertEnd) × (a' : Asserts ℕ) × (checked counting_mock place x quiet ≡ (e, a'))
    × (((x ≡ 0) × (e ≡ test_exits) × (a'.mock ≡ 0) × (a'.printed ≡ place ∷ []))
        ⊎ ((x ≢ 0) × (e ≡ passes) × (a'.mock ≡ 1) × (a'.printed ≡ [])))
config_assert_at-expected_example = config_assert_at-expected counting_mock place 0 quiet
