-- ===== src/Assert/Expect.antt =====
-- Tests that check an assertion: cpputest-for-freertos-lib/src/cpputest_for_freertos_assert.cpp.
use cpputest_for_freertos.Assert.{
  Mock, Asserts, Place, AssertEnd, passes, test_exits, test_fails, checked, config_assert_at, ◌≡◌,
  cms_assert_called, mock_expect_assert,
}
use cpputest_for_freertos.Base.{
  List, ℕ, ◌≡◌, if◌then◌else◌, ◌⊎◌, ◌∷◌, ◌≢◌, suc, arith, Bool-cases, refl, ◌==◌, inl, inr,
}

module _ {X : Type 0} (mocks : Mock X) where
  open mocks use {unfulfilled, expects, fulfils, unexpected}

  -- The lines after an assertion has failed.
  abbrev pub lines_after : Place → Asserts X → List Place
  lines_after p a = if a.print_assert then p ∷ a.printed else a.printed

  -- After MockExpectAssert, a configASSERT of 0 leaves the test, with as many unfulfilled
  -- expectations as before; it prints its place exactly if the output is enabled. A configASSERT of
  -- another number passes, prints nothing, and leaves one unfulfilled expectation more. The mocks
  -- count calls as CppUMock documents.
  pub config_assert_at-expected :
      (p : Place) (x : ℕ) (a : Asserts X)
      → (e : AssertEnd) × (a' : Asserts X) × (checked mocks p x a ≡ (e, a'))
        × (((x ≡ 0)
              × (e ≡ test_exits)
              × (unfulfilled a'.mock ≡ unfulfilled a.mock)
              × (a'.printed ≡ lines_after p a))
            ⊎ ((x ≢ 0)
                × (e ≡ passes)
                × (unfulfilled a'.mock ≡ suc (unfulfilled a.mock))
                × (a'.printed ≡ a.printed)))
  unfolding checked config_assert_at cms_assert_called mock_expect_assert
  config_assert_at-expected p x a = elim (Bool-cases (x == 0)) [
    | inl z ↦
        let m : X = mocks.expect_one_call a.mock in
        let at = fulfils p m (unfulfilled a.mock) (expects a.mock) in
        (
          test_exits,
          record a { printed = lines_after p a; mock = (mocks.actual_call p m).1 },
          ground (arith, z, at.0),
          inl (ground (arith, z), refl, at.1, refl),
        )
    | inr holds ↦ (
      passes,
      record a { mock = mocks.expect_one_call a.mock },
      ground (arith, holds),
      inr (ground (arith, holds), refl, expects a.mock, refl),
    )
  ]

  -- A configASSERT of 0 that no expectation waits for fails the test, and prints its place exactly if
  -- the output is enabled. The mocks count calls as CppUMock documents.
  pub config_assert_at-unexpected :
      (p : Place) (a : Asserts X)
      → unfulfilled a.mock ≡ 0
      → (a' : Asserts X) × (config_assert_at mocks p 0 a ≡ (test_fails, a'))
        × (a'.printed ≡ lines_after p a)
  unfolding config_assert_at cms_assert_called
  config_assert_at-unexpected p a none_left = (
    record a { printed = lines_after p a; mock = (mocks.actual_call p a.mock).1 },
    ground (arith, unexpected p a.mock none_left),
    refl,
  )
