-- ===== src/Assert.antt =====
-- What a failed `configASSERT` does in a test: cpputest-for-freertos-lib/src/cpputest_for_freertos_assert.cpp
-- and cpputest-for-freertos-lib/include/cpputest_for_freertos_assert.hpp.
--
-- CppUMock is not part of the repository. It is the parameter `Mock`: its calls as functions on its
-- state, and what its documentation says of the expectations that are not fulfilled yet.
pub mod Expect
use cpputest_for_freertos.Base.{ℕ, Bool, ◌≡◌, List, true, false, if◌then◌else◌, suc, ◌∷◌, ◌==◌}

-- A place in the source: the address of the file's name, and the line.
pub record Place : Type 0 where
  pub file : ℕ
  pub line : ℕ

-- `mock(ASSERT_MOCK_NAME)` with the function ON_ASSERT_FUNC_NAME: an expectation of one call with
-- any parameters, and an actual call, which answers whether it was expected.
pub record Mock (X : Type 0) : Type 0 where
  pub expect_one_call : X → X
  pub actual_call : Place → X → Bool × X
  pub unfulfilled : X → ℕ
  pub expects : (x : X) → unfulfilled (expect_one_call x) ≡ suc (unfulfilled x)
  pub fulfils :
      (p : Place) (x : X) (n : ℕ)
      → unfulfilled x ≡ suc n
      → ((actual_call p x).0 ≡ true) × (unfulfilled (actual_call p x).1 ≡ n)
  pub unexpected : (p : Place) (x : X) → unfulfilled x ≡ 0 → (actual_call p x).0 ≡ false

-- `m_printAssert`, which the calls in Library set, the lines printed, last first, and the state of the mocks.
pub record Asserts (X : Type 0) : Type 0 where
  pub print_assert : Bool
  pub printed : List Place
  pub mock : X

-- How the macro ends: it does nothing, it leaves the test with TEST_EXIT, or CppUMock has failed
-- the test on an unexpected call.
pub data AssertEnd : Type 0 where
  passes test_exits test_fails : AssertEnd

module _ {X : Type 0} (mocks : Mock X) where
  open mocks use {expect_one_call, actual_call}

  unfoldable pub mock_expect_assert : Asserts X → Asserts X
  mock_expect_assert a = record a { mock = expect_one_call a.mock }

  unfoldable pub cms_assert_called : Place → Asserts X → AssertEnd × Asserts X
  cms_assert_called p a =
      let lines = if a.print_assert then p ∷ a.printed else a.printed in
      let (expected, m) = actual_call p a.mock in
      let a' = record a { printed = lines; mock = m } in
      if expected then (test_exits, a') else (test_fails, a')

  -- `configASSERT( x )` at a place.
  unfoldable pub config_assert_at : Place → ℕ → Asserts X → AssertEnd × Asserts X
  unfolding cms_assert_called
  config_assert_at p x a = if x == 0 then cms_assert_called p a else (passes, a)

  -- A test that checks an assertion: it expects one, and runs code that asserts `x`.
  unfoldable pub checked : Place → ℕ → Asserts X → AssertEnd × Asserts X
  checked p x a = config_assert_at p x (mock_expect_assert a)
