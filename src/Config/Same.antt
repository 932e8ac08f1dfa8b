-- ===== src/Config/Same.antt =====
-- What the unit tests and the demo have in common:
-- cpputest-for-freertos-lib/port/include/FreeRTOSConfig.h and example/apps/demoPcApp/FreeRTOSConfig.h.
use cpputest_for_freertos.Assert.{Mock, Asserts, Place, config_assert_at, passes, cms_assert_called}
use cpputest_for_freertos.Config.{demo_config_assert, goes_on}
use cpputest_for_freertos.Base.{ℕ, ◌≡◌, ◌↔◌, Bool-cases, ◌==◌, inl, arith, inr}

-- The configASSERT of the demo goes on for exactly the numbers for which that of the unit tests
-- passes, whatever the state of the mocks; for the others it loops forever.
pub demo_config_assert-config_assert_at :
    {X : Type 0} (mocks : Mock X) (p : Place) (x : ℕ) (a : Asserts X)
    → (demo_config_assert x ≡ goes_on) ↔ ((config_assert_at mocks p x a).0 ≡ passes)
unfolding demo_config_assert config_assert_at cms_assert_called
demo_config_assert-config_assert_at mocks p x a = elim (Bool-cases (x == 0)) [
  | inl z ↦ (
    λ e. absurd (ground (arith, z, e)),
    λ e. elim (Bool-cases (mocks.actual_call p a.mock).0) [
      | inl expected ↦ absurd (ground (arith, z, e, expected))
      | inr not_expected ↦ absurd (ground (arith, z, e, not_expected))
    ],
  )
  | inr holds ↦ (λ e. ground (arith, holds), λ e. ground (arith, holds))
]
