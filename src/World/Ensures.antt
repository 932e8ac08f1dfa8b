-- ===== src/World/Ensures.antt =====
-- Rules for runs that keep a property of the world however they end: for the code of
-- cpputest-for-freertos-lib/src.
use cpputest_for_freertos.Base.{ℕ, Bool, ◌≡◌, true, false, if◌then◌else◌, refl}
use cpputest_for_freertos.World.{
  World, Outcome, ok, asserted, test_failed, fault, M, ◌>>=◌, pure, undefined, out_of_fuel,
  config_assert,
}

-- `P` holds of the world in which the run ends; where it returns, `Q` holds of its value too.
pub data Ensures {A : Type 0} (P : World → Type 0) (Q : A → Type 0) : Outcome A → Type 0 where
  returns : {a : A} {w : World} → P w → Q a → Ensures P Q (ok a w)
  asserts : {line : ℕ} {w : World} → P w → Ensures P Q (asserted line w)
  fails : {w : World} → P w → Ensures P Q (test_failed w)
  faults : Ensures P Q fault
  starves : Ensures P Q out_of_fuel

pub record Keeps {A : Type 0} (P : World → Type 0) (Q : A → Type 0) (m : M A) : Type 0 where
  pub at : (w : World) → P w → Ensures P Q (m w)

abbrev pub Any : {A : Type 0} → A → Type 0
Any a = Unit

module _ {P : World → Type 0} where
  pub Keeps-pure : {A : Type 0} (Q : A → Type 0) (a : A) → Q a → Keeps P Q (pure a)
  Keeps-pure Q a q = record { at = λ w p. returns p q }

  pub Keeps-undefined : {A : Type 0} (Q : A → Type 0) → Keeps P Q undefined
  Keeps-undefined Q = record { at = λ w p. faults }

  pub Keeps-config_assert : (line : ℕ) (b : Bool) → Keeps P (λ _. b ≡ true) (config_assert line b)
  Keeps-config_assert line true = record { at = λ w p. returns p refl }
  Keeps-config_assert line false = record { at = λ w p. asserts p }

  pub Keeps-if :
      {A : Type 0} {Q : A → Type 0} (b : Bool) {m n : M A}
      → (b ≡ true → Keeps P Q m)
      → (b ≡ false → Keeps P Q n)
      → Keeps P Q (if b then m else n)
  Keeps-if true km kn = km refl
  Keeps-if false km kn = kn refl

module _ {A B : Type 0} {P : World → Type 0} {Q : A → Type 0} {R : B → Type 0} where
  after :
      {r : Outcome A} (k : A → M B) (start : World)
      → Ensures P Q r
      → ((a : A) → Q a → Keeps P R (k a))
      → Ensures P R (◌>>=◌ (λ _. r) k start)
  unfolding ◌>>=◌
  after k start (returns p q) next = (next _ q).at _ p
  after k start (asserts p) next = asserts p
  after k start (fails p) next = fails p
  after k start faults next = faults
  after k start starves next = starves

  pub bind :
      {m : M A} {k : A → M B}
      → Keeps P Q m
      → ((a : A) → Q a → Keeps P R (k a))
      → Keeps P R (m >>= k)
  unfolding ◌>>=◌
  bind {m} {k} first next = record { at = λ w p. after k w (first.at w p) next }
