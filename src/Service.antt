-- ===== src/Service.antt =====
-- What the two example services share: runs over their static variables, the option of
-- example/services/include/cmsExecutionOption.h, and the kernel's queue and semaphore as
-- interfaces.
pub mod EventQueue
pub mod BinarySemaphore
use cpputest_for_freertos.Base.{ℕ, Bool, true, false}

pub data ExecutionOption : Type 0 where
  normal unit_test : ExecutionOption

-- A run over the statics `S`: it returns, the `configASSERT` on a line fails, or its behaviour is
-- undefined: a null pointer is used, or a signed number does not fit its type.
pub data Outcome (S A : Type 0) : Type 0 where
  ok : A → S → Outcome S A
  asserted : ℕ → S → Outcome S A
  undefined_behavior : Outcome S A

abbrev pub Run : Type 0 → Type 0 → Type 0
Run S A = S → Outcome S A

abbrev pub pure : {S A : Type 0} → A → Run S A
pure = ok

module _ {S A B : Type 0} where
  infixl 5 ◌>>=◌ ◌>>◌
  abbrev pub ◌>>=◌ : Run S A → (A → Run S B) → Run S B
  ◌>>=◌ m k s = elim (m s) [
    | ok a s' ↦ k a s'
    | asserted line s' ↦ asserted line s'
    | undefined_behavior ↦ undefined_behavior
  ]

  abbrev pub ◌>>◌ : Run S A → Run S B → Run S B
  m >> n = m >>= λ _. n

abbrev pub config_assert : {S : Type 0} → ℕ → Bool → Run S (Unit {0})
config_assert line true s = ok tt s
config_assert line false s = asserted line s

abbrev pub get : {S : Type 0} → Run S S
get s = ok s s

abbrev pub put : {S : Type 0} → S → Run S (Unit {0})
put s' s = ok tt s'

-- The state in which a run returns, and `s` if it does not.
abbrev pub returned_state : {S A : Type 0} → S → Outcome S A → S
returned_state s (ok a t) = t
returned_state s (asserted line t) = s
returned_state s undefined_behavior = s
