-- ===== src/Button/Emit.antt =====
-- Which bits of the driver become which flags of the callback: `Emit` of
-- example/services/buttonService/src/buttonService.c.
use cpputest_for_freertos.Service.{ok}
use cpputest_for_freertos.Base.{
  Bool, ℕ, ◌+◌, true, ◌*◌, ◌≡◌, false, arith, if◌then◌else◌, ◌&&◌, ◌||◌, ◌∷◌, ◌<◌, ◌==◌, ◌/◌, ◌%◌,
  refl, ap, ◌∙◌,
}
use cpputest_for_freertos.Button.{
  emit, has_on_off_bit, ButtonState, Button, button_change, has_func_a_bit,
}

abbrev pub bit : Bool → ℕ
bit true = 1
bit false = 0

-- A number by its four low bits and the rest.
abbrev pub bits_of : (b0 b1 b2 b3 : Bool) → ℕ → ℕ
bits_of b0 b1 b2 b3 rest = bit b0 + 2 * bit b1 + 4 * bit b2 + 8 * bit b3 + 16 * rest

bit-lt : (b : Bool) → bit b < 2
bit-lt true = omega arith
bit-lt false = omega arith

bit-eq : (b : Bool) → (bit b == 1) ≡ b
bit-eq true = refl
bit-eq false = refl

module _ (b0 b1 b2 b3 : Bool) (rest : ℕ) where
  has_on_off_bit-bits_of : has_on_off_bit (bits_of b0 b1 b2 b3 rest) ≡ b1
  has_on_off_bit-bits_of =
      let e : (bits_of b0 b1 b2 b3 rest / 2) % 2 ≡ bit b1 = omega (arith, bit-lt b0, bit-lt b1) in
      ap (λ n. n == 1) e ∙ bit-eq b1

  has_func_a_bit-bits_of : has_func_a_bit (bits_of b0 b1 b2 b3 rest) ≡ b3
  has_func_a_bit-bits_of =
      let e : (bits_of b0 b1 b2 b3 rest / 8) % 2 ≡ bit b3 =
        omega (arith, bit-lt b0, bit-lt b1, bit-lt b2, bit-lt b3) in
      ap (λ n. n == 1) e ∙ bit-eq b3

-- The callback is called or not.
abbrev pub told_if : {S : Type 0} → Bool → ℕ → ButtonState → Button S → Button S
told_if heard flags state s =
    if heard then record s { log = button_change flags state s.context ∷ s.log } else s

module _ {S : Type 0} (state : ButtonState) (s : Button S) where
  emit-flags :
      (bits : ℕ) (a b : Bool)
      → has_on_off_bit bits ≡ a
      → has_func_a_bit bits ≡ b
      → emit bits state s ≡ ok tt (told_if (s.callback && (a || b)) (bit a + 2 * bit b) state s)
  unfolding emit
  emit-flags bits true true e f = ground (arith, e, f)
  emit-flags bits true false e f = ground (arith, e, f)
  emit-flags bits false true e f = ground (arith, e, f)
  emit-flags bits false false e f = ground (arith, e, f)

  -- For a number with given four low bits Emit calls the callback exactly if one is registered and
  -- bit 1 or bit 3 is set, with a flag 1 for bit 1 and a flag 2 for bit 3, the state and the
  -- context. Other bits have no effect.
  pub emit-bits_of :
      (b0 on_off b2 func_a : Bool) (rest : ℕ)
      → emit (bits_of b0 on_off b2 func_a rest) state s
        ≡ ok tt (told_if (s.callback && (on_off || func_a)) (bit on_off + 2 * bit func_a) state s)
  emit-bits_of b0 on_off b2 func_a rest =
      emit-flags (bits_of b0 on_off b2 func_a rest) on_off func_a
        (has_on_off_bit-bits_of b0 on_off b2 func_a rest)
        (has_func_a_bit-bits_of b0 on_off b2 func_a rest)
