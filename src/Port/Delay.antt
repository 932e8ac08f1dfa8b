-- ===== src/Port/Delay.antt =====
-- The longest delay: cpputest-for-freertos-lib/port/include/portmacro.h.
use cpputest_for_freertos.Port.{tick_type_bits, port_max_delay}
use cpputest_for_freertos.Config.Values.{
  Value, number, tick_type_width_16_bits, tick_type_width_32_bits, tick_type_width_64_bits, size_t,
  tsk_no_affinity,
}
use cpputest_for_freertos.Base.{ℕ, some, ◌^◌, ◌≡◌, arith, suc, ◌<◌, ◌↔◌, ◌≤◌, ap, refl, sym, ◌∙◌}

some_injective : {m n : ℕ} → some m ≡ some n → m ≡ n
some_injective e = ground (arith, e)

one_less :
    (bits max : ℕ) {b m : ℕ}
    → 2 ^ b ≡ suc m
    → some b ≡ some bits
    → some m ≡ some max
    → (n : ℕ) → (n < 2 ^ bits) ↔ (n ≤ max)
one_less bits max {b} {m} e same_bits same_max n =
    let power : 2 ^ bits ≡ suc max =
      ap (λ k. 2 ^ k) (sym (some_injective same_bits)) ∙ e ∙ ap suc (some_injective same_max) in
    (λ lt. omega (arith, power, lt), λ le. omega (arith, power, le))

-- For every width of TickType_t that the port accepts, the numbers of that many bits are exactly
-- those up to portMAX_DELAY.
pub port_max_delay_lem :
    (width : Value) (bits max n : ℕ)
    → tick_type_bits width ≡ some bits
    → port_max_delay width ≡ some max
    → (n < 2 ^ bits) ↔ (n ≤ max)
unfolding tick_type_bits port_max_delay
port_max_delay_lem tick_type_width_16_bits bits max n b m = one_less bits max refl b m n
port_max_delay_lem tick_type_width_32_bits bits max n b m = one_less bits max refl b m n
port_max_delay_lem tick_type_width_64_bits bits max n b m = one_less bits max refl b m n
port_max_delay_lem (number k) bits max n b m = ground (arith, b)
port_max_delay_lem size_t bits max n b m = ground (arith, b)
port_max_delay_lem tsk_no_affinity bits max n b m = ground (arith, b)
