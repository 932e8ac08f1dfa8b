-- ===== src/Port.antt =====
-- The types and the checks of cpputest-for-freertos-lib/port/include/portmacro.h.
pub mod Delay
use cpputest_for_freertos.Base.{ℕ, Bool, Option, some, none}
use cpputest_for_freertos.Config.Values.{
  Value, number, tick_type_width_16_bits, tick_type_width_32_bits, tick_type_width_64_bits,
}

-- The bits of `TickType_t` by `configTICK_TYPE_WIDTH_IN_BITS`: `none` is `#error`.
unfoldable pub tick_type_bits : Value → Option ℕ
tick_type_bits tick_type_width_16_bits = some 16
tick_type_bits tick_type_width_32_bits = some 32
tick_type_bits tick_type_width_64_bits = some 64
tick_type_bits _ = none

unfoldable pub port_max_delay : Value → Option ℕ
port_max_delay tick_type_width_16_bits = some 0xffff
port_max_delay tick_type_width_32_bits = some 0xffffffff
port_max_delay tick_type_width_64_bits = some 0xffffffffffffffff
port_max_delay _ = none
