-- ===== src/Config/Values.antt =====
-- What the settings of a FreeRTOSConfig.h are defined as.
use cpputest_for_freertos.Base.{ℕ}

pub data Value : Type 0 where
  number : ℕ → Value
  tick_type_width_16_bits tick_type_width_32_bits tick_type_width_64_bits : Value
  size_t tsk_no_affinity : Value
