-- ===== src/Scenarios/Configs.antt =====
-- The theorems on `configASSERT` and the port at concrete settings.
use cpputest_for_freertos.Config.{demo_config_assert, goes_on}
use cpputest_for_freertos.Config.Same.{demo_config_assert-config_assert_at}
use cpputest_for_freertos.Config.Values.{tick_type_width_64_bits}
use cpputest_for_freertos.Port.Delay.{port_max_delay_lem}
use cpputest_for_freertos.Port.{tick_type_bits, port_max_delay}
use cpputest_for_freertos.Assert.{config_assert_at, passes}
use cpputest_for_freertos.Scenarios.Asserts.{counting_mock, place, quiet}
use cpputest_for_freertos.Base.{◌≡◌, ◌<◌, ◌↔◌, ◌^◌, refl, ◌≤◌}

demo_config_assert-config_assert_at_example :
    (demo_config_assert 0 ≡ goes_on) ↔ ((config_assert_at counting_mock place 0 quiet).0 ≡ passes)
demo_config_assert-config_assert_at_example =
    demo_config_assert-config_assert_at counting_mock place 0 quiet

port_max_delay_lem_example : (7 < 2 ^ 64) ↔ (7 ≤ 0xffffffffffffffff)
unfolding tick_type_bits port_max_delay
port_max_delay_lem_example =
    port_max_delay_lem tick_type_width_64_bits 64 0xffffffffffffffff 7 refl refl
