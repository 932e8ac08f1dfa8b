-- ===== src/Config.antt =====
-- The values of settings of cpputest-for-freertos-lib/port/include/FreeRTOSConfig.h, and the
-- `configASSERT` of example/apps/demoPcApp/FreeRTOSConfig.h. That of the library is in Assert.
pub mod Values
pub mod Same
use cpputest_for_freertos.Base.{ℕ, if◌then◌else◌, ◌==◌}

-- `configASSERT( x )` of the demo: it goes on, or disables the interrupts and loops forever.
pub data DemoAssert : Type 0 where
  goes_on loops_forever : DemoAssert

unfoldable pub demo_config_assert : ℕ → DemoAssert
demo_config_assert x = if x == 0 then loops_forever else goes_on
