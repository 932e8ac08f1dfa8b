-- ===== src/Drivers.antt =====
-- The drivers of the demo: example/drivers/buttonReader/src/buttonReader.c and
-- example/drivers/hwLockCtrl/src/hwLockCtrl.c.
pub mod Alternate
pub mod OnFake
use cpputest_for_freertos.Hlcs.{Driver, HwResult, Milliamps, passed, positive}
use cpputest_for_freertos.Button.{Effect, Reader, reader_init, reader_register, reader_read}
use cpputest_for_freertos.Base.{
  Bool, false, true, List, ℕ, Option, ◌∷◌, if◌then◌else◌, some, [], not, none, ◌||◌,
}

-- The static variables of the button reader.
pub record ButtonReader : Type 0 where
  pub isr_callback : Bool
  pub isr_context : ℕ
  pub toggle : Bool

abbrev pub reader_statics : ButtonReader
reader_statics = record { isr_callback = false; isr_context = 0; toggle = false }

unfoldable pub button_reader_init : ButtonReader → Bool × ButtonReader
button_reader_init r = (true, record r { isr_callback = false; isr_context = 0 })

-- The arguments say whether the pointers are not `NULL`.
unfoldable pub button_reader_read :
    (pressed released : Bool) → ButtonReader → Option (ℕ × ℕ) × ButtonReader
button_reader_read pressed released r =
    if not pressed || not released
    then (none, r)
    else (some (if r.toggle then (2, 0) else (0, 2)), record r { toggle = not r.toggle })

unfoldable pub button_reader_register_isr_callback :
    (callback : Bool) (context : ℕ) → ButtonReader → Bool × ButtonReader
button_reader_register_isr_callback callback context r =
    (true, record r { isr_callback = callback; isr_context = context })

abbrev pub hw_lock_ctrl_init : Bool
hw_lock_ctrl_init = true

abbrev pub hw_lock_ctrl_lock : Bool
hw_lock_ctrl_lock = true

abbrev pub hw_lock_ctrl_unlock : Bool
hw_lock_ctrl_unlock = true

-- The argument says whether the pointer is not `NULL`.
abbrev pub hw_lock_ctrl_self_test : Bool → Option HwResult
hw_lock_ctrl_self_test true = some passed
hw_lock_ctrl_self_test false = none

abbrev pub hw_lock_ctrl_read_current : Milliamps
hw_lock_ctrl_read_current = positive 50

-- The driver as the lock service calls it.
abbrev pub demo_driver : Driver
demo_driver = record {
  self_test = λ log. hw_lock_ctrl_self_test true;
  read_current = λ log. hw_lock_ctrl_read_current;
}

-- What a button service with this log has done to the button reader.
abbrev pub happened : Effect → ButtonReader → ButtonReader
happened reader_init r = (button_reader_init r).1
happened reader_register r = (button_reader_register_isr_callback true 0 r).1
happened reader_read r = (button_reader_read true true r).1
happened _ r = r

unfoldable pub replayed : List Effect → ButtonReader
unfolding button_reader_init button_reader_read button_reader_register_isr_callback
replayed [] = reader_statics
replayed (e ∷ log) = happened e (replayed log)

-- The button reader as the button service calls it.
abbrev pub demo_reader : Reader
demo_reader = record { read = λ log. (button_reader_read true true (replayed log)).0 }
