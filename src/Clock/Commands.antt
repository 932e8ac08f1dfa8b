-- ===== src/Clock/Commands.antt =====
-- What a timer answers after a command: cpputest-for-freertos-lib/src/cpputest_for_freertos_timers.cpp.
use cpputest_for_freertos.Service.{ok, asserted, Run}
use cpputest_for_freertos.Clock.{FakeTimers, TickMacros, Clock}
use cpputest_for_freertos.Base.{ℕ, ◌≡◌, some, Bool, ◌==◌, false, true, ◌*◌}
use cpputest_for_freertos.Queue.{BaseType, pd_true}
use cpputest_for_freertos.Clock.Timers.{
  pointer_to_handle, Command, x_timer_generic_command_from_task,
}
use cpputest_for_freertos.Clock.Delay.{IsSmall}

-- The library refuses a command, and the assertion on it fails; or it is done, and the question
-- then has its answer.
pub data Obeys {T A : Type 0} (c : Clock T) (line : ℕ) (command : Run (Clock T) BaseType)
    (question : Run (Clock T) A) (answer : A) (done : Bool) : Type 0 where
  refused :
      (c' : Clock T)
      → done ≡ false
      → command c ≡ asserted line c'
      → Obeys c line command question answer done
  shown :
      (c' : Clock T)
      → done ≡ true
      → command c ≡ ok pd_true c'
      → question c' ≡ ok answer c'
      → Obeys c line command question answer done

module _ {T : Type 0} (fake : FakeTimers T) (macros : TickMacros) (an_object : ℕ) where
  open fake use {
    timer_start, timer_stop, timer_change_period, timer_is_active, timer_get_period, started_active,
    stopped_inactive, changed_period,
  }
  open macros use {ms_to_ticks, ms_to_ticks_1000}

  module _ (c : Clock T) (t : T) (timer : ℕ) (has : c.fake_timers ≡ some t)
      (given : (timer == 0) ≡ false) where
    abbrev pub handle : ℕ
    handle = pointer_to_handle fake macros an_object timer

    abbrev pub commands : Command → ℕ → Run (Clock T) BaseType
    commands = x_timer_generic_command_from_task fake macros an_object timer

    module _ (ticks : ℕ) (small : IsSmall ticks) where
      abbrev changed : Bool × T
      changed = timer_change_period handle (ticks * 1000000) t
