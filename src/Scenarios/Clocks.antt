-- ===== src/Scenarios/Clocks.antt =====
-- The theorems on the time at concrete states.
use cpputest_for_freertos.Base.{ℕ, none, arith, some, refl, ◌+◌, ◌≡◌, true, false, Bool}
use cpputest_for_freertos.Clock.{
  FakeTimers, TickMacros, Clock, Behavior, single_shot, Difference, ahead, behind,
}
use cpputest_for_freertos.Clock.Delay.{Reads, delay_until-Reads, delay_until-again}
use cpputest_for_freertos.Clock.Tasks.{x_task_delay_until, Caller}
use cpputest_for_freertos.Clock.Timers.{x_timer_create, x_timer_get_period, x_timer_get_reload_mode}
use cpputest_for_freertos.Service.{ok}
use cpputest_for_freertos.Queue.{pd_true, pd_false}
use cpputest_for_freertos.Clock.Periods.{create-answers}

-- One timer, which never expires.
pub record OneTimer : Type 0 where
  time : ℕ
  period : ℕ
  behavior : Behavior
  context : ℕ
  is_active : Bool

abbrev handle_of : Difference → ℕ
handle_of (ahead n) = n
handle_of (behind n) = 0

abbrev pub new_timer : OneTimer
new_timer = record { time = 0; period = 0; behavior = single_shot; context = 0; is_active = false }

abbrev pub fake : FakeTimers OneTimer
fake = record {
  construct = λ tick. new_timer;
  move_time_forward = λ d t. record t { time = t.time + d };
  get_current_internal_time = λ t. t.time;
  to_handle = handle_of;
  timer_create = λ name p b c callback t.
      (1, record t { period = p; behavior = b; context = c; is_active = false });
  timer_start = λ h t. (true, record t { is_active = true });
  timer_stop = λ h t. (true, record t { is_active = false });
  timer_delete = λ h t. (true, record t { is_active = false });
  timer_reset = λ h t. (true, record t { is_active = true });
  timer_change_period = λ h p t. (true, record t { period = p });
  timer_is_active = λ h t. t.is_active;
  timer_get_context = λ h t. t.context;
  timer_set_context = λ h c t. record t { context = c };
  timer_get_name = λ h t. 0;
  timer_get_behavior = λ h t. t.behavior;
  timer_set_behavior = λ h b t. record t { behavior = b };
  timer_get_period = λ h t. t.period;
  timer_get_expiry_time = λ h t. t.time;
  starts_at_zero = λ tick. refl;
  moves = λ d t small. refl;
  created_period = λ name p b c callback t. refl;
  created_behavior = λ name p b c callback t. refl;
  created_handle = λ name p b c callback t. refl;
  started_active = λ h t done. refl;
  stopped_inactive = λ h t done. refl;
  changed_period = λ h p t done. refl;
}

abbrev pub ticks : TickMacros
ticks = record {
  ticks_to_ms = λ n. n;
  ms_to_ticks = λ n. n;
  ticks_to_ms_1000 = λ n small. refl;
  ms_to_ticks_1000 = λ n small. refl;
}

-- It is 5, and the variable at each address is 3.
abbrev five : Caller OneTimer
five = record { clock = record { tick_count = 5; fake_timers = none }; variables = λ address. 3 }

Reads-five : Reads fake ticks 100 five.clock 5
Reads-five = record { time = refl; small = omega arith }

delay_until-Reads_example :
    (c' : Clock OneTimer) × (x_task_delay_until fake ticks 100 (some 40) 10 five
      ≡ ok pd_true (record five { clock = c' }))
    × Reads fake ticks 100 c' 13
delay_until-Reads_example = delay_until-Reads fake ticks 100 five 5 40 10 Reads-five (omega arith)

delay_until-again_example :
    (y : Caller OneTimer) × (z : Caller OneTimer) × (x_task_delay_until fake ticks 100
        (some 40)
        10
        five
      ≡ ok pd_true y)
    × (x_task_delay_until fake ticks 100 (some 40) 10 y ≡ ok pd_false z)
    × (y.variables ≡ five.variables)
    × (z.variables ≡ five.variables)
    × Reads fake ticks 100 y.clock 13
    × Reads fake ticks 100 z.clock 13
delay_until-again_example = delay_until-again fake ticks 100 five 5 40 10 Reads-five (omega arith)

abbrev pub timing : Clock OneTimer
timing = record { tick_count = 0; fake_timers = some new_timer }

create-answers_example :
    (timer : ℕ) × (c' : Clock OneTimer) × (x_timer_create fake ticks 100 7 20 true 8 9 timing
      ≡ ok timer c')
    × (x_timer_get_period fake ticks 100 timer c' ≡ ok 20 c')
    × (x_timer_get_reload_mode fake ticks 100 timer c' ≡ ok pd_true c')
create-answers_example =
    create-answers fake ticks 100 timing new_timer 7 20 true 8 9 refl (omega arith)
