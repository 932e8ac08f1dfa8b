-- ===== src/Clock/Timers.antt =====
-- The fake timers of cpputest-for-freertos-lib/src/cpputest_for_freertos_timers.cpp.
use cpputest_for_freertos.Service.{
  ◌>>=◌, ◌>>◌, Run, ok, get, put, pure, config_assert, asserted, undefined_behavior,
}
use cpputest_for_freertos.Clock.{
  Clock, FakeTimers, TickMacros, Behavior, single_shot, auto_reload, Difference, ahead, behind,
}
use cpputest_for_freertos.Queue.{BaseType, pd_true, pd_false, is_none}
use cpputest_for_freertos.Base.{
  ℕ, Bool, ◌*◌, ◌/◌, ◌+◌, ◌-◌, some, not, Option, false, if◌then◌else◌, true, none, ◌==◌, ltb, leb,
}

-- The values of `xCommandID` that the code tells apart.
pub data Command : Type 0 where
  start stop delete reset change_period other_command : Command

-- A `std::chrono::milliseconds` of a count that is not negative, converted to nanoseconds: what
-- exceeds an `int64_t` is undefined.
unfoldable pub milliseconds : {S : Type 0} → ℕ → Run S ℕ
milliseconds count =
    if ltb (count * 1000000) 9223372036854775808
    then pure (count * 1000000)
    else (λ s. undefined_behavior)

-- `std::chrono::duration_cast<std::chrono::milliseconds>`
abbrev pub whole_milliseconds : ℕ → ℕ
whole_milliseconds n = n / 1000000

abbrev pub behavior_of : Bool → Behavior
behavior_of true = auto_reload
behavior_of false = single_shot

-- A timer's handle as a pointer, from the address of the object `s_an_object`, and the difference of
-- two pointers.
abbrev pub handle_to_pointer : ℕ → ℕ → ℕ
handle_to_pointer an_object handle = an_object + handle

abbrev pub difference : ℕ → ℕ → Difference
difference p q = if leb q p then ahead (p - q) else behind (q - p - 1)

abbrev pub reload_mode : Behavior → BaseType
reload_mode auto_reload = pd_true
reload_mode single_shot = pd_false

module _ {T : Type 0} (fake : FakeTimers T) (macros : TickMacros) (an_object : ℕ) where
  open fake use {
    construct, move_time_forward, get_current_internal_time, timer_create, timer_start, timer_stop,
    timer_delete, timer_reset, timer_change_period, timer_is_active, timer_get_context,
    timer_set_context, timer_get_name, timer_get_behavior, timer_set_behavior, timer_get_period,
    timer_get_expiry_time, to_handle,
  }
  open macros use {ticks_to_ms, ms_to_ticks}

  abbrev pub pointer_to_handle : ℕ → ℕ
  pointer_to_handle pointer = to_handle (difference pointer an_object)

  unfoldable pub timers_init : Run (Clock T) (Unit {0})
  timers_init = do
    c ← get
    config_assert 37 (is_none c.fake_timers)
    put (record c { fake_timers = some (construct 1) })

  unfoldable pub timers_destroy : Run (Clock T) (Unit {0})
  timers_destroy = do
    c ← get
    config_assert 45 (not (is_none c.fake_timers))
    put (record c { fake_timers = none })

  abbrev pub timers_is_active : Clock T → Bool
  timers_is_active c = not (is_none c.fake_timers)

  -- `s_fakeTimers` after `configASSERT(s_fakeTimers != nullptr)` on a line.
  abbrev pub timers_at : ℕ → Option T → Run (Clock T) T
  timers_at line none c = asserted line c
  timers_at line (some t) c = ok t c

  abbrev pub active : ℕ → Run (Clock T) T
  active line c = timers_at line c.fake_timers c

  abbrev pub set_timers : T → Run (Clock T) (Unit {0})
  set_timers t c = ok tt (record c { fake_timers = some t })

  unfoldable pub move_time_forward_ns : ℕ → Run (Clock T) (Unit {0})
  move_time_forward_ns duration = do t ← active 57; set_timers (move_time_forward duration t)

  abbrev pub internal_time : Option T → ℕ
  internal_time none = 0
  internal_time (some t) = get_current_internal_time t

  abbrev pub ticks_to_chrono : ℕ → Run (Clock T) ℕ
  ticks_to_chrono ticks = milliseconds (ticks_to_ms ticks)

  unfoldable pub x_timer_create : (name ticks : ℕ) → Bool → (id callback : ℕ) → Run (Clock T) ℕ
  x_timer_create name ticks reload id callback = do
    t ← active 102
    period ← ticks_to_chrono ticks
    let (handle, t') = timer_create name period (behavior_of reload) id callback t
    set_timers t'
    pure (handle_to_pointer an_object handle)

  -- A method that returns whether it has done what it was asked, and the assertion that it has.
  abbrev pub commanded : ℕ → Bool × T → Run (Clock T) (Unit {0})
  commanded line (done, t) = do set_timers t; config_assert line done

  unfoldable pub run_command : Command → (handle value : ℕ) → T → Run (Clock T) (Unit {0})
  run_command start h value t = commanded 134 (timer_start h t)
  run_command delete h value t = commanded 139 (timer_delete h t)
  run_command stop h value t = commanded 144 (timer_stop h t)
  run_command change_period h value t = do
    period ← milliseconds (ticks_to_ms value)
    commanded 151 (timer_change_period h period t)
  run_command reset h value t = commanded 156 (timer_reset h t)
  run_command other_command h value t = config_assert 160 false

  unfoldable pub x_timer_generic_command_from_task :
      (timer : ℕ) → Command → (value : ℕ) → Run (Clock T) BaseType
  unfolding run_command
  x_timer_generic_command_from_task timer command value = do
    t ← active 125
    config_assert 126 (not (timer == 0))
    run_command command (pointer_to_handle timer) value t
    pure pd_true

  unfoldable pub x_timer_is_timer_active : ℕ → Run (Clock T) BaseType
  x_timer_is_timer_active timer = do
    t ← active 169
    if timer_is_active (pointer_to_handle timer) t then pure pd_true else pure pd_false

  unfoldable pub pv_timer_get_timer_id : ℕ → Run (Clock T) ℕ
  pv_timer_get_timer_id timer = do
    t ← active 183
    pure (timer_get_context (pointer_to_handle timer) t)

  unfoldable pub v_timer_set_timer_id : (timer id : ℕ) → Run (Clock T) (Unit {0})
  v_timer_set_timer_id timer id = do
    t ← active 190
    set_timers (timer_set_context (pointer_to_handle timer) id t)

  unfoldable pub pc_timer_get_name : ℕ → Run (Clock T) ℕ
  pc_timer_get_name timer = do t ← active 196; pure (timer_get_name (pointer_to_handle timer) t)

  unfoldable pub x_timer_get_reload_mode : ℕ → Run (Clock T) BaseType
  x_timer_get_reload_mode timer = do
    t ← active 202
    pure (reload_mode (timer_get_behavior (pointer_to_handle timer) t))

  unfoldable pub v_timer_set_reload_mode : ℕ → Bool → Run (Clock T) (Unit {0})
  v_timer_set_reload_mode timer reload = do
    t ← active 216
    set_timers (timer_set_behavior (pointer_to_handle timer) (behavior_of reload) t)

  unfoldable pub x_timer_get_period : ℕ → Run (Clock T) ℕ
  x_timer_get_period timer = do
    t ← active 230
    pure (ms_to_ticks (whole_milliseconds (timer_get_period (pointer_to_handle timer) t)))

  unfoldable pub x_timer_get_expiry_time : ℕ → Run (Clock T) ℕ
  x_timer_get_expiry_time timer = do
    t ← active 238
    pure (ms_to_ticks (whole_milliseconds (timer_get_expiry_time (pointer_to_handle timer) t)))
