-- ===== src/Clock/Tasks.antt =====
-- The fake tasks of cpputest-for-freertos-lib/src/cpputest_for_freertos_task.cpp.
use cpputest_for_freertos.Service.{
  ◌>>=◌, ◌>>◌, Run, ok, get, put, pure, config_assert, undefined_behavior, Outcome, asserted,
}
use cpputest_for_freertos.Clock.{Clock, FakeTimers, TickMacros}
use cpputest_for_freertos.Queue.{BaseType, pd_true, pd_false, is_none}
use cpputest_for_freertos.World.{u64}
use cpputest_for_freertos.Base.{ℕ, if◌then◌else◌, Option, leb, not, ◌-◌, some, ◌+◌, none}
use cpputest_for_freertos.Clock.Timers.{
  move_time_forward_ns, timers_is_active, milliseconds, whole_milliseconds, internal_time,
}

-- The time, and the variables of type `TickType_t` of who asks for it, by their addresses.
pub record Caller (T : Type 0) : Type 0 where
  pub clock : Clock T
  pub variables : ℕ → ℕ

module _ {T A : Type 0} where
  -- A function of the fakes, which has no access to the variables.
  abbrev pub in_caller : Caller T → Outcome (Clock T) A → Outcome (Caller T) A
  in_caller x (ok a c) = ok a (record x { clock = c })
  in_caller x (asserted line c) = asserted line (record x { clock = c })
  in_caller x undefined_behavior = undefined_behavior

  abbrev pub with_clock : Run (Clock T) A → Run (Caller T) A
  with_clock run x = in_caller x (run x.clock)

-- The variable that a pointer leads to.
abbrev pub variable_at : {T : Type 0} → Option ℕ → Run (Caller T) ℕ
variable_at none x = undefined_behavior
variable_at (some p) x = ok (x.variables p) x

module _ {T : Type 0} (fake : FakeTimers T) (macros : TickMacros) (an_object : ℕ) where
  open fake use {get_current_internal_time}
  open macros use {ticks_to_ms, ms_to_ticks}

  unfoldable pub task_init : Run (Clock T) (Unit {0})
  task_init c = ok tt (record c { tick_count = 0 })

  unfoldable pub task_destroy : Run (Clock T) (Unit {0})
  task_destroy c = ok tt (record c { tick_count = 0 })

  -- Nothing of the task is kept: its code, its name, its stack, its parameters and its handle.
  unfoldable pub x_task_create : Run (Clock T) BaseType
  x_task_create = pure pd_true

  -- The address of the one task control block that there is.
  unfoldable pub x_task_create_static : (dummy : ℕ) → Run (Clock T) ℕ
  x_task_create_static dummy = pure dummy

  unfoldable pub v_task_delete : ℕ → Run (Clock T) (Unit {0})
  v_task_delete task = pure tt

  unfoldable pub v_task_delay : ℕ → Run (Clock T) (Unit {0})
  unfolding move_time_forward_ns
  v_task_delay ticks = do
    c ← get
    if timers_is_active fake macros an_object c
        then (milliseconds (ticks_to_ms ticks) >>= λ duration.
            move_time_forward_ns fake macros an_object duration)
        else put (record c { tick_count = u64 (c.tick_count + ticks) })

  unfoldable pub x_task_get_tick_count : Run (Clock T) ℕ
  x_task_get_tick_count = do
    c ← get
    if timers_is_active fake macros an_object c
        then pure
            (ms_to_ticks (whole_milliseconds (internal_time fake macros an_object c.fake_timers)))
        else pure c.tick_count

  abbrev pub delay_to : (next current : ℕ) → Run (Caller T) BaseType
  delay_to next current =
      if leb next current
      then pure pd_false
      else (with_clock (v_task_delay (u64 (next - current))) >> pure pd_true)

  -- `previous` is the address of the caller's variable, or `none` for `nullptr`.
  unfoldable pub x_task_delay_until : Option ℕ → ℕ → Run (Caller T) BaseType
  unfolding v_task_delay x_task_get_tick_count
  x_task_delay_until previous increment = do
    config_assert 128 (not (is_none previous))
    current ← with_clock x_task_get_tick_count
    before ← variable_at previous
    delay_to (u64 (before + increment)) current
