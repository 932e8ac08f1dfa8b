-- ===== src/Clock/Periods.antt =====
-- What a timer answers: cpputest-for-freertos-lib/src/cpputest_for_freertos_timers.cpp.
use cpputest_for_freertos.Service.{ok}
use cpputest_for_freertos.Clock.{Clock, FakeTimers, TickMacros, ahead}
use cpputest_for_freertos.Queue.{pd_true, pd_false}
use cpputest_for_freertos.Clock.Delay.{IsSmall, in_range}
use cpputest_for_freertos.Base.{
  ℕ, ◌≡◌, Bool, arith, some, if◌then◌else◌, refl, ap, true, false, ◌*◌, ◌∙◌, ◌/◌,
}
use cpputest_for_freertos.Clock.Timers.{
  pointer_to_handle, x_timer_create, handle_to_pointer, x_timer_get_period, x_timer_get_reload_mode,
  behavior_of, reload_mode, difference,
}

module _ {T : Type 0} (fake : FakeTimers T) (macros : TickMacros) (an_object : ℕ) where
  open fake use {timer_create, created_period, created_behavior, created_handle, to_handle}
  open macros use {ms_to_ticks, ticks_to_ms, ticks_to_ms_1000, ms_to_ticks_1000}

  difference-pointer : (h : ℕ) → difference (handle_to_pointer an_object h) an_object ≡ ahead h
  difference-pointer h = ground arith

  mode-of :
      (reload : Bool) → reload_mode (behavior_of reload) ≡ (if reload then pd_true else pd_false)
  mode-of true = refl
  mode-of false = refl

  -- Let timers be active. Then xTimerCreate returns a handle for which xTimerGetPeriod returns the
  -- given ticks and xTimerGetReloadMode the given mode. The nanoseconds of the ticks fit an
  -- int64_t, the macros convert as FreeRTOS documents, and the library keeps the period and the
  -- behavior of a new timer, and its handle when it is converted back from a pointer.
  pub create-answers :
      (c : Clock T) (t : T) (name ticks : ℕ) (reload : Bool) (id callback : ℕ)
      → c.fake_timers ≡ some t
      → IsSmall ticks
      → (timer : ℕ) × (c' : Clock T) × (x_timer_create fake macros an_object name ticks reload id
            callback c
          ≡ ok timer c')
        × (x_timer_get_period fake macros an_object timer c' ≡ ok ticks c')
        × (x_timer_get_reload_mode fake macros an_object timer c'
            ≡ ok (if reload then pd_true else pd_false) c')
  unfolding x_timer_create x_timer_get_period x_timer_get_reload_mode
  create-answers c t name ticks reload id callback e small =
      let ns = ticks * 1000000 in
      let b = behavior_of reload in
      let made = timer_create name ns b id callback t in
      let back : pointer_to_handle fake macros an_object (handle_to_pointer an_object made.0)
          ≡ made.0 =
        ap to_handle (difference-pointer made.0) ∙ created_handle name ns b id callback t in
      let whole : (ticks * 1000000) / 1000000 ≡ ticks = omega arith in
      (
        handle_to_pointer an_object made.0,
        record c { fake_timers = some made.1 },
        ground (arith, e, in_range fake macros an_object ticks small c),
        rw (back, created_period name ns b id callback t)
            (ap (λ n. ok n (record c { fake_timers = some made.1 }))
              (ap ms_to_ticks whole ∙ ms_to_ticks_1000 ticks (omega (arith, small)))),
        rw (back, created_behavior name ns b id callback t)
            (ap (λ m. ok m (record c { fake_timers = some made.1 })) (mode-of reload)),
      )
