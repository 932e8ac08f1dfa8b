-- ===== src/Clock/Delay.antt =====
-- Delays, by the tick count and by the timers:
-- cpputest-for-freertos-lib/src/cpputest_for_freertos_task.cpp.
use cpputest_for_freertos.Service.{ok}
use cpputest_for_freertos.Clock.{Clock, FakeTimers, TickMacros}
use cpputest_for_freertos.Clock.Timers.{milliseconds, move_time_forward_ns, whole_milliseconds}
use cpputest_for_freertos.Queue.{pd_true, pd_false}
use cpputest_for_freertos.Base.{
  ℕ, if◌then◌else◌, ◌*◌, Option, leb, ◌<◌, ◌≡◌, ◌+◌, some, none, Option-cases, arith, inl, subst,
  Bool-cases, sym, inr, ◌∙◌, ◌-◌, refl, true,
}
use cpputest_for_freertos.Clock.Tasks.{
  x_task_get_tick_count, v_task_delay, x_task_delay_until, Caller,
}
use cpputest_for_freertos.World.{u64}

abbrev pub max : ℕ → ℕ → ℕ
max a b = if leb a b then b else a

-- A number of ticks whose nanoseconds an `int64_t` holds. The kernel's macros convert it without a
-- wrap.
abbrev pub IsSmall : ℕ → Type 0
IsSmall n = n * 1000000 < 9223372036854775808

module _ {T : Type 0} (fake : FakeTimers T) (macros : TickMacros) (an_object : ℕ) where
  open fake use {get_current_internal_time, moves, move_time_forward}
  open macros use {ticks_to_ms, ticks_to_ms_1000, ms_to_ticks_1000}

  abbrev pub OnTime : ℕ → ℕ → Option T → Type 0
  OnTime n count none = count ≡ n
  OnTime n count (some t) = get_current_internal_time t ≡ n * 1000000

  -- It is `n` ticks: by the tick count, or by the timers if they are active.
  pub record Reads (c : Clock T) (n : ℕ) : Type 0 where
    pub time : OnTime n c.tick_count c.fake_timers
    pub small : IsSmall n

  pub whole-milliseconds : (n : ℕ) → whole_milliseconds (n * 1000000) ≡ n
  whole-milliseconds n = omega arith

  pub tick_count-Reads :
      (c : Clock T) (n : ℕ) → Reads c n → x_task_get_tick_count fake macros an_object c ≡ ok n c
  unfolding x_task_get_tick_count
  tick_count-Reads c n v = elim (Option-cases c.fake_timers) [
    | inl e ↦ ground (arith, e, subst (OnTime n c.tick_count) e v.time)
    | inr (t, e) ↦
        rw
          (
            e,
            subst (OnTime n c.tick_count) e v.time,
            whole-milliseconds n,
            ms_to_ticks_1000 n (omega (arith, v.small)),
          )
          refl
  ]

  pub in_range :
      {S : Type 0} (n : ℕ)
      → IsSmall n
      → (s : S) → milliseconds (ticks_to_ms n) s ≡ ok (n * 1000000) s
  unfolding milliseconds
  in_range n small s = ground (arith, ticks_to_ms_1000 n (omega (arith, small)), small)

  -- Let it be some number of ticks, by the tick count or, where timers are active, by their time.
  -- Then it is as many ticks more after a vTaskDelay as are given, by the same clock.
  pub delay-Reads :
      (c : Clock T) (n d : ℕ)
      → Reads c n
      → IsSmall (n + d)
      → (c' : Clock T) × (v_task_delay fake macros an_object d c ≡ ok tt c') × Reads c' (n + d)
  unfolding v_task_delay move_time_forward_ns
  delay-Reads c n d v small = elim (Option-cases c.fake_timers) [
    | inl e ↦ (
      record c { tick_count = u64 (c.tick_count + d) },
      ground (arith, e),
      record {
        time =
            subst (OnTime (n + d) (u64 (c.tick_count + d))) (sym e)
              (omega (arith, small, subst (OnTime n c.tick_count) e v.time));
        small = small;
      },
    )
    | inr (t, e) ↦
        let t' = move_time_forward (d * 1000000) t in
        let now : get_current_internal_time t ≡ n * 1000000 =
          subst (OnTime n c.tick_count) e v.time in
        (
          record c { fake_timers = some t' },
          ground (arith, e, in_range d (omega (arith, small)) c),
          record {
            time = moves (d * 1000000) t (omega (arith, now, small)) ∙ omega (arith, now);
            small = small;
          },
        )
  ]

  -- Let it be some number of ticks, by the tick count or, where timers are active, by their time.
  -- Then xTaskDelayUntil with a pointer to a variable returns pdFALSE exactly if the variable and
  -- the increment are no more than that, and it is then the later of the two times; the variable,
  -- as every other, is not written. The nanoseconds of both times fit an int64_t, the macros
  -- convert as FreeRTOS documents, and the timers keep time as their library documents.
  pub delay_until-Reads :
      (x : Caller T) (n pointer increment : ℕ)
      → Reads x.clock n
      → IsSmall (x.variables pointer + increment)
      → (c' : Clock T) × (x_task_delay_until fake macros an_object (some pointer) increment x
          ≡ ok
              (if leb (x.variables pointer + increment) n then pd_false else pd_true)
              (record x { clock = c' }))
        × Reads c' (max n (x.variables pointer + increment))
  unfolding x_task_delay_until
  delay_until-Reads x n pointer increment v small =
      let next : ℕ = x.variables pointer + increment in
      let now = tick_count-Reads x.clock n v in
      elim (Bool-cases (leb next n)) [
        | inl late ↦ (
          x.clock,
          ground (arith, now, late, small),
          subst (Reads x.clock) (ground (arith, late)) v,
        )
        | inr early ↦
            let same : n + (next - n) ≡ next = ground (arith, early) in
            let (c', e, v') = delay-Reads x.clock n (next - n) v (ground (arith, small, same)) in
            (
              c',
              ground (arith, now, early, small, e),
              subst (Reads c') (ground (arith, same, early)) v',
            )
      ]

  -- A first xTaskDelayUntil writes no variable of its caller, and a second with the same pointer
  -- and increment returns pdFALSE, lets no time pass and writes none either, whatever the first
  -- returned. The conditions are those on the first call: the nanoseconds of both times fit an
  -- int64_t, the macros convert as FreeRTOS documents, and the timers keep time as their library
  -- documents.
  pub delay_until-again :
      (x : Caller T) (n pointer increment : ℕ)
      → Reads x.clock n
      → IsSmall (x.variables pointer + increment)
      → (y : Caller T) × (z : Caller T) × (x_task_delay_until fake macros an_object
            (some pointer)
            increment
            x
          ≡ ok (if leb (x.variables pointer + increment) n then pd_false else pd_true) y)
        × (x_task_delay_until fake macros an_object (some pointer) increment y ≡ ok pd_false z)
        × (y.variables ≡ x.variables)
        × (z.variables ≡ x.variables)
        × Reads y.clock (max n (x.variables pointer + increment))
        × Reads z.clock (max n (x.variables pointer + increment))
  delay_until-again x n pointer increment v small =
      let (c', e, v') = delay_until-Reads x n pointer increment v small in
      let y : Caller T = record x { clock = c' } in
      let next : ℕ = x.variables pointer + increment in
      let (c'', e', v'') = delay_until-Reads y (max n next) pointer increment v' small in
      let late : leb next (max n next) ≡ true = ground arith in
      (
        y,
        record x { clock = c'' },
        e,
        rw e' (ground (arith, late)),
        refl,
        refl,
        v',
        subst (Reads c'') (ground arith) v'',
      )
