-- ===== src/Clock.antt =====
-- The time of the fakes: the tick count and the fake timers, which are both optional to a test.
--
-- The timers of cpputest-for-freertos-lib/src/cpputest_for_freertos_timers.cpp stand on
-- `FakeTimers`, a library that is not part of the repository. It is the parameter `FakeTimers`: its
-- methods as functions on its state, and what its documentation says of the time that they keep. A
-- method that is called with a handle that the library did not return is some answer of the library,
-- of which nothing is assumed but that a command which the library says it has done is done.
pub mod Timers
pub mod Tasks
pub mod Delay
pub mod Periods
pub mod Commands
use cpputest_for_freertos.Base.{ℕ, Option, Bool, ◌≡◌, ◌*◌, ◌+◌, ◌<◌, true, false}

-- Durations are in nanoseconds, as a `std::chrono::nanoseconds` holds them, in an `int64_t`.
pub data Behavior : Type 0 where
  single_shot auto_reload : Behavior

-- The difference of two pointers: `behind n` is -(n + 1).
pub data Difference : Type 0 where
  ahead behind : ℕ → Difference

pub record FakeTimers (T : Type 0) : Type 0 where
  -- A new object, with its system tick in milliseconds.
  pub construct : ℕ → T
  pub move_time_forward : ℕ → T → T
  pub get_current_internal_time : T → ℕ
  -- A `ptrdiff_t` converted to the library's type of handles, whose width is the library's.
  pub to_handle : Difference → ℕ
  pub timer_create : (name period : ℕ) → Behavior → (context callback : ℕ) → T → ℕ × T
  pub timer_start : ℕ → T → Bool × T
  pub timer_stop : ℕ → T → Bool × T
  pub timer_delete : ℕ → T → Bool × T
  pub timer_reset : ℕ → T → Bool × T
  pub timer_change_period : (handle period : ℕ) → T → Bool × T
  pub timer_is_active : ℕ → T → Bool
  pub timer_get_context : ℕ → T → ℕ
  pub timer_set_context : (handle context : ℕ) → T → T
  pub timer_get_name : ℕ → T → ℕ
  pub timer_get_behavior : ℕ → T → Behavior
  pub timer_set_behavior : ℕ → Behavior → T → T
  pub timer_get_period : ℕ → T → ℕ
  pub timer_get_expiry_time : ℕ → T → ℕ
  pub starts_at_zero : (tick : ℕ) → get_current_internal_time (construct tick) ≡ 0
  pub moves :
      (d : ℕ) (t : T)
      → get_current_internal_time t + d < 9223372036854775808
      → get_current_internal_time (move_time_forward d t) ≡ get_current_internal_time t + d
  pub created_period :
      (name period : ℕ) (b : Behavior) (context callback : ℕ) (t : T)
      → let (h, t') = timer_create name period b context callback t in
        timer_get_period h t' ≡ period
  pub created_behavior :
      (name period : ℕ) (b : Behavior) (context callback : ℕ) (t : T)
      → let (h, t') = timer_create name period b context callback t in timer_get_behavior h t' ≡ b
  pub created_handle :
      (name period : ℕ) (b : Behavior) (context callback : ℕ) (t : T)
      → to_handle (ahead (timer_create name period b context callback t).0)
        ≡ (timer_create name period b context callback t).0
  -- A command that the library says it has done.
  pub started_active :
      (h : ℕ) (t : T) → (timer_start h t).0 ≡ true → timer_is_active h (timer_start h t).1 ≡ true
  pub stopped_inactive :
      (h : ℕ) (t : T) → (timer_stop h t).0 ≡ true → timer_is_active h (timer_stop h t).1 ≡ false
  pub changed_period :
      (h period : ℕ) (t : T)
      → (timer_change_period h period t).0 ≡ true
      → timer_get_period h (timer_change_period h period t).1 ≡ period

-- `pdTICKS_TO_MS` and `pdMS_TO_TICKS` of the kernel's projdefs.h multiply by 1000 and by
-- `configTICK_RATE_HZ`, which is 1000 too, in 64 bits, and divide by the other. So neither gives more than
-- 18446744073709551, and an `int64_t` holds what they give.
pub record TickMacros : Type 0 where
  pub ticks_to_ms : ℕ → ℕ
  pub ms_to_ticks : ℕ → ℕ
  pub ticks_to_ms_1000 : (n : ℕ) → n * 1000 < 18446744073709551616 → ticks_to_ms n ≡ n
  pub ms_to_ticks_1000 : (n : ℕ) → n * 1000 < 18446744073709551616 → ms_to_ticks n ≡ n

pub record Clock (T : Type 0) : Type 0 where
  pub tick_count : ℕ
  pub fake_timers : Option T
