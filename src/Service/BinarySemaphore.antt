-- ===== src/Service/BinarySemaphore.antt =====
-- A FreeRTOS binary semaphore as a service sees it through semphr.h: its operations, and what
-- FreeRTOS documents of them.
use cpputest_for_freertos.Base.{Option, Bool, ℕ, ◌≡◌, some, false, true}

pub record BinarySemaphore (S : Type 0) : Type 0 where
  -- `xSemaphoreCreateBinary`: `none` is a null handle.
  pub create : Option S
  pub give : S → Bool × S
  pub give_from_isr : S → Bool × S
  pub take : S → Bool × S
  pub get_count : S → ℕ
  pub create_empty : (s : S) → create ≡ some s → get_count s ≡ 0
  pub give_one : (s : S) → get_count (give s).1 ≡ 1
  pub give_from_isr_one : (s : S) → get_count (give_from_isr s).1 ≡ 1
  pub take_none : (s : S) → get_count s ≡ 0 → ((take s).0 ≡ false) × (get_count (take s).1 ≡ 0)
  pub take_one : (s : S) → get_count s ≡ 1 → ((take s).0 ≡ true) × (get_count (take s).1 ≡ 0)
