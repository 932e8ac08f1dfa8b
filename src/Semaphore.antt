-- ===== src/Semaphore.antt =====
-- The fake semaphores of cpputest-for-freertos-lib/src/cpputest_for_freertos_semaphore.cpp: queues
-- of empty messages.
--
-- semphr.h and queue.h of the FreeRTOS kernel, which are not part of the repository, define
-- `xSemaphoreGive`, `uxSemaphoreGetCount` and `xQueueCreate` as macros. They are the parameter
-- `Macros`; FreeRTOS documents which function each of them calls.
pub mod Inv
pub mod Counter
pub mod Create
pub mod Dummy
pub mod Binary
use cpputest_for_freertos.World.{
  ◌>>=◌, ◌>>◌, Ptr, M, pure, u8, World, config_assert, deref, null, base,
}
use cpputest_for_freertos.Base.{ℕ, if◌then◌else◌, suc, ◌≡◌, not, none, zero}
use cpputest_for_freertos.Queue.{
  BaseType, is_null, x_queue_generic_send, is_recursive_mutex, send_to_back,
  internal_queue_receive_dummy, ux_queue_messages_waiting, x_queue_generic_create,
}

pub record Macros : Type 0 where
  pub x_semaphore_give : Ptr → M BaseType
  pub ux_semaphore_get_count : Ptr → M ℕ
  pub x_queue_create : (fresh : Ptr) → ℕ → ℕ → M Ptr
  pub give_calls :
      (p : Ptr) (w : World) → x_semaphore_give p w ≡ x_queue_generic_send p none send_to_back w
  pub count_calls :
      (p : Ptr) (w : World) → ux_semaphore_get_count p w ≡ ux_queue_messages_waiting p w
  pub create_calls :
      (fresh n size : ℕ) (w : World)
      → x_queue_create fresh n size w ≡ x_queue_generic_create fresh n size base w

unfoldable pub x_queue_semaphore_take : Ptr → M BaseType
x_queue_semaphore_take queue = do
  config_assert 36 (not (is_null queue))
  q ← deref queue
  config_assert 37 (not (is_recursive_mutex q.queue_type))
  (result, dummy) ← internal_queue_receive_dummy queue
  pure result

module _ (macros : Macros) where
  open macros use {x_semaphore_give, x_queue_create}

  unfoldable pub x_queue_give_from_isr : Ptr → M BaseType
  x_queue_give_from_isr queue = do
    config_assert 46 (not (is_null queue))
    q ← deref queue
    config_assert 47 (not (is_recursive_mutex q.queue_type))
    x_semaphore_give queue

  -- `for (int i = 0; i < initialCount; ++i)`, with the rounds that are left.
  unfoldable pub give_times : ℕ → Ptr → M (Unit {0})
  give_times zero sema = pure tt
  give_times (suc n) sema = x_semaphore_give sema >> give_times n sema

  unfoldable pub x_queue_create_counting_semaphore : (fresh : Ptr) → ℕ → ℕ → M Ptr
  unfolding give_times
  x_queue_create_counting_semaphore fresh max_count initial_count = do
    sema ← x_queue_create fresh (u8 max_count) 0
    if is_null sema then pure null else do give_times (u8 initial_count) sema; pure sema
