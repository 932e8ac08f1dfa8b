-- ===== src/QueueSet.antt =====
-- The fake queue sets of cpputest-for-freertos-lib/src/cpputest_for_freertos_queue_set.cpp. A set
-- is a queue whose items are the handles of members that have received a message.
pub mod Inv
pub mod Member
pub mod Order
use cpputest_for_freertos.World.{
  ◌>>◌, ◌>>=◌, Ptr, Message, M, set, pure, null, config_assert, deref, store,
}
use cpputest_for_freertos.Queue.{
  BaseType, x_queue_generic_create, x_queue_receive, pd_true, is_null, pd_false,
}
use cpputest_for_freertos.Base.{
  List, Bool, ℕ, true, false, ◌∷◌, some, if◌then◌else◌, [], not, ◌||◌, ◌==◌,
}
use cpputest_for_freertos.Base.Bytes.{of_bytes}

abbrev pub is_true : BaseType → Bool
is_true pd_true = true
is_true _ = false

abbrev pub is_empty : List Message → Bool
is_empty [] = true
is_empty (m ∷ ms) = false

-- `sizeof(QueueHandle_t)` is 8.
unfoldable pub x_queue_create_set : (fresh : Ptr) → ℕ → M Ptr
x_queue_create_set fresh event_queue_length = x_queue_generic_create fresh event_queue_length 8 set

unfoldable pub x_queue_add_to_set : (item_to_add set : Ptr) → M BaseType
x_queue_add_to_set item_to_add container = do
  config_assert 41 (not (is_null item_to_add))
  config_assert 42 (not (is_null container))
  q ← deref item_to_add
  if not (is_null q.queue_set_container) || not (is_empty q.queue)
      then pure pd_false
      else do store item_to_add (record q { queue_set_container = container }); pure pd_true

unfoldable pub x_queue_remove_from_set : (item_to_remove set : Ptr) → M BaseType
x_queue_remove_from_set item_to_remove container = do
  config_assert 60 (not (is_null item_to_remove))
  config_assert 61 (not (is_null container))
  q ← deref item_to_remove
  if not (q.queue_set_container == container) || not (is_empty q.queue)
      then pure pd_false
      else do store item_to_remove (record q { queue_set_container = null }); pure pd_true

-- The bytes that `xQueueReceive` writes go into the 8 bytes of `rtnItem`, which starts as `nullptr`.
unfoldable pub x_queue_select_from_set : Ptr → M Ptr
x_queue_select_from_set queue_set = do
  (result, bytes) ← x_queue_receive queue_set (some 8)
  if is_true result then pure (of_bytes bytes) else pure null
