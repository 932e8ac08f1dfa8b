-- ===== src/Queue.antt =====
-- The fake queues of cpputest-for-freertos-lib/src/cpputest_for_freertos_queue.cpp.
--
-- A `const void *` to send from is `none` for `nullptr` or the bytes that can be read there; a
-- `void *` to receive into is `none` or the number of bytes that can be written there. `ticks` is
-- not honored by the code, and left out. What `new` returns is the argument `fresh`.
pub mod Step
pub mod Fuel
pub mod Inv
pub mod Fifo
pub mod Overwrite
use cpputest_for_freertos.Base.{
  ℕ, zero, suc, ◌+◌, ◌-◌, Bool, true, false, not, ◌&&◌, Option, none, some, List, [], ◌∷◌, ◌++◌,
  ◌==◌, leb, if◌then◌else◌, length, take,
}
use cpputest_for_freertos.Base.Bytes.{to_bytes}
use cpputest_for_freertos.World.{
  Ptr, null, Message, QueueType, mutex, recursive_mutex, u8, FakeQueue, ok, out_of_fuel, M, pure,
  ◌>>=◌, ◌>>◌, config_assert, undefined, deref, store, delete, total_spaces,
}

-- pdTRUE and pdPASS, pdFALSE and pdFAIL, errQUEUE_FULL.
pub data BaseType : Type 0 where
  pd_true pd_false err_queue_full : BaseType

-- The values of `copyPosition` that the code tells apart.
pub data CopyPosition : Type 0 where
  send_to_back send_to_front overwrite other_position : CopyPosition

abbrev pub is_null : Ptr → Bool
is_null p = p == null

abbrev pub is_none {ℓ} : {A : Type ℓ} → Option A → Bool
is_none none = true
is_none (some a) = false

abbrev pub is_overwrite : CopyPosition → Bool
is_overwrite overwrite = true
is_overwrite _ = false

abbrev pub is_mutex : QueueType → Bool
is_mutex mutex = true
is_mutex _ = false

abbrev pub is_recursive_mutex : QueueType → Bool
is_recursive_mutex recursive_mutex = true
is_recursive_mutex _ = false

-- `memcpy` of `n` bytes out of a sender's buffer.
copy_in : Option Message → ℕ → M Message
copy_in none n = if n == 0 then pure [] else undefined
copy_in (some bytes) n = if leb n (length bytes) then pure (take n bytes) else undefined

-- `memcpy` of `n` bytes of a queued message into a receiver's buffer of `room` bytes.
pub copy_out : Message → ℕ → Option ℕ → M Message
copy_out message n none = if n == 0 then pure [] else undefined
copy_out message n (some room) =
    if leb n (length message) && leb n room then pure (take n message) else undefined

abbrev pub new_queue : ℕ → ℕ → QueueType → FakeQueue
new_queue queue_length item_size queue_type = record {
  queue_length = queue_length;
  item_size = item_size;
  queue_type = queue_type;
  queue = [];
  recursive_call_count = 0;
  registry_name = null;
  queue_set_container = null;
}

-- The arguments are converted to `UBaseType_t`.
unfoldable pub x_queue_generic_create : (fresh : Ptr) → ℕ → ℕ → QueueType → M Ptr
unfolding store
x_queue_generic_create fresh queue_length item_size queue_type =
    store fresh (new_queue (u8 queue_length) (u8 item_size) queue_type) >> pure fresh

-- The storage and the control block that the caller gives are ignored.
unfoldable pub x_queue_generic_create_static :
    (fresh : Ptr) → ℕ → ℕ → (queue_storage static_queue : Ptr) → QueueType → M Ptr
unfolding x_queue_generic_create
x_queue_generic_create_static fresh queue_length item_size queue_storage static_queue queue_type =
    x_queue_generic_create fresh queue_length item_size queue_type

unfoldable pub ux_queue_messages_waiting : Ptr → M ℕ
unfolding deref
ux_queue_messages_waiting queue = do
  config_assert 60 (not (is_null queue))
  q ← deref queue
  pure (u8 (length q.queue))

-- The difference is an `int`, converted to `UBaseType_t`.
unfoldable pub ux_queue_spaces_available : Ptr → M ℕ
unfolding ux_queue_messages_waiting
ux_queue_spaces_available queue = do
  config_assert 66 (not (is_null queue))
  q ← deref queue
  waiting ← ux_queue_messages_waiting queue
  pure (u8 (256 + q.queue_length - waiting))

-- The queue without its first message, which goes to the buffer.
pop_front : Ptr → FakeQueue → Option ℕ → List Message → M (BaseType × Message)
unfolding copy_out store
pop_front queue q buffer [] = pure (pd_false, [])
pop_front queue q buffer (front ∷ rest) = do
  bytes ← copy_out front q.item_size buffer
  store queue (record q { queue = rest })
  pure (pd_true, bytes)

-- `cms::InternalQueueReceive(queue, buffer)`: the result, and the bytes put into the buffer.
unfoldable pub internal_queue_receive : Ptr → Option ℕ → M (BaseType × Message)
unfolding deref pop_front
internal_queue_receive queue buffer = do
  config_assert 80 (not (is_null queue))
  q ← deref queue
  pop_front queue q buffer q.queue

-- `cms::InternalQueueReceive(queue)`, into a `uint64_t` on the stack.
unfoldable pub internal_queue_receive_dummy : Ptr → M (BaseType × Message)
unfolding internal_queue_receive
internal_queue_receive_dummy queue = do
  config_assert 72 (not (is_null queue))
  internal_queue_receive queue (some 8)

unfoldable pub x_queue_receive : Ptr → Option ℕ → M (BaseType × Message)
unfolding internal_queue_receive
x_queue_receive queue buffer = do
  config_assert 97 (not (is_null queue))
  config_assert 98 (not (is_none buffer))
  internal_queue_receive queue buffer

peek_front : FakeQueue → Option ℕ → List Message → M (BaseType × Message)
unfolding copy_out
peek_front q buffer [] = pure (pd_false, [])
peek_front q buffer (front ∷ rest) = do
  bytes ← copy_out front q.item_size buffer
  pure (pd_true, bytes)

unfoldable pub x_queue_peek : Ptr → Option ℕ → M (BaseType × Message)
unfolding deref peek_front
x_queue_peek queue buffer = do
  config_assert 152 (not (is_null queue))
  q ← deref queue
  peek_front q buffer q.queue

-- The message takes its place in the deque. `pop_front` of an empty deque is undefined.
overwrite_front : Ptr → FakeQueue → Message → List Message → M (Unit {0})
unfolding store
overwrite_front queue q msg [] = undefined
overwrite_front queue q msg (front ∷ rest) = store queue (record q { queue = msg ∷ rest })

place : Ptr → FakeQueue → Message → CopyPosition → M (Unit {0})
unfolding store overwrite_front
place queue q msg send_to_back = store queue (record q { queue = q.queue ++ msg ∷ [] })
place queue q msg send_to_front = store queue (record q { queue = msg ∷ q.queue })
place queue q msg overwrite = overwrite_front queue q msg q.queue
place queue q msg other_position = config_assert 139 false

-- `xQueueGenericSend` up to the notification of the queue's set: `none` where the queue is full,
-- else the set's address.
unfoldable pub send_one : Ptr → Option Message → CopyPosition → M (Option Ptr)
unfolding deref copy_in place
send_one queue item position = do
  config_assert 110 (not (is_null queue))
  q ← deref queue
  config_assert 111 (not (is_none item && not (q.item_size == 0)))
  config_assert 112 (not (is_overwrite position && not (q.queue_length == 1)))
  if not (is_overwrite position) && leb q.queue_length (length q.queue) then pure none else do
    msg ← copy_in item q.item_size
    place queue q msg position
    pure (some q.queue_set_container)

-- The 8 bytes of a pointer in the memory of the host.
abbrev pub pointer_bytes : Ptr → Message
pointer_bytes p = to_bytes 8 p

-- What follows `send_one`, with the recursive call that tells the set.
abbrev notify : (Ptr → Option Message → CopyPosition → M BaseType) → Ptr → Option Ptr → M BaseType
notify send queue none = pure err_queue_full
notify send queue (some container) =
    if is_null container
    then pure pd_true
    else (send container (some (pointer_bytes queue)) send_to_back >> pure pd_true)

unfoldable pub send_loop : ℕ → Ptr → Option Message → CopyPosition → M BaseType
send_loop zero queue item position w = out_of_fuel
send_loop (suc fuel) queue item position w =
    (send_one queue item position >>= notify (send_loop fuel) queue) w

unfoldable pub x_queue_generic_send : Ptr → Option Message → CopyPosition → M BaseType
x_queue_generic_send queue item position w =
    send_loop (suc (suc (total_spaces w.heap))) queue item position w

unfoldable pub v_queue_add_to_registry : Ptr → Ptr → M (Unit {0})
unfolding deref store
v_queue_add_to_registry queue queue_name = do
  config_assert 183 (not (is_null queue))
  config_assert 184 (not (is_null queue_name))
  q ← deref queue
  store queue (record q { registry_name = queue_name })

unfoldable pub pc_queue_get_name : Ptr → M Ptr
unfolding deref
pc_queue_get_name queue = do
  config_assert 190 (not (is_null queue))
  q ← deref queue
  pure q.registry_name

unfoldable pub v_queue_unregister_queue : Ptr → M (Unit {0})
unfolding deref store
v_queue_unregister_queue queue = do
  config_assert 196 (not (is_null queue))
  q ← deref queue
  store queue (record q { registry_name = null })

-- `s_mutexes->remove(mutex)`.
unfoldable pub remove : Ptr → List Ptr → List Ptr
remove p [] = []
remove p (m ∷ ms) = let rest = remove p ms in if m == p then rest else m ∷ rest

-- `cms::test::MutexAboutToDelete` of cpputest_for_freertos_mutex.cpp, which `vQueueDelete` calls.
unfoldable pub mutex_about_to_delete : Ptr → M (Unit {0})
mutex_about_to_delete handle w = elim w.mutexes [
  | none ↦ ok tt w
  | some ms ↦ ok tt (record w { mutexes = some (remove handle ms) })
]

unfoldable pub v_queue_delete : Ptr → M (Unit {0})
unfolding deref delete mutex_about_to_delete
v_queue_delete queue = do
  config_assert 50 (not (is_null queue))
  q ← deref queue
  if is_mutex q.queue_type then mutex_about_to_delete queue else pure tt
  delete queue
