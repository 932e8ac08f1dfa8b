-- ===== src/Library/Calls.antt =====
-- Any sequence of the calls of cpputest-for-freertos-lib/src on queues, sets, semaphores and
-- mutexes.
use cpputest_for_freertos.World.{Ptr, null, Message, QueueType, M, pure, ◌>>◌}
use cpputest_for_freertos.Queue.{
  CopyPosition, x_queue_generic_create, x_queue_generic_create_static, v_queue_delete,
  ux_queue_messages_waiting, ux_queue_spaces_available, x_queue_receive, x_queue_peek,
  x_queue_generic_send, v_queue_add_to_registry, pc_queue_get_name, v_queue_unregister_queue,
}
use cpputest_for_freertos.Base.{ℕ, ◌≢◌, List, Option, ◌∷◌, []}
use cpputest_for_freertos.Semaphore.{
  Macros, x_queue_semaphore_take, x_queue_give_from_isr, x_queue_create_counting_semaphore,
}
use cpputest_for_freertos.World.Ensures.{Keeps, Any, bind, Keeps-pure}
use cpputest_for_freertos.Queue.Inv.{IsWf, Keeps-x_queue_generic_send}
use cpputest_for_freertos.Queue.Inv.Calls.{
  Keeps-x_queue_generic_create, Keeps-v_queue_delete, Keeps-ux_queue_messages_waiting,
  Keeps-ux_queue_spaces_available, Keeps-x_queue_receive, Keeps-x_queue_peek,
  Keeps-v_queue_add_to_registry, Keeps-pc_queue_get_name, Keeps-v_queue_unregister_queue,
}
use cpputest_for_freertos.QueueSet.{
  x_queue_create_set, x_queue_add_to_set, x_queue_remove_from_set, x_queue_select_from_set,
}
use cpputest_for_freertos.QueueSet.Inv.{
  Keeps-x_queue_create_set, Keeps-x_queue_add_to_set, Keeps-x_queue_remove_from_set,
  Keeps-x_queue_select_from_set,
}
use cpputest_for_freertos.Mutex.{
  x_queue_create_mutex, x_queue_take_mutex_recursive, x_queue_give_mutex_recursive,
  mutex_tracking_init, mutex_tracking_teardown, is_any_mutex_locked,
}
use cpputest_for_freertos.Semaphore.Inv.{
  Keeps-x_queue_semaphore_take, Keeps-x_queue_give_from_isr,
  Keeps-x_queue_create_counting_semaphore,
}
use cpputest_for_freertos.Mutex.Inv.{
  Keeps-x_queue_create_mutex, Keeps-x_queue_take_mutex_recursive,
  Keeps-x_queue_give_mutex_recursive, Keeps-mutex_tracking_init, Keeps-mutex_tracking_teardown,
  Keeps-is_any_mutex_locked,
}

-- A call with its arguments. A call that makes an object has the address that `new` returns, which
-- is not `nullptr`.
pub data Call : Type 0 where
  generic_create : (fresh length size : ℕ) → QueueType → fresh ≢ null → Call
  create_static : (fresh length size storage block : ℕ) → QueueType → fresh ≢ null → Call
  delete messages_waiting spaces_available : Ptr → Call
  receive peek : Ptr → Option ℕ → Call
  send : Ptr → Option Message → CopyPosition → Call
  add_to_registry : (queue name : Ptr) → Call
  get_name unregister : Ptr → Call
  create_set : (fresh length : ℕ) → fresh ≢ null → Call
  add_to_set remove_from_set : (member set : Ptr) → Call
  select_from_set semaphore_take give_from_isr : Ptr → Call
  create_counting : (fresh limit initial : ℕ) → fresh ≢ null → Call
  create_mutex : (fresh : ℕ) → QueueType → fresh ≢ null → Call
  take_recursive give_recursive : Ptr → Call
  tracking_init tracking_teardown is_any_locked : Call

abbrev pub discard : {A : Type 0} → M A → M (Unit {0})
discard m = m >> pure tt

module _ (macros : Macros) where
  unfoldable pub perform : Call → M (Unit {0})
  perform (generic_create fresh n size type ne) = discard (x_queue_generic_create fresh n size type)
  perform (create_static fresh n size storage block type ne) =
      discard (x_queue_generic_create_static fresh n size storage block type)
  perform (delete p) = v_queue_delete p
  perform (messages_waiting p) = discard (ux_queue_messages_waiting p)
  perform (spaces_available p) = discard (ux_queue_spaces_available p)
  perform (receive p buffer) = discard (x_queue_receive p buffer)
  perform (peek p buffer) = discard (x_queue_peek p buffer)
  perform (send p item position) = discard (x_queue_generic_send p item position)
  perform (add_to_registry p name) = v_queue_add_to_registry p name
  perform (get_name p) = discard (pc_queue_get_name p)
  perform (unregister p) = v_queue_unregister_queue p
  perform (create_set fresh n ne) = discard (x_queue_create_set fresh n)
  perform (add_to_set p s) = discard (x_queue_add_to_set p s)
  perform (remove_from_set p s) = discard (x_queue_remove_from_set p s)
  perform (select_from_set s) = discard (x_queue_select_from_set s)
  perform (semaphore_take p) = discard (x_queue_semaphore_take p)
  perform (give_from_isr p) = discard (x_queue_give_from_isr macros p)
  perform (create_counting fresh n initial ne) =
      discard (x_queue_create_counting_semaphore macros fresh n initial)
  perform (create_mutex fresh type ne) = discard (x_queue_create_mutex macros fresh type)
  perform (take_recursive p) = discard (x_queue_take_mutex_recursive macros p)
  perform (give_recursive p) = discard (x_queue_give_mutex_recursive macros p)
  perform tracking_init = mutex_tracking_init
  perform tracking_teardown = mutex_tracking_teardown macros
  perform is_any_locked = discard (is_any_mutex_locked macros)

  unfoldable pub perform_calls : List Call → M (Unit {0})
  perform_calls [] = pure tt
  perform_calls (c ∷ cs) = perform c >> perform_calls cs

  Keeps-discard :
      {A : Type 0} {Q : A → Type 0} (m : M A) → Keeps IsWf Q m → Keeps IsWf Any (discard m)
  Keeps-discard m k = bind k λ _ _. Keeps-pure _ tt tt

  Keeps-perform : (c : Call) → Keeps IsWf Any (perform c)
  unfolding perform x_queue_generic_create_static
  Keeps-perform (generic_create fresh n size type ne) =
      Keeps-discard _ (Keeps-x_queue_generic_create fresh n size type ne)
  Keeps-perform (create_static fresh n size storage block type ne) =
      Keeps-discard _ (Keeps-x_queue_generic_create fresh n size type ne)
  Keeps-perform (delete p) = Keeps-v_queue_delete p
  Keeps-perform (messages_waiting p) = Keeps-discard _ (Keeps-ux_queue_messages_waiting p)
  Keeps-perform (spaces_available p) = Keeps-discard _ (Keeps-ux_queue_spaces_available p)
  Keeps-perform (receive p buffer) = Keeps-discard _ (Keeps-x_queue_receive p buffer)
  Keeps-perform (peek p buffer) = Keeps-discard _ (Keeps-x_queue_peek p buffer)
  Keeps-perform (send p item position) =
      Keeps-discard _ (Keeps-x_queue_generic_send p item position)
  Keeps-perform (add_to_registry p name) = Keeps-v_queue_add_to_registry p name
  Keeps-perform (get_name p) = Keeps-discard _ (Keeps-pc_queue_get_name p)
  Keeps-perform (unregister p) = Keeps-v_queue_unregister_queue p
  Keeps-perform (create_set fresh n ne) = Keeps-discard _ (Keeps-x_queue_create_set fresh n ne)
  Keeps-perform (add_to_set p s) = Keeps-discard _ (Keeps-x_queue_add_to_set p s)
  Keeps-perform (remove_from_set p s) = Keeps-discard _ (Keeps-x_queue_remove_from_set p s)
  Keeps-perform (select_from_set s) = Keeps-discard _ (Keeps-x_queue_select_from_set s)
  Keeps-perform (semaphore_take p) = Keeps-discard _ (Keeps-x_queue_semaphore_take p)
  Keeps-perform (give_from_isr p) = Keeps-discard _ (Keeps-x_queue_give_from_isr macros p)
  Keeps-perform (create_counting fresh n initial ne) =
      Keeps-discard _ (Keeps-x_queue_create_counting_semaphore macros fresh n initial ne)
  Keeps-perform (create_mutex fresh type ne) =
      Keeps-discard _ (Keeps-x_queue_create_mutex macros fresh type ne)
  Keeps-perform (take_recursive p) = Keeps-discard _ (Keeps-x_queue_take_mutex_recursive macros p)
  Keeps-perform (give_recursive p) = Keeps-discard _ (Keeps-x_queue_give_mutex_recursive macros p)
  Keeps-perform tracking_init = Keeps-mutex_tracking_init
  Keeps-perform tracking_teardown = Keeps-mutex_tracking_teardown macros
  Keeps-perform is_any_locked = Keeps-discard _ (Keeps-is_any_mutex_locked macros)

  -- Let every object on the heap be a queue at an address other than nullptr whose messages have
  -- its item size and are no more than its length, with a length and an item size below 256. Then
  -- this holds of the world in which a sequence of calls on queues, sets, semaphores and mutexes
  -- ends, however it ends other than in undefined behaviour, provided that `new` returns no
  -- nullptr. The macros give, count and create as FreeRTOS documents.
  pub Keeps-perform_calls : (cs : List Call) → Keeps IsWf Any (perform_calls cs)
  unfolding perform_calls
  Keeps-perform_calls [] = Keeps-pure _ tt tt
  Keeps-perform_calls (c ∷ cs) = bind (Keeps-perform c) λ _ _. Keeps-perform_calls cs
