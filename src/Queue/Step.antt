-- ===== src/Queue/Step.antt =====
-- What one step of cpputest-for-freertos-lib/src/cpputest_for_freertos_queue.cpp does to the queue
-- at an address.
use cpputest_for_freertos.Base.{
  ◌≤◌, ◌<◌, ◌≡◌, ◌≢◌, false, some, [], ◌∷◌, ◌++◌, arith, ◌==◌, length, take, eq-false_of_ne, List,
  Option, ◌-◌, ℕ, none,
}
use cpputest_for_freertos.World.Heap.{lookup-insert_self, lookup-insert_ne}
use cpputest_for_freertos.World.{
  Ptr, null, Message, FakeQueue, World, ok, lookup, insert, deref, ◌>>=◌,
}
use cpputest_for_freertos.Queue.{
  send_to_back, send_one, ux_queue_messages_waiting, ux_queue_spaces_available, x_queue_receive,
  x_queue_peek, CopyPosition, send_to_front, is_overwrite, overwrite, x_queue_generic_send,
  pd_false, pd_true, send_loop, err_queue_full, internal_queue_receive_dummy,
}

-- The world in which the object at `p` has a new value.
abbrev pub stored : World → Ptr → FakeQueue → World
stored w p q = record w { heap = insert p q w.heap }

-- `p` is the handle of the queue `q`.
pub record Holds (w : World) (p : Ptr) (q : FakeQueue) : Type 0 where
  pub ne_null : p ≢ null
  pub found : lookup p w.heap ≡ some q

module _ {w : World} {p : Ptr} {q : FakeQueue} (h : Holds w p q) where
  pub not_null : (p == null) ≡ false
  not_null = eq-false_of_ne p null h.ne_null

  pub deref-ok : deref p w ≡ ok q w
  unfolding deref
  deref-ok = rw h.found

  pub Holds-stored : (r : FakeQueue) → Holds (stored w p r) p r
  Holds-stored r = record { ne_null = h.ne_null; found = lookup-insert_self p r w.heap }

  pub frame-stored :
      (r : FakeQueue) (j : Ptr) → p ≢ j → lookup j (stored w p r).heap ≡ lookup j w.heap
  frame-stored r j n = lookup-insert_ne j p r w.heap n

  pub waiting-length : length q.queue < 256 → ux_queue_messages_waiting p w ≡ ok (length q.queue) w
  unfolding ux_queue_messages_waiting ◌>>=◌
  waiting-length small = ground (arith, deref-ok)

  pub available-spaces :
      length q.queue ≤ q.queue_length
      → q.queue_length < 256
      → ux_queue_spaces_available p w ≡ ok (q.queue_length - length q.queue) w
  unfolding ux_queue_spaces_available ◌>>=◌
  available-spaces le small = ground (arith, deref-ok)

  pub receive-nil :
      (room : ℕ) → q.queue ≡ [] → x_queue_receive p (some room) w ≡ ok (pd_false, []) w
  unfolding x_queue_receive ◌>>=◌
  receive-nil room e = ground (arith, deref-ok)

  -- The oldest message goes to the buffer.
  pub receive-cons :
      (room : ℕ) (m : Message) (ms : List Message)
      → q.queue ≡ m ∷ ms
      → q.item_size ≤ length m
      → q.item_size ≤ room
      → x_queue_receive p (some room) w
        ≡ ok (pd_true, take q.item_size m) (stored w p (record q { queue = ms }))
  unfolding x_queue_receive ◌>>=◌
  receive-cons room m ms e whole fits = ground (arith, deref-ok)

  pub dummy-nil : q.queue ≡ [] → internal_queue_receive_dummy p w ≡ ok (pd_false, []) w
  unfolding internal_queue_receive_dummy ◌>>=◌
  dummy-nil e = ground (arith, deref-ok)

  -- Into the 8 bytes on the stack.
  pub dummy-cons :
      (m : Message) (ms : List Message)
      → q.queue ≡ m ∷ ms
      → q.item_size ≤ length m
      → q.item_size ≤ 8
      → internal_queue_receive_dummy p w
        ≡ ok (pd_true, take q.item_size m) (stored w p (record q { queue = ms }))
  unfolding internal_queue_receive_dummy ◌>>=◌
  dummy-cons m ms e whole fits = ground (arith, deref-ok)

  pub peek-nil : (room : ℕ) → q.queue ≡ [] → x_queue_peek p (some room) w ≡ ok (pd_false, []) w
  unfolding x_queue_peek ◌>>=◌
  peek-nil room e = ground (arith, deref-ok)

  pub peek-cons :
      (room : ℕ) (m : Message) (ms : List Message)
      → q.queue ≡ m ∷ ms
      → q.item_size ≤ length m
      → q.item_size ≤ room
      → x_queue_peek p (some room) w ≡ ok (pd_true, take q.item_size m) w
  unfolding x_queue_peek ◌>>=◌
  peek-cons room m ms e whole fits = ground (arith, deref-ok)

  -- A full queue takes no message, whatever its sender gives.
  pub send_one-full :
      (bytes : Message) (position : CopyPosition)
      → is_overwrite position ≡ false
      → q.queue_length ≤ length q.queue
      → send_one p (some bytes) position w ≡ ok none w
  unfolding send_one ◌>>=◌
  send_one-full bytes position e full = ground (arith, deref-ok)

  module _ (bytes : Message) (fits : q.item_size ≤ length bytes) where
    pub send_one-back :
        length q.queue < q.queue_length
        → send_one p (some bytes) send_to_back w
          ≡ ok
              (some q.queue_set_container)
              (stored w p (record q { queue = q.queue ++ take q.item_size bytes ∷ [] }))
    unfolding send_one ◌>>=◌
    send_one-back room = ground (arith, deref-ok)

    pub send_one-front :
        length q.queue < q.queue_length
        → send_one p (some bytes) send_to_front w
          ≡ ok
              (some q.queue_set_container)
              (stored w p (record q { queue = take q.item_size bytes ∷ q.queue }))
    unfolding send_one ◌>>=◌
    send_one-front room = ground (arith, deref-ok)

    pub send_one-overwrite :
        (m : Message) (ms : List Message)
        → q.queue ≡ m ∷ ms
        → q.queue_length ≡ 1
        → send_one p (some bytes) overwrite w
          ≡ ok
              (some q.queue_set_container)
              (stored w p (record q { queue = take q.item_size bytes ∷ ms }))
    unfolding send_one ◌>>=◌
    send_one-overwrite m ms e one = ground (arith, deref-ok)

-- The result of a send follows from its first step, where the queue is in no set.
module _ (p : Ptr) (item : Option Message) (position : CopyPosition) (w w' : World) where
  pub send-refused :
      send_one p item position w ≡ ok none w'
      → x_queue_generic_send p item position w ≡ ok err_queue_full w'
  unfolding x_queue_generic_send send_loop ◌>>=◌
  send-refused e = rw (e, ◌>>=◌)

  pub send-no_set :
      send_one p item position w ≡ ok (some null) w'
      → x_queue_generic_send p item position w ≡ ok pd_true w'
  unfolding x_queue_generic_send send_loop ◌>>=◌
  send-no_set e = rw (e, ◌>>=◌)
