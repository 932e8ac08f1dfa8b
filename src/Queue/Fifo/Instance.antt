-- ===== src/Queue/Fifo/Instance.antt =====
-- The operations of the interface of Service/EventQueue on the fake queue of
-- cpputest-for-freertos-lib/src/cpputest_for_freertos_queue.cpp, and its laws.
use cpputest_for_freertos.World.{World, Ptr, Message, null, base}
use cpputest_for_freertos.Queue.Fifo.Spec
use cpputest_for_freertos.Queue.Fifo.Events.{
  Layout, FakeEvents, contents_of, succeeded, reply, number_of, after, left, fits,
}
use cpputest_for_freertos.Queue.Fifo.Spec.{Op, Reply, send, receive, waiting, result, got, number}
use cpputest_for_freertos.Queue.{send_to_back, send_to_front, pd_true, new_queue, err_queue_full}
use cpputest_for_freertos.Service.EventQueue.{EventQueue}
use cpputest_for_freertos.Base.{
  take, Bool, length, ◌≤◌, List, Option, ℕ, ◌≡◌, ◌≢◌, take-length, ◌<◌, ltb, map, false, some, [],
  ◌∷◌, sym, true, arith, none, ap, List-cases, length-map, subst, ◌∙◌, ◌++◌, inl, refl, map-append,
  inr,
}
use cpputest_for_freertos.Queue.Step.{stored}
use cpputest_for_freertos.World.Heap.{lookup-insert_self}

module _ {E : Type 0} (layout : Layout E) where
  open layout use {encode, decode, size, depth, sized, decodes, small_size, small_depth}

  whole : (q : FakeEvents layout) (e : E) → take q.value.item_size (encode e) ≡ encode e
  whole q e = rw (q.size_is, ← sized e) (take-length (encode e))

  back : (q : FakeEvents layout) → E → Bool × FakeEvents layout
  back q e =
      let o : Op = send (encode e) send_to_back in
      (succeeded (reply layout q o), after layout q o (fits layout q e))

  front : (q : FakeEvents layout) → E → Bool × FakeEvents layout
  front q e =
      let o : Op = send (encode e) send_to_front in
      (succeeded (reply layout q o), after layout q o (fits layout q e))

  room-of :
      (q : FakeEvents layout)
      → length (contents_of layout q) < depth
      → ltb (length q.value.queue) q.value.queue_length ≡ true
  room-of q room = ground (arith, length-map decode q.value.queue, q.depth_is, room)

  full-of :
      (q : FakeEvents layout)
      → depth ≤ length (contents_of layout q)
      → ltb (length q.value.queue) q.value.queue_length ≡ false
  full-of q full = ground (arith, length-map decode q.value.queue, q.depth_is, full)

  put :
      (q : FakeEvents layout) (o : Op) (r : Reply) (ms : List Message) {es : List E}
      → Spec.step q.value.queue_length q.value.item_size q.value.queue o ≡ (r, ms)
      → map decode ms ≡ es
      → (succeeded (reply layout q o) ≡ succeeded r) × (map decode (left layout q o) ≡ es)
  put q o r ms e f = (ap (λ x. succeeded x.0) e, ap (λ x. map decode x.1) e ∙ f)

  back-room :
      (e : E) (q : FakeEvents layout)
      → length (contents_of layout q) < depth
      → ((back q e).0 ≡ true) × (contents_of layout (back q e).1 ≡ contents_of layout q ++ e ∷ [])
  unfolding back
  back-room e q room =
      put q (send (encode e) send_to_back) (result pd_true) (q.value.queue ++ encode e ∷ [])
        (rw (room-of q room, whole q e) refl)
        (map-append decode q.value.queue (encode e ∷ [])
          ∙ ap (λ x. contents_of layout q ++ x ∷ []) (decodes e))

  back-full :
      (e : E) (q : FakeEvents layout)
      → depth ≤ length (contents_of layout q)
      → ((back q e).0 ≡ false) × (contents_of layout (back q e).1 ≡ contents_of layout q)
  unfolding back
  back-full e q full =
      put q (send (encode e) send_to_back) (result err_queue_full) q.value.queue
        (rw (full-of q full) refl) refl

  front-room :
      (e : E) (q : FakeEvents layout)
      → length (contents_of layout q) < depth
      → ((front q e).0 ≡ true) × (contents_of layout (front q e).1 ≡ e ∷ contents_of layout q)
  unfolding front
  front-room e q room =
      put q (send (encode e) send_to_front) (result pd_true) (encode e ∷ q.value.queue)
        (rw (room-of q room, whole q e) refl) (ap (λ x. x ∷ contents_of layout q) (decodes e))

  front-full :
      (e : E) (q : FakeEvents layout)
      → depth ≤ length (contents_of layout q)
      → ((front q e).0 ≡ false) × (contents_of layout (front q e).1 ≡ contents_of layout q)
  unfolding front
  front-full e q full =
      put q (send (encode e) send_to_front) (result err_queue_full) q.value.queue
        (rw (full-of q full) refl) refl

  -- `xQueueReceive` into a buffer for one event, and the event in it.
  event_in : Reply → Option E
  event_in (got pd_true m) = some (decode m)
  event_in _ = none

  take_first : FakeEvents layout → Option E × FakeEvents layout
  take_first q = (
    event_in (reply layout q (receive q.value.item_size)),
    after layout q (receive q.value.item_size) (omega arith),
  )

  -- What a receive makes of the messages `ms`.
  receives :
      (q : FakeEvents layout) (ms : List Message)
      → q.value.queue ≡ ms
      → let (r, ns) = Spec.first depth size ms (Spec.rest depth size ms) in
        ((take_first q).0 ≡ event_in r) × (contents_of layout (take_first q).1 ≡ map decode ns)
  unfolding take_first
  receives q ms e = (
    ap (λ xs. event_in (Spec.first depth size xs (Spec.rest depth size xs)).0) e,
    ap (λ xs. map decode (Spec.first depth size xs (Spec.rest depth size xs)).1) e,
  )

  receive-none :
      (q : FakeEvents layout)
      → contents_of layout q ≡ []
      → ((take_first q).0 ≡ none) × (contents_of layout (take_first q).1 ≡ [])
  unfolding event_in
  receive-none q empty = elim (List-cases q.value.queue) [
    | inl e ↦ receives q [] e
    | inr (m, ms, e) ↦ absurd (ground (arith, ap (map decode) (sym e) ∙ empty))
  ]

  receive-first :
      (q : FakeEvents layout) (e : E) (es : List E)
      → contents_of layout q ≡ e ∷ es
      → ((take_first q).0 ≡ some e) × (contents_of layout (take_first q).1 ≡ es)
  unfolding event_in
  receive-first q e es holds = elim (List-cases q.value.queue) [
    | inl none_waits ↦ absurd (ground (arith, ap (map decode) (sym none_waits) ∙ holds))
    | inr (m, ms, split) ↦
        let same : decode m ∷ map decode ms ≡ e ∷ es = ap (map decode) (sym split) ∙ holds in
        let at = receives q (m ∷ ms) split in
        (at.0 ∙ ap some (ground (arith, same)), at.1 ∙ ground (arith, same))
  ]

  count : FakeEvents layout → ℕ
  count q = number_of (reply layout q waiting)

  count-length : (q : FakeEvents layout) → count q ≡ length (contents_of layout q)
  unfolding count
  count-length q = sym (length-map decode q.value.queue)

  abbrev IsFresh : Option (FakeEvents layout) → Type 0
  IsFresh none = Unit
  IsFresh (some q) = contents_of layout q ≡ []

  module _ (w : World) (fresh : Ptr) (ne : fresh ≢ null) where
    -- The queue that `xQueueCreate` makes.
    pub made : FakeEvents layout
    made = record {
      world = stored w fresh (new_queue depth size base);
      handle = fresh;
      value = new_queue depth size base;
      models = record {
        holds = record { ne_null = ne; found = lookup-insert_self fresh _ w.heap };
        sound = record {
          sized = tt;
          bounded = omega arith;
          length_fits = small_depth;
          size_fits = small_size;
        };
        alone = refl;
      };
      depth_is = refl;
      size_is = refl;
    }

    made-empty : (q : FakeEvents layout) → some made ≡ some q → contents_of layout q ≡ []
    unfolding made
    made-empty q e = subst IsFresh e refl

    pub fake_events : EventQueue (FakeEvents layout) E depth
    fake_events = record {
      create = some made;
      send_to_back = λ e q. back q e;
      send_to_front = λ e q. front q e;
      receive = take_first;
      messages_waiting = count;
      contents = contents_of layout;
      create_empty = made-empty;
      back_room = back-room;
      back_full = back-full;
      front_room = front-room;
      front_full = front-full;
      receive_none = receive-none;
      receive_first = receive-first;
      waiting_length = count-length;
    }

    pub fake_events-create : EventQueue.create fake_events ≡ some made
    unfolding fake_events
    fake_events-create = refl
