-- ===== src/QueueSet/Order.antt =====
-- The order in which a set hands out its members:
-- cpputest-for-freertos-lib/src/cpputest_for_freertos_queue_set.cpp with the notification of
-- `xQueueGenericSend`.
use cpputest_for_freertos.World.{◌>>=◌, World, Ptr, FakeQueue, null, ok, Message, M, pure}
use cpputest_for_freertos.Queue.Step.{
  Holds, stored, Holds-stored, receive-nil, receive-cons, send_one-back, send_one-full,
}
use cpputest_for_freertos.Base.Bytes.{to_bytes, of_bytes, of_bytes-to_bytes, length-to_bytes}
use cpputest_for_freertos.QueueSet.{x_queue_select_from_set}
use cpputest_for_freertos.Base.{
  ◌<◌, take, List, ◌^◌, [], ◌≡◌, ◌∷◌, refl, map, arith, Option, ◌≢◌, length, some, ◌++◌, ◌∙◌, ap,
  length-map, map-append, sym, ◌≤◌, All, none, ℕ, suc, zero,
}
use cpputest_for_freertos.Queue.{
  pointer_bytes, x_queue_generic_send, send_loop, CopyPosition, send_one, pd_true, send_to_back,
}
use cpputest_for_freertos.World.Heap.{lookup-insert_ne}

-- `s` is a set of a given length whose members `ps` wait to be selected, first to last.
pub record Pending (w : World) (s : Ptr) (r : FakeQueue) (ps : List Ptr) : Type 0 where
  pub holds : Holds w s r
  pub handles : r.item_size ≡ 8
  pub alone : r.queue_set_container ≡ null
  pub waits : r.queue ≡ map pointer_bytes ps

-- An address fits in a pointer.
abbrev pub IsAddress : Ptr → Type 0
IsAddress p = p < 256 ^ 8

pub of_bytes-pointer_bytes : (p : Ptr) → IsAddress p → of_bytes (pointer_bytes p) ≡ p
of_bytes-pointer_bytes p a = of_bytes-to_bytes 8 p a

pub take-pointer_bytes : (p : Ptr) → take 8 (pointer_bytes p) ≡ pointer_bytes p
unfolding to_bytes
take-pointer_bytes p = refl

-- Selecting from a set with nothing pending gives `nullptr` and changes nothing.
pub select-none :
    {w : World} {s : Ptr} {r : FakeQueue}
    → Pending w s r []
    → x_queue_select_from_set s w ≡ ok null w
unfolding x_queue_select_from_set ◌>>=◌
select-none v = rw (receive-nil v.holds 8 v.waits, ◌>>=◌)

-- Selecting gives the member that waits longest, and leaves the others waiting in their order.
pub select-first :
    {w : World} {s : Ptr} {r : FakeQueue} (p : Ptr) (ps : List Ptr)
    → IsAddress p
    → Pending w s r (p ∷ ps)
    → (w' : World) × (r' : FakeQueue) × (x_queue_select_from_set s w ≡ ok p w')
      × Pending w' s r' ps
      × (r'.queue_length ≡ r.queue_length)
unfolding x_queue_select_from_set ◌>>=◌
select-first {w} {s} {r} p ps a v =
    let r' : FakeQueue = record r { queue = map pointer_bytes ps } in
    (
      stored w s r',
      r',
      ground (
        arith,
        receive-cons v.holds 8 (pointer_bytes p) (map pointer_bytes ps) v.waits,
        length-to_bytes 8 p,
        take-pointer_bytes p,
        of_bytes-pointer_bytes p a,
      ),
      record {
        holds = Holds-stored v.holds r';
        handles = v.handles;
        alone = v.alone;
        waits = refl;
      },
      refl,
    )

module _ {w : World} {p s : Ptr} {q r : FakeQueue} {ps : List Ptr} where
  -- The send of a member, from its first step: the set has room, so the member waits in it.
  notified :
      (item : Option Message) (position : CopyPosition)
      → p ≢ s
      → Holds (stored w p q) p q
      → Pending w s r ps
      → length ps < r.queue_length
      → send_one p item position w ≡ ok (some s) (stored w p q)
      → (w' : World) × (r' : FakeQueue) × (x_queue_generic_send p item position w ≡ ok pd_true w')
        × Holds w' p q
        × Pending w' s r' (ps ++ p ∷ [])
        × (r'.queue_length ≡ r.queue_length)
  unfolding x_queue_generic_send send_loop ◌>>=◌
  notified item position other h v room e =
      let r' : FakeQueue = record r {
        queue = r.queue ++ take r.item_size (pointer_bytes p) ∷ [];
      } in
      let w₁ : World = stored w p q in
      let h₁ : Holds w₁ s r = record {
        ne_null = v.holds.ne_null;
        found = lookup-insert_ne s p q w.heap other ∙ v.holds.found;
      } in
      let told : send_one s (some (pointer_bytes p)) send_to_back w₁
          ≡ ok (some r.queue_set_container) (stored w₁ s r') =
        send_one-back h₁ (pointer_bytes p) (omega (arith, v.handles, length-to_bytes 8 p))
          (omega (arith, ap length v.waits, length-map pointer_bytes ps)) in
      let waits : r'.queue ≡ map pointer_bytes (ps ++ p ∷ []) =
        rw (v.waits, v.handles, take-pointer_bytes p, map-append) in
      (
        stored w₁ s r',
        r',
        rw (e, ◌>>=◌) (ground (arith, told, v.alone, h₁.ne_null)),
        record {
          ne_null = h.ne_null;
          found = lookup-insert_ne p s r' w₁.heap (λ e. other (sym e)) ∙ h.found;
        },
        record { holds = Holds-stored h₁ r'; handles = v.handles; alone = v.alone; waits = waits },
        refl,
      )

module _ {w : World} {p s : Ptr} {q r : FakeQueue} {ps : List Ptr} (m : Message) where
  -- Let a queue with room be a member of another queue that is a set with room, which is in no set
  -- itself. Then a send of a message of at least the item size to its back succeeds, puts the
  -- message behind the others, and puts the queue behind the members that wait in the set already.
  pub send_to_back-notifies :
      Holds w p q
      → q.queue_set_container ≡ s
      → length q.queue < q.queue_length
      → q.item_size ≤ length m
      → p ≢ s
      → Pending w s r ps
      → length ps < r.queue_length
      → (w' : World) × (r' : FakeQueue) × (x_queue_generic_send p (some m) send_to_back w
          ≡ ok pd_true w')
        × Holds w' p (record q { queue = q.queue ++ take q.item_size m ∷ [] })
        × Pending w' s r' (ps ++ p ∷ [])
        × (r'.queue_length ≡ r.queue_length)
  send_to_back-notifies h member room fits other v set_room =
      let q' : FakeQueue = record q { queue = q.queue ++ take q.item_size m ∷ [] } in
      notified (some m) send_to_back other (Holds-stored h q') v set_room
        (send_one-back h m fits room ∙ ap (λ c. ok (some c) (stored w p q')) member)

  -- Let a queue with room be a member of another queue that is a full set. Then a send of a message
  -- of at least the item size to its back succeeds and puts the message behind the others, but the
  -- members that wait in the set are those that waited before.
  pub send_to_back_full_set :
      Holds w p q
      → q.queue_set_container ≡ s
      → length q.queue < q.queue_length
      → q.item_size ≤ length m
      → p ≢ s
      → Pending w s r ps
      → r.queue_length ≤ length ps
      → let w' = stored w p (record q { queue = q.queue ++ take q.item_size m ∷ [] }) in
        (x_queue_generic_send p (some m) send_to_back w ≡ ok pd_true w') × Pending w' s r ps
  unfolding x_queue_generic_send send_loop ◌>>=◌
  send_to_back_full_set h member room fits other v full =
      let q' : FakeQueue = record q { queue = q.queue ++ take q.item_size m ∷ [] } in
      let h₁ : Holds (stored w p q') s r = record {
        ne_null = v.holds.ne_null;
        found = lookup-insert_ne s p q' w.heap other ∙ v.holds.found;
      } in
      let told : send_one s (some (pointer_bytes p)) send_to_back (stored w p q')
          ≡ ok none (stored w p q') =
        send_one-full h₁ (pointer_bytes p) send_to_back refl
          (omega (arith, ap length v.waits, length-map pointer_bytes ps)) in
      (
        ground (arith, send_one-back h m fits room, told, v.holds.ne_null),
        record { holds = h₁; handles = v.handles; alone = v.alone; waits = v.waits },
      )

-- A number of calls of `xQueueSelectFromSet`, with their results in order.
pub select_times : ℕ → Ptr → M (List Ptr)
select_times zero s = pure []
select_times (suc n) s = do
  selected ← x_queue_select_from_set s
  others ← select_times n s
  pure (selected ∷ others)

-- Let the set at an address be in no set and hold the handles of some members, each an address of 8
-- bytes. Then as many selections return these members, first in first out, and leave none pending.
pub select_times-Pending :
    (ps : List Ptr) {w : World} {s : Ptr} {r : FakeQueue}
    → All IsAddress ps
    → Pending w s r ps
    → (w' : World) × (r' : FakeQueue) × (select_times (length ps) s w ≡ ok ps w')
      × Pending w' s r' []
unfolding select_times ◌>>=◌
select_times-Pending [] {w} {s} {r} a v = (w, r, refl, v)
select_times-Pending (p ∷ ps) {w} {s} {r} a v =
    let (w', r', e, v', _) = select-first p ps a.0 v in
    let (w'', r'', e', v'') = select_times-Pending ps a.1 v' in (w'', r'', rw (e, ◌>>=◌, e'), v'')
