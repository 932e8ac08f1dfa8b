-- ===== src/Queue/Fifo/Refine.antt =====
-- The fake queue of cpputest-for-freertos-lib/src/cpputest_for_freertos_queue.cpp next to the
-- bounded queue of `Spec`.
use cpputest_for_freertos.Queue.Step.{
  Holds, stored, Holds-stored, frame-stored, send-refused, send-no_set, send_one-full,
  send_one-back, send_one-front, send_one-overwrite, waiting-length, receive-nil, peek-nil,
  available-spaces, receive-cons, peek-cons,
}
use cpputest_for_freertos.Queue.Inv.{IsSound}
use cpputest_for_freertos.Queue.Fifo.Spec
use cpputest_for_freertos.World.{World, FakeQueue, Ptr, Message, Outcome, null, ok, lookup, ◌>>=◌}
use cpputest_for_freertos.Base.{
  List, ◌≡◌, ◌≢◌, refl, ◌∷◌, All, ◌≤◌, length, subst, take, false, some, Bool-cases, ltb, ◌∙◌, inl,
  ap, ◌<◌, arith, All-append, length-take_of_le, [], inr, length-append, ℕ, List-cases, take-length,
}
use cpputest_for_freertos.Queue.Fifo.{perform, perform_all}
use cpputest_for_freertos.Queue.{
  CopyPosition, is_overwrite, send_one, send_to_back, send_to_front, err_queue_full, pd_true,
  overwrite, pd_false, other_position,
}
use cpputest_for_freertos.Queue.Fifo.Spec.{send, result, receive, got, peek, Op, waiting, available}

-- A sound queue that is in no set, and its messages.
pub record Models (w : World) (p : Ptr) (q : FakeQueue) : Type 0 where
  pub holds : Holds w p q
  pub sound : IsSound q
  pub alone : q.queue_set_container ≡ null

abbrev pub with_queue : FakeQueue → List Message → FakeQueue
with_queue q ms = record q { queue = ms }

-- `r` returns the reply `a` in a world where the queue at `p` holds `ms` and is otherwise `q`, and
-- every other object is as it was in `w`.
abbrev pub Gives : {A : Type 0} → World → Ptr → FakeQueue → Outcome A → A → List Message → Type 0
Gives w p q r a ms =
    (w' : World) × (r ≡ ok a w')
    × Models w' p (with_queue q ms)
    × ((j : Ptr) → p ≢ j → lookup j w'.heap ≡ lookup j w.heap)

module _ {w : World} {p : Ptr} {q : FakeQueue} (v : Models w p q) where
  stays : {A : Type 0} {r : Outcome A} {a : A} → r ≡ ok a w → Gives w p q r a q.queue
  stays e = (w, e, v, λ j n. refl)

  moves :
      {A : Type 0} {r : Outcome A} {a : A} (ms : List Message)
      → r ≡ ok a (stored w p (with_queue q ms))
      → IsSound (with_queue q ms)
      → Gives w p q r a ms
  moves ms e s = (
    stored w p (with_queue q ms),
    e,
    record { holds = Holds-stored v.holds _; sound = s; alone = v.alone },
    λ j n. frame-stored v.holds _ j n,
  )

  front_whole : (x : Message) (xs : List Message) → q.queue ≡ x ∷ xs → length x ≡ q.item_size
  front_whole x xs e = (subst (All (λ (m : Message). length m ≡ q.item_size)) e v.sound.sized).0

  with_messages :
      (ms : List Message)
      → All (λ (m : Message). length m ≡ q.item_size) ms
      → length ms ≤ q.queue_length
      → IsSound (with_queue q ms)
  with_messages ms sized bounded = record {
    sized = sized;
    bounded = bounded;
    length_fits = v.sound.length_fits;
    size_fits = v.sound.size_fits;
  }

  refused :
      (m : Message) (position : CopyPosition)
      → is_overwrite position ≡ false
      → q.queue_length ≤ length q.queue
      → perform p (send m position) w ≡ ok (result err_queue_full) w
  unfolding perform ◌>>=◌
  refused m position e full =
      rw (send-refused p (some m) position w w (send_one-full v.holds m position e full), ◌>>=◌)

  sent :
      (m : Message) (position : CopyPosition) (ms : List Message)
      → send_one p (some m) position w
        ≡ ok (some q.queue_set_container) (stored w p (with_queue q ms))
      → perform p (send m position) w ≡ ok (result pd_true) (stored w p (with_queue q ms))
  unfolding perform ◌>>=◌
  sent m position ms e = rw (
    send-no_set p (some m) position w (stored w p (with_queue q ms))
        (e ∙ ap (λ c. ok (some c) (stored w p (with_queue q ms))) v.alone),
    ◌>>=◌,
  )

  put_back-Gives :
      (m : Message)
      → q.item_size ≤ length m
      → let (a, ms) = Spec.put_back q.queue_length q.item_size q.queue (take q.item_size m) in
        Gives w p q (perform p (send m send_to_back) w) a ms
  put_back-Gives m fits = elim (Bool-cases (ltb (length q.queue) q.queue_length)) [
    | inl room ↦
        let less : length q.queue < q.queue_length = ground arith in
        rw room (
          moves _ (sent m send_to_back _ (send_one-back v.holds m fits less)) (
            with_messages _
              (All-append _ q.queue (take q.item_size m ∷ []) v.sound.sized
                (length-take_of_le _ m fits, tt))
              (omega (arith, length-append q.queue (take q.item_size m ∷ [])))))
    | inr full ↦ rw full (stays (refused m send_to_back refl (ground arith)))
  ]

  put_front-Gives :
      (m : Message)
      → q.item_size ≤ length m
      → let (a, ms) = Spec.put_front q.queue_length q.item_size q.queue (take q.item_size m) in
        Gives w p q (perform p (send m send_to_front) w) a ms
  put_front-Gives m fits = elim (Bool-cases (ltb (length q.queue) q.queue_length)) [
    | inl room ↦
        let less : length q.queue < q.queue_length = ground arith in
        rw room (
          moves _ (sent m send_to_front _ (send_one-front v.holds m fits less))
            (with_messages _ (length-take_of_le _ m fits, v.sound.sized) less))
    | inr full ↦ rw full (stays (refused m send_to_front refl (ground arith)))
  ]

  replace-Gives :
      (m : Message)
      → q.item_size ≤ length m
      → q.queue_length ≡ 1
      → q.queue ≢ []
      → let (a, ms) = Spec.replace q.queue_length q.item_size q.queue (take q.item_size m) in
        Gives w p q (perform p (send m overwrite) w) a ms
  replace-Gives m fits one some_message = elim (List-cases q.queue) [
    | inl e ↦ absurd (some_message e)
    | inr (x, xs, e) ↦
        let last : xs ≡ [] = ground (arith, ap length e, v.sound.bounded) in
        moves _ (sent m overwrite _ (send_one-overwrite v.holds m fits x [] (rw last at e) one))
          (with_messages _ (length-take_of_le _ m fits, tt) (omega arith))
  ]

  receive-Gives :
      (room : ℕ) (ms : List Message)
      → q.item_size ≤ room
      → q.queue ≡ ms
      → let (a, ns) = Spec.step q.queue_length q.item_size ms (receive room) in
        Gives w p q (perform p (receive room) w) a ns
  unfolding perform ◌>>=◌
  receive-Gives room [] fits e =
      subst (Gives w p q (perform p (receive room) w) (got pd_false [])) e
        (stays (rw (receive-nil v.holds room e, ◌>>=◌)))
  receive-Gives room (x ∷ xs) fits e =
      let whole : length x ≡ q.item_size = front_whole x xs e in
      moves xs
        (rw (receive-cons v.holds room x xs e (omega arith) fits, ◌>>=◌, ← whole, take-length x))
        (with_messages xs (subst (All _) e v.sound.sized).1
          (omega (arith, ap length e, v.sound.bounded)))

  peek-Gives :
      (room : ℕ) (ms : List Message)
      → q.item_size ≤ room
      → q.queue ≡ ms
      → let (a, ns) = Spec.step q.queue_length q.item_size ms (peek room) in
        Gives w p q (perform p (peek room) w) a ns
  unfolding perform ◌>>=◌
  peek-Gives room [] fits e =
      subst (Gives w p q (perform p (peek room) w) (got pd_false [])) e
        (stays (rw (peek-nil v.holds room e, ◌>>=◌)))
  peek-Gives room (x ∷ xs) fits e =
      let whole : length x ≡ q.item_size = front_whole x xs e in
      subst (Gives w p q (perform p (peek room) w) (got pd_true x)) e (
        stays
          (rw (peek-cons v.holds room x xs e (omega arith) fits, ◌>>=◌, ← whole, take-length x)))

  small : length q.queue < 256
  small = omega (arith, v.sound.bounded, v.sound.length_fits)

  -- Every operation that is allowed returns the reply of the bounded queue, leaves the queue at `p`
  -- with the messages of the bounded queue, and changes no other object.
  pub perform_refines :
      (o : Op)
      → Spec.Allowed q.queue_length q.item_size q.queue o
      → let (a, ms) = Spec.step q.queue_length q.item_size q.queue o in
        Gives w p q (perform p o w) a ms
  unfolding perform ◌>>=◌
  perform_refines (send m send_to_back) allowed = put_back-Gives m allowed
  perform_refines (send m send_to_front) allowed = put_front-Gives m allowed
  perform_refines (send m overwrite) allowed = replace-Gives m allowed.0 allowed.1 allowed.2
  perform_refines (send m other_position) allowed = absurd allowed
  perform_refines (receive room) allowed = receive-Gives room q.queue allowed refl
  perform_refines (peek room) allowed = peek-Gives room q.queue allowed refl
  perform_refines waiting allowed = stays (rw (waiting-length v.holds small, ◌>>=◌))
  perform_refines available allowed =
      stays (rw (available-spaces v.holds v.sound.bounded v.sound.length_fits, ◌>>=◌))

-- Let a live fake queue be in no set, hold messages of its item size, no more of them than its
-- length, and have a length and an item size below 256. Then a sequence of sends to the back, to
-- the front or overwriting, receives, peeks and counts of messages and spaces answers as the
-- bounded queue of its messages does, and changes no other object, provided that every buffer has
-- at least the item size, every position is one of the three, and an overwrite meets a queue of
-- length 1 that is not empty.
pub perform_all_refines :
    (os : List Op) {w : World} {p : Ptr} {q : FakeQueue}
    → Models w p q
    → Spec.AllAllowed q.queue_length q.item_size q.queue os
    → (w' : World) × (perform_all p os w ≡ ok (Spec.run q.queue_length q.item_size q.queue os) w')
      × ((j : Ptr) → p ≢ j → lookup j w'.heap ≡ lookup j w.heap)
unfolding perform_all ◌>>=◌
perform_all_refines [] {w} v allowed = (w, refl, λ j n. refl)
perform_all_refines (o ∷ os) {w} {p} {q} v allowed =
    let (w', e, v', same) = perform_refines v o allowed.0 in
    let (w'', e', same') = perform_all_refines os v' allowed.1 in
    (w'', rw (e, ◌>>=◌, e'), λ j n. same' j n ∙ same j n)
