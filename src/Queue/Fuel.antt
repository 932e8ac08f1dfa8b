-- ===== src/Queue/Fuel.antt =====
-- How far the notifications of sets go that `xQueueGenericSend` of
-- cpputest-for-freertos-lib/src/cpputest_for_freertos_queue.cpp makes. Each puts a message into a
-- queue that has room.
use cpputest_for_freertos.Base.{
  ℕ, zero, suc, ◌≤◌, ◌<◌, ◌≡◌, ◌≢◌, refl, inl, inr, Option, none, some, [], ◌∷◌, ◌++◌, arith, take,
  length-append, Option-cases, List, ◌∙◌, ap,
}
use cpputest_for_freertos.World.{
  Ptr, Message, FakeQueue, World, Outcome, ok, asserted, test_failed, fault, out_of_fuel, lookup,
  spaces, total_spaces, M, ◌>>=◌,
}
use cpputest_for_freertos.World.Heap.{total_spaces-insert}
use cpputest_for_freertos.Queue.{
  BaseType, CopyPosition, send_to_back, send_to_front, overwrite, other_position, send_one,
  send_loop, notify, x_queue_generic_send, pointer_bytes,
}

abbrev sent : FakeQueue → Option Message → Message
sent q none = []
sent q (some bytes) = take q.item_size bytes

abbrev rest : List Message → List Message
rest [] = []
rest (m ∷ ms) = ms

module _ (p : Ptr) (item : Option Message) (w : World) where
  send_one-ne_out_of_fuel : (position : CopyPosition) → send_one p item position w ≢ out_of_fuel
  unfolding send_one ◌>>=◌
  send_one-ne_out_of_fuel position e = ground arith

  send_one_shrinks :
      {c : Ptr} {w' : World}
      → send_one p item send_to_back w ≡ ok (some c) w'
      → total_spaces w'.heap < total_spaces w.heap
  unfolding send_one spaces ◌>>=◌
  send_one_shrinks e = elim (Option-cases (lookup p w.heap)) [
    | inl gone ↦ ground arith
    | inr (q, found) ↦ ground (
      arith,
      total_spaces-insert p (record q { queue = q.queue ++ sent q item ∷ [] }) q w.heap,
      length-append q.queue (sent q item ∷ []),
    )
  ]

  send_one_le :
      (position : CopyPosition) {c : Ptr} {w' : World}
      → send_one p item position w ≡ ok (some c) w'
      → total_spaces w'.heap ≤ total_spaces w.heap
  unfolding send_one spaces ◌>>=◌
  send_one_le send_to_back e = omega (arith, send_one_shrinks e)
  send_one_le other_position e = ground arith
  send_one_le send_to_front e = elim (Option-cases (lookup p w.heap)) [
    | inl gone ↦ ground arith
    | inr (q, found) ↦
        ground (arith, total_spaces-insert p (record q { queue = sent q item ∷ q.queue }) q w.heap)
  ]
  send_one_le overwrite e = elim (Option-cases (lookup p w.heap)) [
    | inl gone ↦ ground arith
    | inr (q, found) ↦
        ground
          (arith, total_spaces-insert p (record q { queue = sent q item ∷ rest q.queue }) q w.heap)
  ]

bind-ne_out_of_fuel :
    {A B : Type 0} (r : Outcome A) (k : A → M B) (w : World)
    → r ≢ out_of_fuel
    → ((a : A) (w' : World) → r ≡ ok a w' → k a w' ≢ out_of_fuel)
    → ◌>>=◌ (λ _. r) k w ≢ out_of_fuel
unfolding ◌>>=◌
bind-ne_out_of_fuel (ok a w') k w first next = next a w' refl
bind-ne_out_of_fuel (asserted line w') k w first next = λ e. cc
bind-ne_out_of_fuel (test_failed w') k w first next = λ e. cc
bind-ne_out_of_fuel fault k w first next = λ e. cc
bind-ne_out_of_fuel out_of_fuel k w first next = absurd (first refl)

notify-ne_out_of_fuel :
    (send : Ptr → Option Message → CopyPosition → M BaseType) (p : Ptr) (c : Option Ptr) (w : World)
    → ((d : Ptr) → c ≡ some d → send d (some (pointer_bytes p)) send_to_back w ≢ out_of_fuel)
    → notify send p c w ≢ out_of_fuel
unfolding ◌>>=◌
notify-ne_out_of_fuel send p none w h e = cc
notify-ne_out_of_fuel send p (some c) w h e = ground (arith, h c refl)

send_loop-ne_out_of_fuel :
    (fuel : ℕ) (p : Ptr) (item : Option Message) (w : World)
    → total_spaces w.heap < fuel
    → send_loop fuel p item send_to_back w ≢ out_of_fuel
unfolding send_loop ◌>>=◌
send_loop-ne_out_of_fuel zero p item w enough = absurd (omega arith)
send_loop-ne_out_of_fuel (suc fuel) p item w enough =
    bind-ne_out_of_fuel (send_one p item send_to_back w) (notify (send_loop fuel) p) w
      (send_one-ne_out_of_fuel p item w send_to_back)
      λ c w' e. notify-ne_out_of_fuel (send_loop fuel) p c w' λ d found.
        send_loop-ne_out_of_fuel fuel d (some (pointer_bytes p)) w'
          (omega (arith, send_one_shrinks p item w (e ∙ ap (λ x. ok x w') found)))

-- A send never runs out of fuel, whatever item, position and heap it is given: it ends also when
-- sets contain one another.
pub x_queue_generic_send-ne_out_of_fuel :
    (p : Ptr) (item : Option Message) (position : CopyPosition) (w : World)
    → x_queue_generic_send p item position w ≢ out_of_fuel
unfolding x_queue_generic_send send_loop ◌>>=◌
x_queue_generic_send-ne_out_of_fuel p item position w =
    bind-ne_out_of_fuel (send_one p item position w) (notify (send_loop fuel) p) w
      (send_one-ne_out_of_fuel p item w position)
      λ c w' e. notify-ne_out_of_fuel (send_loop fuel) p c w' λ d found.
        send_loop-ne_out_of_fuel fuel d (some (pointer_bytes p)) w'
          (omega (arith, send_one_le p item w position (e ∙ ap (λ x. ok x w') found)))
  where
    fuel : ℕ
    fuel = suc (total_spaces w.heap)
