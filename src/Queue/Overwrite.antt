-- ===== src/Queue/Overwrite.antt =====
-- `queueOVERWRITE` in `xQueueGenericSend` of
-- cpputest-for-freertos-lib/src/cpputest_for_freertos_queue.cpp.
use cpputest_for_freertos.World.{
  ◌>>=◌, World, Ptr, FakeQueue, Message, asserted, fault, store, null,
}
use cpputest_for_freertos.Queue.Step.{Holds, deref-ok, not_null, stored}
use cpputest_for_freertos.Queue.{
  x_queue_generic_send, send_loop, send_one, overwrite, BaseType, pd_true,
}
use cpputest_for_freertos.Base.{
  ◌≡◌, [], ◌≤◌, length, some, arith, List, if◌then◌else◌, ◌∷◌, not, ◌==◌, take, List-cases, inl,
  inr,
}
use cpputest_for_freertos.World.{Outcome, ok}

-- What becomes of a queue of length 1 that holds `ms`.
abbrev pub overwritten : World → Ptr → FakeQueue → Message → List Message → Outcome BaseType
overwritten w p q m [] = fault
overwritten w p q m (front ∷ rest) = ok pd_true (stored w p (record q { queue = m ∷ rest }))

-- Overwriting, with a buffer of at least the item size, in a live queue that is in no set: a length
-- other than 1 fails the assertion on line 112 and changes nothing; the first message in a queue of
-- length 1 is replaced; in an empty queue of length 1 the code pops the front of an empty deque,
-- which is undefined.
pub overwrite_lem :
    {w : World} {p : Ptr} {q : FakeQueue} (bytes : Message)
    → Holds w p q
    → q.queue_set_container ≡ null
    → q.item_size ≤ length bytes
    → x_queue_generic_send p (some bytes) overwrite w ≡ (
        if not (q.queue_length == 1)
        then asserted 112 w
        else overwritten w p q (take q.item_size bytes) q.queue)
unfolding x_queue_generic_send send_loop send_one store ◌>>=◌
overwrite_lem {q = q} bytes h alone fits = elim (List-cases q.queue) [
  | inl e ↦ ground (arith, deref-ok h, not_null h, e)
  | inr (m, ms, e) ↦ ground (arith, deref-ok h, not_null h, e)
]
