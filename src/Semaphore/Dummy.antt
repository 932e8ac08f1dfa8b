-- ===== src/Semaphore/Dummy.antt =====
-- `xQueueSemaphoreTake` of cpputest-for-freertos-lib/src/cpputest_for_freertos_semaphore.cpp
-- receives into a `uint64_t`, whatever the item size of the queue.
use cpputest_for_freertos.World.{◌>>=◌, World, Ptr, FakeQueue, Message, fault, store}
use cpputest_for_freertos.Queue.Step.{Holds, deref-ok, not_null, stored}
use cpputest_for_freertos.Semaphore.{x_queue_semaphore_take}
use cpputest_for_freertos.Queue.{internal_queue_receive_dummy, is_recursive_mutex, pd_true}
use cpputest_for_freertos.Base.{List, ◌≡◌, false, ◌∷◌, arith, length, if◌then◌else◌, leb}
use cpputest_for_freertos.World.{ok}

-- Taking from a live queue, of any kind but a recursive mutex, whose first message has the item
-- size: the message is received where items have at most 8 bytes; larger items write past the dummy
-- on the stack, which is undefined and which no assertion prevents.
pub semaphore_take_lem :
    {w : World} {p : Ptr} {q : FakeQueue} (m : Message) (ms : List Message)
    → Holds w p q
    → is_recursive_mutex q.queue_type ≡ false
    → q.queue ≡ m ∷ ms
    → length m ≡ q.item_size
    → x_queue_semaphore_take p w
      ≡ (if leb q.item_size 8 then ok pd_true (stored w p (record q { queue = ms })) else fault)
unfolding x_queue_semaphore_take internal_queue_receive_dummy store ◌>>=◌
semaphore_take_lem m ms h plain e sized = ground (arith, deref-ok h, not_null h)
