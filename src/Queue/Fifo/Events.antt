-- ===== src/Queue/Fifo/Events.antt =====
-- The fake queue of cpputest-for-freertos-lib/src/cpputest_for_freertos_queue.cpp as an instance of
-- the interface of Service/EventQueue, for events that are stored in a number of bytes.
--
-- A value of the instance is a world with a queue in it. Each operation makes the call of the fake
-- queue on that world, and goes on in the world that the call leaves.
use cpputest_for_freertos.World.{World, FakeQueue, Ptr, Message, ok}
use cpputest_for_freertos.Queue.Fifo.Refine.{Models, perform_refines, with_queue}
use cpputest_for_freertos.Queue.Fifo.Spec
use cpputest_for_freertos.Queue.Fifo.Spec.{Op, Reply, send, receive, waiting, result, got, number}
use cpputest_for_freertos.Queue.{pd_true}
use cpputest_for_freertos.Base.{ℕ, ◌≡◌, Bool, List, ◌≤◌, length, ◌<◌, true, arith, map, false}
use cpputest_for_freertos.Queue.Fifo.{perform}

-- The size of an event and the length of the queue, with the events as bytes.
pub record Layout (E : Type 0) : Type 0 where
  pub encode : E → Message
  pub decode : Message → E
  pub size : ℕ
  pub depth : ℕ
  pub sized : (e : E) → length (encode e) ≡ size
  pub decodes : (e : E) → decode (encode e) ≡ e
  pub small_size : size < 256
  pub small_depth : depth < 256

pub record FakeEvents {E : Type 0} (layout : Layout E) : Type 0 where
  pub world : World
  pub handle : Ptr
  pub value : FakeQueue
  pub models : Models world handle value
  pub depth_is : value.queue_length ≡ layout.depth
  pub size_is : value.item_size ≡ layout.size

abbrev pub succeeded : Reply → Bool
succeeded (result pd_true) = true
succeeded (got pd_true m) = true
succeeded _ = false

abbrev pub number_of : Reply → ℕ
number_of (number n) = n
number_of _ = 0

module _ {E : Type 0} (layout : Layout E) where
  open layout use {encode, decode, size, depth, sized, decodes, small_size, small_depth}

  abbrev pub reply : FakeEvents layout → Op → Reply
  reply q o = (Spec.step q.value.queue_length q.value.item_size q.value.queue o).0

  abbrev pub left : FakeEvents layout → Op → List Message
  left q o = (Spec.step q.value.queue_length q.value.item_size q.value.queue o).1

  abbrev pub Permits : FakeEvents layout → Op → Type 0
  Permits q o = Spec.Allowed q.value.queue_length q.value.item_size q.value.queue o

  -- After a call.
  abbrev pub after : (q : FakeEvents layout) (o : Op) → Permits q o → FakeEvents layout
  after q o allowed =
      let run = perform_refines q.models o allowed in
      record {
        world = run.0;
        handle = q.handle;
        value = with_queue q.value (left q o);
        models = run.2;
        depth_is = q.depth_is;
        size_is = q.size_is;
      }

  -- The call on the world of `q` returns the reply, and leaves the world of `after`.
  pub perform-after :
      (q : FakeEvents layout) (o : Op) (allowed : Permits q o)
      → perform q.handle o q.world ≡ ok (reply q o) (after q o allowed).world
  perform-after q o allowed = (perform_refines q.models o allowed).1

  pub fits : (q : FakeEvents layout) (e : E) → q.value.item_size ≤ length (encode e)
  fits q e = omega (arith, sized e, q.size_is)

  abbrev pub contents_of : FakeEvents layout → List E
  contents_of q = map decode q.value.queue
