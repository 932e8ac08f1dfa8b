-- ===== src/QueueSet/Member.antt =====
-- Which queues a set takes in and lets go:
-- cpputest-for-freertos-lib/src/cpputest_for_freertos_queue_set.cpp.
use cpputest_for_freertos.World.{◌>>=◌, World, Ptr, FakeQueue, null, store, ok}
use cpputest_for_freertos.Queue.Step.{Holds, stored, deref-ok, not_null, Holds-stored}
use cpputest_for_freertos.Base.{◌≢◌, ◌≡◌, [], if◌then◌else◌, ◌==◌, ◌&&◌, arith, subst}
use cpputest_for_freertos.QueueSet.{x_queue_add_to_set, x_queue_remove_from_set, is_empty}
use cpputest_for_freertos.Queue.{is_null, pd_true, pd_false}

module _ {w : World} {p : Ptr} {q : FakeQueue} (h : Holds w p q) (s : Ptr) (n : s ≢ null) where
  -- Adding a live queue to a set, given by an address other than nullptr, succeeds exactly if the
  -- queue is in no set and holds no message; then it records the set, and otherwise nothing
  -- changes.
  pub add_to_set_lem : x_queue_add_to_set p s w ≡ (
      if is_null q.queue_set_container && is_empty q.queue
      then ok pd_true (stored w p (record q { queue_set_container = s }))
      else ok pd_false w)
  unfolding x_queue_add_to_set ◌>>=◌ store
  add_to_set_lem = ground (arith, deref-ok h, not_null h)

  -- Removing a live queue from a set, given by an address other than nullptr, succeeds exactly if
  -- the queue is in that set and holds no message; then it records no set, and otherwise nothing
  -- changes.
  pub remove_from_set_lem : x_queue_remove_from_set p s w ≡ (
      if q.queue_set_container == s && is_empty q.queue
      then ok pd_true (stored w p (record q { queue_set_container = null }))
      else ok pd_false w)
  unfolding x_queue_remove_from_set ◌>>=◌ store
  remove_from_set_lem = ground (arith, deref-ok h, not_null h)

-- An empty live queue in no set can be added to a set, given by an address other than nullptr, and
-- removed from it, and is then as it was before.
pub remove_from_set-add_to_set :
    {w : World} {p : Ptr} {q : FakeQueue} (h : Holds w p q) (s : Ptr)
    → s ≢ null
    → q.queue_set_container ≡ null
    → q.queue ≡ []
    → (w' : World) × (w'' : World) × (x_queue_add_to_set p s w ≡ ok pd_true w')
      × (x_queue_remove_from_set p s w' ≡ ok pd_true w'')
      × Holds w'' p q
remove_from_set-add_to_set {w} {p} {q} h s n free empty =
    let joined : FakeQueue = record q { queue_set_container = s } in
    let left : FakeQueue = record q { queue_set_container = null } in
    let h' : Holds (stored w p joined) p joined = Holds-stored h joined in
    (
      stored w p joined,
      stored (stored w p joined) p left,
      ground (arith, add_to_set_lem h s n),
      ground (arith, remove_from_set_lem h' s n),
      subst (Holds (stored (stored w p joined) p left) p) (ground arith) (Holds-stored h' left),
    )
