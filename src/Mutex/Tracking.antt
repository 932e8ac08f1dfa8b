-- ===== src/Mutex/Tracking.antt =====
-- The confirmation at the end of a test that no mutex is locked:
-- cpputest-for-freertos-lib/src/cpputest_for_freertos_mutex.cpp.
use cpputest_for_freertos.World.{◌>>=◌, World, FakeQueue, Ptr, Heap, ok, lookup, test_failed, erase}
use cpputest_for_freertos.Semaphore.{Macros}
use cpputest_for_freertos.Queue.Step.{Holds, waiting-length}
use cpputest_for_freertos.Base.{
  Option, List, Bool, length, All, ◌≡◌, false, ◌<◌, some, ◌∷◌, none, if◌then◌else◌, ◌||◌, inl,
  arith, inr, [], refl, Bool-cases, ◌==◌, ap, ◌∙◌,
}
use cpputest_for_freertos.Mutex.{any_locked, mutex_tracking_teardown, is_any_mutex_locked}
use cpputest_for_freertos.Queue.{remove}
use cpputest_for_freertos.QueueSet.{is_empty}
use cpputest_for_freertos.World.Heap.{lookup-erase}

-- A mutex is locked if its queue is empty.
abbrev pub is_locked : Option FakeQueue → Bool
is_locked none = false
is_locked (some q) = is_empty q.queue

abbrev pub some_locked : List Ptr → Heap → Bool
some_locked [] h = false
some_locked (m ∷ ms) h = is_locked (lookup m h) || some_locked ms h

-- A live queue of a length in a `UBaseType_t`.
abbrev pub IsAlive : World → Ptr → Type 0
IsAlive w m = (q : FakeQueue) × Holds w m q × (length q.queue < 256)

module _ (macros : Macros) where
  open macros use {ux_semaphore_get_count, count_calls}

  -- The scan of live mutexes finds whether one is locked, and changes nothing.
  pub any_locked-some_locked :
      (ms : List Ptr) (w : World)
      → All (IsAlive w) ms
      → any_locked macros ms w ≡ ok (some_locked ms w.heap) w
  unfolding any_locked ◌>>=◌
  any_locked-some_locked [] w a = refl
  any_locked-some_locked (m ∷ ms) w ((q, h, small), a) =
      ground
        (arith, count_calls m w, waiting-length h small, any_locked-some_locked ms w a, h.found)

  -- Let mutexes be tracked, each a live object with fewer than 256 messages. Then the end of the
  -- tracking gives up the list, and fails the test exactly if one of them has no token. The macro
  -- counts as FreeRTOS documents.
  pub mutex_tracking_teardown_lem :
      (ms : List Ptr) (w : World)
      → w.mutexes ≡ some ms
      → All (IsAlive w) ms
      → let w' = record w { mutexes = none } in
        mutex_tracking_teardown macros w
        ≡ (if some_locked ms w.heap then test_failed w' else ok tt w')
  unfolding mutex_tracking_teardown is_any_mutex_locked ◌>>=◌
  mutex_tracking_teardown_lem ms w e a = ground (arith, any_locked-some_locked ms w a)

-- After the deletion of a mutex the others are tracked, and are still alive.
pub remove-IsAlive :
    (p : Ptr) (ms : List Ptr) (w w' : World)
    → w'.heap ≡ erase p w.heap
    → All (IsAlive w) ms
    → All (IsAlive w') (remove p ms)
unfolding remove
remove-IsAlive p [] w w' e a = tt
remove-IsAlive p (m ∷ ms) w w' e (l, a) = elim (Bool-cases (m == p)) [
  | inl same ↦ rw same (remove-IsAlive p ms w w' e a)
  | inr other ↦
      let there : lookup m w'.heap ≡ some l.0 =
        ap (lookup m) e ∙ ground (arith, lookup-erase m p w.heap, l.1.found) in
      rw other
        ((l.0, record { ne_null = l.1.ne_null; found = there }, l.2), remove-IsAlive p ms w w' e a)
]
