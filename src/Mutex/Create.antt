-- ===== src/Mutex/Create.antt =====
-- `xQueueCreateMutex` and `vQueueDelete` of mutexes:
-- cpputest-for-freertos-lib/src/cpputest_for_freertos_mutex.cpp and
-- cpputest-for-freertos-lib/src/cpputest_for_freertos_queue.cpp.
use cpputest_for_freertos.World.{
  ◌>>=◌, Ptr, World, lookup, null, QueueType, FakeQueue, store, mutex, ok, recursive_mutex, erase,
  deref, fault,
}
use cpputest_for_freertos.Semaphore.{Macros}
use cpputest_for_freertos.Mutex.Depth.{IsRecursive}
use cpputest_for_freertos.Mutex.Tracking.{IsAlive, remove-IsAlive}
use cpputest_for_freertos.Queue.Step.{Holds, stored, deref-ok, not_null, Holds-stored, frame-stored}
use cpputest_for_freertos.Base.{◌≢◌, ◌≡◌, [], ◌∷◌, none, arith, refl, ◌∙◌, List, some, All}
use cpputest_for_freertos.Queue.{
  x_queue_generic_send, send_loop, x_queue_generic_create, new_queue, send_one, send_to_back,
  pd_true, v_queue_delete, ux_queue_messages_waiting, remove,
}
use cpputest_for_freertos.Mutex.{
  x_queue_create_mutex, set_mutexes, track, is_any_mutex_locked, any_locked,
}
use cpputest_for_freertos.Semaphore.Counter.{IsSemaphore}
use cpputest_for_freertos.World.Heap.{lookup-insert_self, lookup-insert_ne, lookup-erase_self}

-- Every object at another address is as it was.
abbrev pub SameElsewhere : Ptr → World → World → Type 0
SameElsewhere p w w' = (j : Ptr) → p ≢ j → lookup j w'.heap ≡ lookup j w.heap

module _ (macros : Macros) (fresh : Ptr) (w : World) (ne : fresh ≢ null) where
  open macros use {give_calls}

  abbrev made : QueueType → FakeQueue
  made type = record (new_queue 1 0 type) { queue = [] ∷ [] }

  given :
      (type : QueueType) (w' : World)
      → Holds w' fresh (new_queue 1 0 type)
      → x_queue_generic_send fresh none send_to_back w' ≡ ok pd_true (stored w' fresh (made type))
  unfolding x_queue_generic_send send_loop send_one ◌>>=◌ store
  given type w' h = ground (arith, deref-ok h, not_null h)

  -- A new mutex, at an address other than nullptr, has one of one token, is appended to the tracked
  -- mutexes where there is a list, and no other object changes. The macro gives as FreeRTOS
  -- documents.
  pub create_mutex-IsSemaphore :
      (w' : World) × (q : FakeQueue) × (x_queue_create_mutex macros fresh mutex w ≡ ok fresh w')
      × IsSemaphore w' fresh q 1 1
      × (w'.mutexes ≡ track fresh w.mutexes)
      × SameElsewhere fresh w w'
  unfolding x_queue_create_mutex x_queue_generic_create ◌>>=◌ set_mutexes
  create_mutex-IsSemaphore =
      let w₁ : World = stored w fresh (new_queue 1 0 mutex) in
      let h₁ : Holds w₁ fresh (new_queue 1 0 mutex) = record {
        ne_null = ne;
        found = lookup-insert_self fresh _ w.heap;
      } in
      let w₂ : World = stored w₁ fresh (made mutex) in
      (
        record w₂ { mutexes = track fresh w.mutexes },
        made mutex,
        ground (arith, given mutex w₁ h₁, give_calls fresh w₁),
        record {
          holds = record { ne_null = ne; found = lookup-insert_self fresh _ w₁.heap };
          limited = refl;
          empty_items = refl;
          plain = refl;
          alone = refl;
          has = refl;
          within = omega arith;
          small = omega arith;
        },
        refl,
        λ j n. lookup-insert_ne j fresh _ w₁.heap n ∙ lookup-insert_ne j fresh _ w.heap n,
      )

  -- A new recursive mutex, at an address other than nullptr, is locked to depth 0, is appended to
  -- the tracked mutexes where there is a list, and no other object changes. The macro gives as
  -- FreeRTOS documents.
  pub create_mutex-IsRecursive :
      (w' : World) × (q : FakeQueue) × (x_queue_create_mutex macros fresh recursive_mutex w
        ≡ ok fresh w')
      × IsRecursive w' fresh q 0
      × (w'.mutexes ≡ track fresh w.mutexes)
      × SameElsewhere fresh w w'
  unfolding x_queue_create_mutex x_queue_generic_create ◌>>=◌ set_mutexes store
  create_mutex-IsRecursive =
      let w₁ : World = stored w fresh (new_queue 1 0 recursive_mutex) in
      let h₁ : Holds w₁ fresh (new_queue 1 0 recursive_mutex) = record {
        ne_null = ne;
        found = lookup-insert_self fresh _ w.heap;
      } in
      let w₂ : World = stored w₁ fresh (made recursive_mutex) in
      let h₂ : Holds w₂ fresh (made recursive_mutex) = Holds-stored h₁ _ in
      let w₃ : World = stored w₂ fresh (made recursive_mutex) in
      (
        record w₃ { mutexes = track fresh w.mutexes },
        made recursive_mutex,
        ground (arith, given recursive_mutex w₁ h₁, give_calls fresh w₁, deref-ok h₂),
        record {
          holds = record { ne_null = ne; found = lookup-insert_self fresh _ w₂.heap };
          recursive = refl;
          one = refl;
          empty_items = refl;
          alone = refl;
          has = refl;
          counts = refl;
        },
        refl,
        λ j n. frame-stored h₂ _ j n ∙ frame-stored h₁ _ j n ∙ lookup-insert_ne j fresh _ w.heap n,
      )

module _ {w : World} {p : Ptr} {q : FakeQueue} (h : Holds w p q) where
  -- Let mutexes be tracked, each a live object with fewer than 256 messages. Then deleting a live
  -- mutex that is not recursive frees it, takes every entry of it out of the list, and leaves on
  -- the list only live objects.
  pub delete_mutex_lem :
      (ms : List Ptr)
      → q.queue_type ≡ mutex
      → w.mutexes ≡ some ms
      → All (IsAlive w) ms
      → let w' = record w { heap = erase p w.heap; mutexes = some (remove p ms) } in
        (v_queue_delete p w ≡ ok tt w') × All (IsAlive w') (remove p ms)
  unfolding v_queue_delete ◌>>=◌
  delete_mutex_lem ms m e a =
      (ground (arith, deref-ok h, not_null h, h.found), remove-IsAlive p ms w _ refl a)

  delete_recursive :
      q.queue_type ≡ recursive_mutex
      → v_queue_delete p w ≡ ok tt (record w { heap = erase p w.heap })
  unfolding v_queue_delete ◌>>=◌
  delete_recursive m = ground (arith, deref-ok h, not_null h, h.found)

  -- Deleting a live recursive mutex that is the first of the tracked mutexes succeeds, and the scan
  -- for a locked mutex then reads the deleted object, which is undefined. The macro counts as
  -- FreeRTOS documents.
  pub delete_recursive_dangles :
      (macros : Macros) (ms : List Ptr)
      → q.queue_type ≡ recursive_mutex
      → w.mutexes ≡ some (p ∷ ms)
      → (w' : World) × (v_queue_delete p w ≡ ok tt w') × (is_any_mutex_locked macros w' ≡ fault)
  unfolding is_any_mutex_locked any_locked ux_queue_messages_waiting ◌>>=◌ deref
  delete_recursive_dangles macros ms m e =
      let w' : World = record w { heap = erase p w.heap } in
      (
        w',
        delete_recursive m,
        ground (arith, macros.count_calls p w', lookup-erase_self p w.heap, h.ne_null),
      )
