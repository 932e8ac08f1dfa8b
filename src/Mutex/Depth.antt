-- ===== src/Mutex/Depth.antt =====
-- A recursive mutex as the depth to which it is locked, next to the fake recursive mutex of
-- cpputest-for-freertos-lib/src/cpputest_for_freertos_mutex.cpp.
use cpputest_for_freertos.World.{
  ◌>>=◌, World, FakeQueue, Ptr, M, Outcome, store, recursive_mutex, pure, ok, null,
}
use cpputest_for_freertos.Semaphore.{Macros}
use cpputest_for_freertos.Queue.Step.{Holds, stored, deref-ok, not_null, Holds-stored, dummy-cons}
use cpputest_for_freertos.Queue.{
  BaseType, pd_false, pd_true, ux_queue_messages_waiting, x_queue_generic_send, send_loop, send_one,
  send_to_back,
}
use cpputest_for_freertos.Base.{
  ℕ, List, ◌≡◌, suc, ◌∷◌, ◌<◌, zero, arith, [], refl, none, ◌≤◌, ◌+◌, length,
}
use cpputest_for_freertos.Mutex.{x_queue_take_mutex_recursive, x_queue_give_mutex_recursive}
use cpputest_for_freertos.Semaphore.Counter.{tokens}

pub data Call : Type 0 where
  taking giving counting : Call

pub data Answer : Type 0 where
  result : BaseType → Answer
  number : ℕ → Answer

-- `d` takes are not given back. The count is that of the free tokens.
abbrev pub free : ℕ → ℕ
free zero = 1
free (suc d) = 0

abbrev pub gave : ℕ → BaseType × ℕ
gave zero = (pd_false, zero)
gave (suc d) = (pd_true, d)

abbrev pub depth : ℕ → Call → Answer × ℕ
depth d taking = (result pd_true, suc d)
depth d giving = (result (gave d).0, (gave d).1)
depth d counting = (number (free d), d)

abbrev pub run : ℕ → List Call → List Answer
run d [] = []
run d (c ∷ cs) = let (a, e) = depth d c in a ∷ run e cs

-- The recursive mutex at `p`, in no set, is locked to depth `d`.
pub record IsRecursive (w : World) (p : Ptr) (q : FakeQueue) (d : ℕ) : Type 0 where
  pub holds : Holds w p q
  pub recursive : q.queue_type ≡ recursive_mutex
  pub one : q.queue_length ≡ 1
  pub empty_items : q.item_size ≡ 0
  pub alone : q.queue_set_container ≡ null
  pub has : q.queue ≡ tokens (free d)
  pub counts : q.recursive_call_count ≡ d

abbrev pub at_depth : FakeQueue → ℕ → FakeQueue
at_depth q d = record q { queue = tokens (free d); recursive_call_count = d }

module _ (macros : Macros) where
  open macros use {ux_semaphore_get_count}

  unfoldable pub perform : Ptr → Call → M Answer
  perform p taking = do r ← x_queue_take_mutex_recursive macros p; pure (result r)
  perform p giving = do r ← x_queue_give_mutex_recursive macros p; pure (result r)
  perform p counting = do n ← ux_semaphore_get_count p; pure (number n)

  unfoldable pub perform_all : Ptr → List Call → M (List Answer)
  perform_all p [] = pure []
  perform_all p (c ∷ cs) = do a ← perform p c; answers ← perform_all p cs; pure (a ∷ answers)

-- A run that returns `a` and leaves the mutex at `p` locked to depth `d`.
abbrev pub Leaves : {A : Type 0} → Ptr → Outcome A → A → ℕ → Type 0
Leaves p r a d = (w' : World) × (q' : FakeQueue) × (r ≡ ok a w') × IsRecursive w' p q' d

module _ {w : World} {p : Ptr} {q : FakeQueue} {d : ℕ} (v : IsRecursive w p q d) where
  moved : (w' : World) (e : ℕ) → Holds w' p (at_depth q e) → IsRecursive w' p (at_depth q e) e
  moved w' e h = record {
    holds = h;
    recursive = v.recursive;
    one = v.one;
    empty_items = v.empty_items;
    alone = v.alone;
    has = refl;
    counts = refl;
  }

  waiting-free : ux_queue_messages_waiting p w ≡ ok (free d) w
  unfolding ux_queue_messages_waiting ◌>>=◌
  waiting-free = ground (arith, deref-ok v.holds, not_null v.holds, v.has)

abbrev twice : World → Ptr → FakeQueue → FakeQueue → World
twice w p q r = stored (stored w p q) p r

module _ (macros : Macros) where
  open macros use {give_calls, count_calls}

  -- Taking a recursive mutex succeeds at any depth below the range of its count.
  take-Leaves :
      (d : ℕ) {w : World} {p : Ptr} {q : FakeQueue}
      → IsRecursive w p q d
      → suc d < 18446744073709551616
      → Leaves p (x_queue_take_mutex_recursive macros p w) pd_true (suc d)
  unfolding x_queue_take_mutex_recursive ◌>>=◌ store
  take-Leaves zero {w} {p} {q} v fits =
      let locked : FakeQueue = record q { queue = [] } in
      let h : Holds (stored w p locked) p locked = Holds-stored v.holds locked in
      (
        stored (stored w p locked) p (at_depth q 1),
        at_depth q 1,
        ground (
          arith,
          deref-ok v.holds,
          not_null v.holds,
          v.recursive,
          count_calls p w,
          waiting-free v,
          dummy-cons v.holds [] [] v.has,
          deref-ok h,
          v.counts,
          v.empty_items,
        ),
        moved v _ 1 (Holds-stored h _),
      )
  take-Leaves (suc d) {w} {p} {q} v fits = (
    stored w p (at_depth q (suc (suc d))),
    at_depth q (suc (suc d)),
    ground (
      arith,
      deref-ok v.holds,
      not_null v.holds,
      v.recursive,
      count_calls p w,
      waiting-free v,
      v.has,
      v.counts,
    ),
    moved v _ (suc (suc d)) (Holds-stored v.holds _),
  )

  unlocks :
      {w : World} {p : Ptr} {q : FakeQueue}
      → IsRecursive w p q 1
      → let left : FakeQueue = record q { recursive_call_count = 0 } in
        x_queue_generic_send p none send_to_back (stored w p left)
        ≡ ok pd_true (stored (stored w p left) p (at_depth q 0))
  unfolding x_queue_generic_send send_loop send_one ◌>>=◌ store
  unlocks {w} {p} {q} v =
      let left : FakeQueue = record q { recursive_call_count = 0 } in
      let h : Holds (stored w p left) p left = Holds-stored v.holds left in
      ground (arith, deref-ok h, not_null h, v.has, v.one, v.empty_items, v.alone)

  -- Giving a recursive mutex that is locked undoes one take. The last one frees the mutex. Giving a
  -- free one fails and changes nothing.
  give-Leaves :
      (d : ℕ) {w : World} {p : Ptr} {q : FakeQueue}
      → IsRecursive w p q d
      → Leaves p (x_queue_give_mutex_recursive macros p w) (gave d).0 (gave d).1
  unfolding x_queue_give_mutex_recursive ◌>>=◌ store
  give-Leaves zero {w} {p} {q} v = (
    w,
    q,
    ground
        (arith, deref-ok v.holds, not_null v.holds, v.recursive, count_calls p w, waiting-free v),
    v,
  )
  give-Leaves (suc zero) {w} {p} {q} v =
      let left : FakeQueue = record q { recursive_call_count = 0 } in
      (
        stored (stored w p left) p (at_depth q 0),
        at_depth q 0,
        ground (
          arith,
          deref-ok v.holds,
          not_null v.holds,
          v.recursive,
          count_calls p w,
          waiting-free v,
          v.counts,
          give_calls p (stored w p left),
          unlocks v,
        ),
        moved v _ 0 (Holds-stored (Holds-stored v.holds left) _),
      )
  give-Leaves (suc (suc d)) {w} {p} {q} v = (
    stored w p (at_depth q (suc d)),
    at_depth q (suc d),
    ground (
      arith,
      deref-ok v.holds,
      not_null v.holds,
      v.recursive,
      count_calls p w,
      waiting-free v,
      v.counts,
      v.has,
    ),
    moved v _ (suc d) (Holds-stored v.holds _),
  )

module _ {p : Ptr} {d : ℕ} {r : BaseType} where
  reply :
      (run : M BaseType) (w : World)
      → Leaves p (run w) r d
      → Leaves p ((run >>= λ a. pure (result a)) w) (result r) d
  unfolding ◌>>=◌
  reply run w (w', q', e, v') = (w', q', rw (e, ◌>>=◌), v')

module _ (macros : Macros) where
  open macros use {count_calls}

  -- Each call answers as the depth does, and leaves the mutex locked to the new depth.
  pub perform-depth :
      (c : Call) {w : World} {p : Ptr} {q : FakeQueue} {d : ℕ}
      → IsRecursive w p q d
      → suc d < 18446744073709551616
      → let (a, e) = depth d c in Leaves p (perform macros p c w) a e
  unfolding perform
  perform-depth taking {w} {p} {d = d} v fits =
      reply (x_queue_take_mutex_recursive macros p) w (take-Leaves macros d v fits)
  perform-depth giving {w} {p} {d = d} v fits =
      reply (x_queue_give_mutex_recursive macros p) w (give-Leaves macros d v)
  perform-depth counting {w} {p} {q} v fits =
      (w, q, unfold ◌>>=◌ in rw (count_calls p w, waiting-free v, ◌>>=◌), v)

  depth-le : (d : ℕ) (c : Call) → (depth d c).1 ≤ suc d
  depth-le d taking = omega arith
  depth-le zero giving = omega arith
  depth-le (suc d) giving = omega arith
  depth-le d counting = omega arith

  -- Let a live recursive mutex be in no set, locked to some depth. Then a sequence of takes, gives
  -- and counts answers as the depth does, provided that the depth and the number of calls together
  -- stay below 2 ^ 64. The macros give and count as FreeRTOS documents.
  pub perform_all-depth :
      (cs : List Call) {w : World} {p : Ptr} {q : FakeQueue} {d : ℕ}
      → IsRecursive w p q d
      → d + length cs < 18446744073709551616
      → (w' : World) × (perform_all macros p cs w ≡ ok (run d cs) w')
  unfolding perform_all ◌>>=◌
  perform_all-depth [] {w} v fits = (w, refl)
  perform_all-depth (c ∷ cs) {d = d} v fits =
      let (w', q', e, v') = perform-depth c v (omega arith) in
      let (w'', e') = perform_all-depth cs v' (omega (arith, depth-le d c)) in
      (w'', rw (e, ◌>>=◌, e'))
