-- ===== src/Semaphore/Create.antt =====
-- `xQueueCreateCountingSemaphore` of
-- cpputest-for-freertos-lib/src/cpputest_for_freertos_semaphore.cpp.
use cpputest_for_freertos.World.{◌>>=◌, World, Ptr, FakeQueue, null, u8, base}
use cpputest_for_freertos.Semaphore.Counter.{Gives, IsSemaphore, send-Gives}
use cpputest_for_freertos.Queue.Step.{stored}
use cpputest_for_freertos.Base.{
  ℕ, if◌then◌else◌, ltb, ◌≢◌, ◌+◌, ◌<◌, subst, arith, suc, zero, refl, ◌≡◌, eq-false_of_ne, ap,
}
use cpputest_for_freertos.Semaphore.{Macros, give_times, x_queue_create_counting_semaphore}
use cpputest_for_freertos.Queue.{x_queue_generic_create, new_queue}
use cpputest_for_freertos.World.Heap.{lookup-insert_self}

abbrev pub min : ℕ → ℕ → ℕ
min a b = if ltb a b then a else b

u8-u8 : (n : ℕ) → u8 (u8 n) ≡ u8 n
u8-u8 n = omega arith

module _ (macros : Macros) where
  open macros use {x_semaphore_give, give_calls, create_calls}

  -- The loop gives its tokens until the semaphore is full.
  give_times-Gives :
      (k : ℕ) {w : World} {p : Ptr} {q : FakeQueue} {limit n : ℕ}
      → IsSemaphore w p q limit n
      → Gives p limit (give_times macros k p w) tt (min (n + k) limit)
  unfolding give_times ◌>>=◌
  give_times-Gives zero {w} {p} {q} {limit} {n} v =
      (w, q, refl, subst (IsSemaphore w p q limit) (ground (arith, v.within)) v)
  give_times-Gives (suc k) {w} {p} {q} {limit} {n} v =
      let (w', q', e, v') = send-Gives v in
      let (w'', q'', e', v'') = give_times-Gives k v' in
      (
        w'',
        q'',
        rw (give_calls p w, e, ◌>>=◌, e'),
        subst (IsSemaphore w'' p q'' limit) (ground (arith, v.within)) v'',
      )

  new-IsSemaphore :
      (fresh n : ℕ) (w : World)
      → fresh ≢ null
      → n < 256
      → IsSemaphore (stored w fresh (new_queue n 0 base)) fresh (new_queue n 0 base) n 0
  new-IsSemaphore fresh n w ne small = record {
    holds = record { ne_null = ne; found = lookup-insert_self fresh _ w.heap };
    limited = refl;
    empty_items = refl;
    plain = refl;
    alone = refl;
    has = refl;
    within = omega arith;
    small = small;
  }

  -- A new counting semaphore, at an address other than nullptr, holds its initial count of tokens
  -- or, where that is less, its limit, both modulo 256. The macros create and give as FreeRTOS
  -- documents.
  pub x_queue_create_counting_semaphore-Gives :
      (fresh max_count initial_count : ℕ) (w : World)
      → fresh ≢ null
      → Gives fresh
          (u8 max_count)
          (x_queue_create_counting_semaphore macros fresh max_count initial_count w)
          fresh
          (min (u8 initial_count) (u8 max_count))
  unfolding x_queue_create_counting_semaphore x_queue_generic_create ◌>>=◌
  x_queue_create_counting_semaphore-Gives fresh max_count initial_count w ne =
      let n : ℕ = u8 max_count in
      let v : IsSemaphore (stored w fresh (new_queue n 0 base)) fresh (new_queue n 0 base) n 0 =
        new-IsSemaphore fresh n w ne (omega arith) in
      let (w', q', e, v') = give_times-Gives (u8 initial_count) v in
      (
        w',
        q',
        rw (create_calls fresh n 0 w, u8-u8 max_count, ◌>>=◌, eq-false_of_ne fresh null ne, e),
        subst (IsSemaphore w' fresh q' (u8 max_count))
            (ap (λ k. min k (u8 max_count)) (omega arith)) v',
      )
