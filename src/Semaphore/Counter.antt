-- ===== src/Semaphore/Counter.antt =====
-- A counting semaphore as a number of tokens, next to the fake semaphore of
-- cpputest-for-freertos-lib/src/cpputest_for_freertos_semaphore.cpp.
use cpputest_for_freertos.World.{◌>>=◌, World, Ptr, FakeQueue, M, Message, pure, null, ok, Outcome}
use cpputest_for_freertos.Semaphore.{Macros, x_queue_give_from_isr, x_queue_semaphore_take}
use cpputest_for_freertos.Queue.Step.{
  Holds, stored, deref-ok, not_null, Holds-stored, send-no_set, dummy-nil, dummy-cons, send-refused,
}
use cpputest_for_freertos.Queue.{
  BaseType, pd_false, send_one, is_recursive_mutex, pd_true, send_to_back, err_queue_full,
  x_queue_generic_send, ux_queue_messages_waiting,
}
use cpputest_for_freertos.Base.{
  ℕ, if◌then◌else◌, List, ◌++◌, length, ◌≡◌, ◌≤◌, ltb, ◌∷◌, [], none, suc, ap, false, zero, refl,
  ◌<◌, arith, some, Bool-cases, inl, ◌∙◌, ap₂, inr,
}

pub data Call : Type 0 where
  give give_from_isr taking count : Call

pub data Answer : Type 0 where
  result : BaseType → Answer
  number : ℕ → Answer

-- The counter: `n` of at most `limit` tokens are there.
abbrev pub given : ℕ → ℕ → BaseType × ℕ
given limit n = if ltb n limit then (pd_true, suc n) else (err_queue_full, n)

abbrev pub taken : ℕ → BaseType × ℕ
taken zero = (pd_false, zero)
taken (suc n) = (pd_true, n)

abbrev answered : BaseType × ℕ → Answer × ℕ
answered (r, n) = (result r, n)

abbrev pub counter : ℕ → ℕ → Call → Answer × ℕ
counter limit n give = answered (given limit n)
counter limit n give_from_isr = answered (given limit n)
counter limit n taking = answered (taken n)
counter limit n count = (number n, n)

abbrev pub run : ℕ → ℕ → List Call → List Answer
run limit n [] = []
run limit n (c ∷ cs) = let (a, m) = counter limit n c in a ∷ run limit m cs

-- `n` empty messages.
abbrev pub tokens : ℕ → List Message
tokens zero = []
tokens (suc n) = [] ∷ tokens n

pub tokens-append : (n : ℕ) → tokens n ++ [] ∷ [] ≡ tokens (suc n)
tokens-append zero = refl
tokens-append (suc n) = ap (λ ms. [] ∷ ms) (tokens-append n)

pub length-tokens : (n : ℕ) → length (tokens n) ≡ n
length-tokens zero = refl
length-tokens (suc n) = ap suc (length-tokens n)

-- `p` is a semaphore in no set, or a mutex that is not recursive, that holds `n` of at most `limit`
-- tokens.
pub record IsSemaphore (w : World) (p : Ptr) (q : FakeQueue) (limit n : ℕ) : Type 0 where
  pub holds : Holds w p q
  pub limited : q.queue_length ≡ limit
  pub empty_items : q.item_size ≡ 0
  pub plain : is_recursive_mutex q.queue_type ≡ false
  pub alone : q.queue_set_container ≡ null
  pub has : q.queue ≡ tokens n
  pub within : n ≤ limit
  pub small : limit < 256

module _ (macros : Macros) where
  open macros use {x_semaphore_give, ux_semaphore_get_count, give_calls, count_calls}

  unfoldable pub perform : Ptr → Call → M Answer
  perform p give = do r ← x_semaphore_give p; pure (result r)
  perform p give_from_isr = do r ← x_queue_give_from_isr macros p; pure (result r)
  perform p taking = do r ← x_queue_semaphore_take p; pure (result r)
  perform p count = do n ← ux_semaphore_get_count p; pure (number n)

  unfoldable pub perform_all : Ptr → List Call → M (List Answer)
  perform_all p [] = pure []
  perform_all p (c ∷ cs) = do a ← perform p c; answers ← perform_all p cs; pure (a ∷ answers)

-- The semaphore with another number of tokens.
abbrev pub with_tokens : FakeQueue → ℕ → FakeQueue
with_tokens q n = record q { queue = tokens n }

module _ {w : World} {p : Ptr} {q : FakeQueue} {limit n : ℕ} (v : IsSemaphore w p q limit n) where
  moved :
      (m : ℕ) → m ≤ limit → IsSemaphore (stored w p (with_tokens q m)) p (with_tokens q m) limit m
  moved m le = record {
    holds = Holds-stored v.holds _;
    limited = v.limited;
    empty_items = v.empty_items;
    plain = v.plain;
    alone = v.alone;
    has = refl;
    within = le;
    small = v.small;
  }

  give_one :
      n < limit
      → send_one p none send_to_back w
        ≡ ok (some q.queue_set_container) (stored w p (record q { queue = q.queue ++ [] ∷ [] }))
  unfolding send_one ◌>>=◌
  give_one less = ground (
    arith,
    deref-ok v.holds,
    not_null v.holds,
    ap length v.has,
    length-tokens n,
    v.empty_items,
    v.limited,
  )

  give_full : limit ≤ n → send_one p none send_to_back w ≡ ok none w
  unfolding send_one ◌>>=◌
  give_full full = ground (
    arith,
    deref-ok v.holds,
    not_null v.holds,
    ap length v.has,
    length-tokens n,
    v.empty_items,
    v.limited,
  )

-- A run that returns `a` and leaves a semaphore of `m` tokens at `p`.
abbrev pub Gives : {A : Type 0} → Ptr → ℕ → Outcome A → A → ℕ → Type 0
Gives p limit r a m = (w' : World) × (q' : FakeQueue) × (r ≡ ok a w') × IsSemaphore w' p q' limit m

module _ {w : World} {p : Ptr} {q : FakeQueue} {limit n : ℕ} (v : IsSemaphore w p q limit n) where
  pub send-Gives :
      let (a, m) = given limit n in Gives p limit (x_queue_generic_send p none send_to_back w) a m
  send-Gives = elim (Bool-cases (ltb n limit)) [
    | inl room ↦
        let less : n < limit = ground arith in
        let one_more : q.queue ++ [] ∷ [] ≡ tokens (suc n) =
          ap (λ ms. ms ++ [] ∷ []) v.has ∙ tokens-append n in
        rw room (
          stored w p (with_tokens q (suc n)),
          with_tokens q (suc n),
          send-no_set p none send_to_back w _ (
              give_one v less
              ∙ ap₂ (λ c ms. ok (some c) (stored w p (record q { queue = ms }))) v.alone one_more),
          moved v (suc n) less,
        )
    | inr full ↦
        rw full (w, q, send-refused p none send_to_back w w (give_full v (ground arith)), v)
  ]

  waiting-tokens : ux_queue_messages_waiting p w ≡ ok n w
  unfolding ux_queue_messages_waiting ◌>>=◌
  waiting-tokens = ground (
    arith,
    deref-ok v.holds,
    not_null v.holds,
    ap length v.has,
    length-tokens n,
    v.within,
    v.small,
  )

take-Gives :
    (n : ℕ) {w : World} {p : Ptr} {q : FakeQueue} {limit : ℕ}
    → IsSemaphore w p q limit n
    → let (a, m) = taken n in Gives p limit (x_queue_semaphore_take p w) a m
unfolding x_queue_semaphore_take ◌>>=◌
take-Gives zero {w} {p} {q} v =
    (w, q, ground (arith, deref-ok v.holds, not_null v.holds, v.plain, dummy-nil v.holds v.has), v)
take-Gives (suc n) {w} {p} {q} v = (
  stored w p (with_tokens q n),
  with_tokens q n,
  ground (
    arith,
    deref-ok v.holds,
    not_null v.holds,
    v.plain,
    v.empty_items,
    dummy-cons v.holds [] (tokens n) v.has,
  ),
  moved v n (omega (arith, v.within)),
)

module _ {p : Ptr} {limit m : ℕ} {r : BaseType} where
  reply :
      (run : M BaseType) (w : World)
      → Gives p limit (run w) r m
      → Gives p limit ((run >>= λ a. pure (result a)) w) (result r) m
  unfolding ◌>>=◌
  reply run w (w', q', e, v') = (w', q', rw (e, ◌>>=◌), v')

module _ (macros : Macros) where
  open macros use {x_semaphore_give, give_calls, count_calls}

  isr_gives :
      {w : World} {p : Ptr} {q : FakeQueue} {limit n : ℕ}
      → IsSemaphore w p q limit n
      → x_queue_give_from_isr macros p w ≡ x_queue_generic_send p none send_to_back w
  unfolding x_queue_give_from_isr ◌>>=◌
  isr_gives {w} {p} v = ground (arith, deref-ok v.holds, not_null v.holds, v.plain, give_calls p w)

  -- Each call answers as the counter does, and leaves as many tokens.
  pub perform-counter :
      (c : Call) {w : World} {p : Ptr} {q : FakeQueue} {limit n : ℕ}
      → IsSemaphore w p q limit n
      → let (a, m) = counter limit n c in Gives p limit (perform macros p c w) a m
  unfolding perform
  perform-counter give {w} {p} v = reply (x_semaphore_give p) w (rw give_calls (send-Gives v))
  perform-counter give_from_isr {w} {p} v =
      reply (x_queue_give_from_isr macros p) w (rw (isr_gives v) (send-Gives v))
  perform-counter taking {w} {p} {n = n} v = reply (x_queue_semaphore_take p) w (take-Gives n v)
  perform-counter count {w} {p} {q} v =
      (w, q, unfold ◌>>=◌ in rw (count_calls p w, waiting-tokens v, ◌>>=◌), v)

  -- Let a live semaphore, or a mutex that is not recursive, be in no set and hold at most as many
  -- tokens as its length, which is below 256. Then a sequence of gives, gives from an interrupt,
  -- takes and counts answers as the counter of its tokens does. The macros give and count as
  -- FreeRTOS documents.
  pub perform_all-counter :
      (cs : List Call) {w : World} {p : Ptr} {q : FakeQueue} {limit n : ℕ}
      → IsSemaphore w p q limit n
      → (w' : World) × (perform_all macros p cs w ≡ ok (run limit n cs) w')
  unfolding perform_all ◌>>=◌
  perform_all-counter [] {w} v = (w, refl)
  perform_all-counter (c ∷ cs) v =
      let (w', q', e, v') = perform-counter c v in
      let (w'', e') = perform_all-counter cs v' in (w'', rw (e, ◌>>=◌, e'))
