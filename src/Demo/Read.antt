-- ===== src/Demo/Read.antt =====
-- The next action that the keys ask for: `GetUserAction` of example/apps/demoPcApp/main.cpp.
use cpputest_for_freertos.Service.EventQueue.{EventQueue}
use cpputest_for_freertos.Hlcs.{Signal, queue_depth, Driver}
use cpputest_for_freertos.Service.BinarySemaphore.{BinarySemaphore}
use cpputest_for_freertos.Button.{Reader, simulate_isr, isr_callback, Button}
use cpputest_for_freertos.Base.{
  List, ℕ, Bool, ◌≡◌, Option, some, if◌then◌else◌, none, false, ◌∷◌, ap, [], ◌||◌, length, arith,
  ◌<◌, ◌∙◌, ◌+◌, ◌==◌, Bool-cases, true, refl, sym, inl, inr, subst,
}
use cpputest_for_freertos.Demo.{Demo, DesiredAction, read_keys, unlock, lock, self_test, exit}
use cpputest_for_freertos.Service.{Outcome, ok}
use cpputest_for_freertos.Demo.Spec.{
  interrupts, leaves, requests_of, leaves_with, requests_with, interrupts_with,
}
use cpputest_for_freertos.Hlcs
use cpputest_for_freertos.Button

or_assoc : (a b c : Bool) → ((a || b) || c) ≡ (a || (b || c))
or_assoc true b c = refl
or_assoc false b c = refl

pub counted :
    (x : ℕ) {y z : ℕ} (b c : Bool)
    → y ≡ (if b then 1 else x)
    → z ≡ (if c then 1 else y)
    → z ≡ (if b || c then 1 else x)
counted x true true e f = f
counted x true false e f = f ∙ e
counted x false true e f = f
counted x false false e f = f ∙ e

module _ {Q S : Type 0} (events : EventQueue Q Signal queue_depth) (driver : Driver)
    (hlcs_kernel : Hlcs.Kernel) (sema : BinarySemaphore S) (reader : Reader)
    (button_kernel : Button.Kernel) where
  open sema use {get_count, give_from_isr, give_from_isr_one}

  abbrev pub reading : List ℕ → Demo Q S → Outcome (Demo Q S) (Option (DesiredAction × List ℕ))
  reading = read_keys events driver hlcs_kernel sema reader button_kernel

  -- From `d` to `d'` the lock service is untouched, and there were interrupts of the buttons or not.
  pub record Idles (d d' : Demo Q S) (interrupted : Bool) (h h' : S) : Type 0 where
    pub before : d.button.event_sema ≡ some h
    pub same : d'.hlcs ≡ d.hlcs
    pub rings : d'.button ≡ record d.button { event_sema = some h' }
    pub count : get_count h' ≡ (if interrupted then 1 else get_count h)

  pub data Reads (chs : List ℕ) (d : Demo Q S) (h : S) : Type 0 where
    used_up :
        {d' : Demo Q S} {h' : S}
        → reading chs d ≡ ok none d'
        → Idles d d' (interrupts chs) h h'
        → leaves chs ≡ false
        → requests_of chs ≡ []
        → Reads chs d h
    picked :
        {d' : Demo Q S} {h' : S} {before : Bool} {wanted : DesiredAction} {rest : List ℕ}
        → reading chs d ≡ ok (some (wanted, rest)) d'
        → Idles d d' before h h'
        → length rest < length chs
        → leaves chs ≡ leaves_with wanted rest
        → requests_of chs ≡ requests_with wanted rest
        → interrupts chs ≡ (before || interrupts_with wanted rest)
        → Reads chs d h

  no_key : (d : Demo Q S) (h : S) → d.button.event_sema ≡ some h → Idles d d false h h
  no_key d h e = record {
    before = e;
    same = refl;
    rings = ap (λ x. record d.button { event_sema = x }) e;
    count = refl;
  }

  module _ (ch : ℕ) (chs : List ℕ) (d : Demo Q S) (h : S) (e : d.button.event_sema ≡ some h) where
    is_unlock : ch ≡ 48 → Reads (ch ∷ chs) d h
    unfolding read_keys leaves requests_of interrupts
    is_unlock k =
        picked {d' = d} {h' = h} {before = false} {wanted = unlock} {rest = chs} (ground (arith, k))
          (no_key d h e) (omega arith) (ground (arith, k)) (ground (arith, k)) (ground (arith, k))

    is_lock : ch ≡ 49 → Reads (ch ∷ chs) d h
    unfolding read_keys leaves requests_of interrupts
    is_lock k =
        picked {d' = d} {h' = h} {before = false} {wanted = lock} {rest = chs} (ground (arith, k))
          (no_key d h e) (omega arith) (ground (arith, k)) (ground (arith, k)) (ground (arith, k))

    is_self_test : ch ≡ 50 → Reads (ch ∷ chs) d h
    unfolding read_keys leaves requests_of interrupts
    is_self_test k =
        picked {d' = d} {h' = h} {before = false} {wanted = self_test} {rest = chs}
          (ground (arith, k)) (no_key d h e) (omega arith) (ground (arith, k)) (ground (arith, k))
          (ground (arith, k))

    is_exit : ch ≡ 57 → Reads (ch ∷ chs) d h
    unfolding read_keys leaves requests_of interrupts
    is_exit k =
        picked {d' = d} {h' = h} {before = false} {wanted = exit} {rest = chs} (ground (arith, k))
          (no_key d h e) (omega arith) (ground (arith, k)) (ground (arith, k)) (ground (arith, k))

  then_Idles :
      {d d' d'' : Demo Q S} {b c : Bool} {h h' h'' : S}
      → Idles d d' b h h'
      → Idles d' d'' c h' h''
      → Idles d d'' (b || c) h h''
  then_Idles {d} {d'} {d''} {b} {c} {h} {h'} {h''} i j = record {
    before = i.before;
    same = j.same ∙ i.same;
    rings = j.rings ∙ ap (λ (x : Button S). record x { event_sema = some h'' }) i.rings;
    count = counted (get_count h) b c i.count j.count;
  }

  same_Idles :
      {d d' : Demo Q S} {b c : Bool} {h h' : S} → b ≡ c → Idles d d' c h h' → Idles d d' b h h'
  same_Idles {d} {d'} {b} {c} {h} {h'} e = subst (λ x. Idles d d' x h h') (sym e)

  -- A key that only lets time pass or interrupts, before the others.
  skip :
      {ch : ℕ} {chs : List ℕ} {d d' : Demo Q S} {h h' : S} (b : Bool)
      → reading (ch ∷ chs) d ≡ reading chs d'
      → Idles d d' b h h'
      → leaves (ch ∷ chs) ≡ leaves chs
      → requests_of (ch ∷ chs) ≡ requests_of chs
      → interrupts (ch ∷ chs) ≡ (b || interrupts chs)
      → Reads chs d' h'
      → Reads (ch ∷ chs) d h
  skip b runs i l q n (used_up runs' j l' q') =
      used_up (runs ∙ runs') (same_Idles n (then_Idles i j)) (l ∙ l') (q ∙ q')
  skip b runs i l q n (picked {before = c} {wanted = w} {rest = rest} runs' j lt l' q' n') =
      picked (runs ∙ runs') (then_Idles i j) (omega (arith, lt)) (l ∙ l') (q ∙ q')
        (n ∙ ap (λ x. b || x) n' ∙ sym (or_assoc b c (interrupts_with w rest)))

  module _ (ch : ℕ) (chs : List ℕ) (d : Demo Q S) (h : S) (e : d.button.event_sema ≡ some h) where
    -- The demo after the key for an interrupt, and after another key.
    abbrev rung : Demo Q S
    rung = record d { button = record d.button { event_sema = some (give_from_isr h).1 } }

    abbrev waited : Demo Q S
    waited = record d { ticks_waited = d.ticks_waited + 10 }

    is_isr : ch ≡ 51 → Reads chs rung (give_from_isr h).1 → Reads (ch ∷ chs) d h
    unfolding read_keys leaves requests_of interrupts simulate_isr isr_callback
    is_isr k =
        skip {d' = rung} {h' = (give_from_isr h).1} true (ground (arith, k, e))
          (record { before = e; same = refl; rings = refl; count = give_from_isr_one h })
          (ground (arith, k)) (ground (arith, k)) (ground (arith, k))

    is_other :
        (ch == 48) ≡ false
        → (ch == 49) ≡ false
        → (ch == 50) ≡ false
        → (ch == 51) ≡ false
        → (ch == 57) ≡ false
        → Reads chs waited h
        → Reads (ch ∷ chs) d h
    unfolding read_keys leaves requests_of interrupts
    is_other n0 n1 n2 n3 n9 =
        skip {d' = waited} {h' = h} false (ground (arith, n0, n1, n2, n3, n9))
          (record {
            before = e;
            same = refl;
            rings = ap (λ x. record d.button { event_sema = x }) e;
            count = refl;
          })
          (ground (arith, n9)) (ground (arith, n0, n1, n2, n9)) (ground (arith, n3, n9))

  pub read_keys_lem :
      (chs : List ℕ) (d : Demo Q S) (h : S) → d.button.event_sema ≡ some h → Reads chs d h
  unfolding read_keys leaves requests_of interrupts
  read_keys_lem [] d h e = used_up {d' = d} {h' = h} refl (no_key d h e) refl refl
  read_keys_lem (ch ∷ chs) d h e = elim (Bool-cases (ch == 48)) [
    | inl k ↦ is_unlock ch chs d h e (ground (arith, k))
    | inr n0 ↦ elim (Bool-cases (ch == 49)) [
      | inl k ↦ is_lock ch chs d h e (ground (arith, k))
      | inr n1 ↦ elim (Bool-cases (ch == 50)) [
        | inl k ↦ is_self_test ch chs d h e (ground (arith, k))
        | inr n2 ↦ elim (Bool-cases (ch == 51)) [
          | inl k ↦ is_isr ch chs d h e (ground (arith, k)) (read_keys_lem chs _ _ refl)
          | inr n3 ↦ elim (Bool-cases (ch == 57)) [
            | inl k ↦ is_exit ch chs d h e (ground (arith, k))
            | inr n9 ↦ is_other ch chs d h e n0 n1 n2 n3 n9 (read_keys_lem chs _ h e)
          ]
        ]
      ]
    ]
  ]
