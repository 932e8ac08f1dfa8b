-- ===== src/Button/System/Served.antt =====
-- No interrupt is lost: example/services/buttonService/src/buttonService.c.
use cpputest_for_freertos.Service.{ok, asserted}
use cpputest_for_freertos.Service.BinarySemaphore.{BinarySemaphore}
use cpputest_for_freertos.Button.{
  Button, Reader, Kernel, initialize, taken, isr_callback, reader_read, Effect, button_released,
  reader_register, button_pressed, reader_init,
}
use cpputest_for_freertos.Button.Events.{told}
use cpputest_for_freertos.Button.System.{
  TaskStep, works, System, Phase, holds_token, stopped, is_running, ◌≡◌, took_from, after, Step,
  waiting, interrupts, took, begins, takes, reads, Reach, later, begin,
}
use cpputest_for_freertos.Base.{
  ℕ, Bool, ◌≡◌, some, true, none, ◌≤◌, false, arith, ◌∷◌, ◌⊎◌, List, refl, ◌≢◌, ap, subst, inl, ◌∙◌,
  sym, Option-cases, inr, suc, zero,
}

module _ {S : Type 0} (sema : BinarySemaphore S) (reader : Reader) (kernel : Kernel) where
  open sema use {
    create, create_empty, take, get_count, give_from_isr, give_from_isr_one, take_none, take_one,
  }

  -- The service has its semaphore, which has a token or none, and goes on.
  pub record Has (s : Button S) (h : S) (n : ℕ) : Type 0 where
    pub has : s.event_sema ≡ some h
    pub count : get_count h ≡ n
    pub within : n ≤ 1
    pub goes_on : s.exit_thread ≡ false

  -- An interrupt that is not served has its token in the semaphore, or the task holds it.
  pub data Served : System S → Type 0 where
    running :
        {s : Button S} {phase : Phase} {unserved : Bool} {h : S} {n : ℕ}
        → Has s h n
        → is_running phase ≡ true
        → (unserved ≡ false) ⊎ (phase ≡ holds_token) ⊎ (n ≡ 1)
        → Served (record { service = s; phase = phase; unserved = unserved })
    read_failed :
        {s : Button S} {unserved : Bool} (log : List Effect)
        → s.log ≡ reader_read ∷ log
        → reader.read log ≡ none
        → Served (record { service = s; phase = stopped 115; unserved = unserved })

  module _ (s : Button S) (h : S) where
    isr_runs :
        s.event_sema ≡ some h
        → isr_callback sema reader kernel s
          ≡ ok tt (record s { event_sema = some (give_from_isr h).1 })
    unfolding isr_callback
    isr_runs has = ground (arith, has)

    -- The service after it has read the buttons.
    abbrev pub read_once : ℕ → ℕ → Button S
    read_once pressed released = record s {
      log =
          told s.callback s.context button_released released
            (told s.callback s.context button_pressed pressed (reader_read ∷ s.log));
    }

    pub read_runs :
        (pressed released : ℕ)
        → reader.read s.log ≡ some (pressed, released)
        → taken sema reader kernel true s ≡ ok true (read_once pressed released)
    unfolding taken
    read_runs pressed released r = ground (arith, r)

    read_fails :
        reader.read s.log ≡ none
        → taken sema reader kernel true s ≡ asserted 115 (record s { log = reader_read ∷ s.log })
    unfolding taken
    read_fails r = ground (arith, r)

  pub initialize_runs :
      (s : Button S)
      → initialize s ≡ ok tt (record s { log = reader_register ∷ reader_init ∷ s.log })
  unfolding initialize
  initialize_runs s = refl

  pub not_held :
      {u : Bool} {phase : Phase} {n : ℕ}
      → (phase ≢ holds_token)
      → (u ≡ false) ⊎ (phase ≡ holds_token) ⊎ (n ≡ 1)
      → (u ≡ false) ⊎ (n ≡ 1)
  not_held ne (inl e) = inl e
  not_held ne (inr (inl e)) = absurd (ne e)
  not_held ne (inr (inr e)) = inr e

  module _ (s : Button S) (u : Bool) (h : S) where
    abbrev left_by : S → Button S
    left_by g = record s { event_sema = some g }

    pub took-token :
        Has s h 1
        → took_from sema reader kernel s u s.event_sema
          ≡ record { service = left_by (take h).1; phase = holds_token; unserved = u }
    took-token v =
        ap (took_from sema reader kernel s u) v.has
        ∙ ap (λ b. took sema reader kernel s u (b, (take h).1)) (take_one h v.count).0

    took-nothing :
        Has s h 0
        → took_from sema reader kernel s u s.event_sema
          ≡ record { service = left_by (take h).1; phase = waiting; unserved = u }
    took-nothing v =
        ap (took_from sema reader kernel s u) v.has
        ∙ ap (λ b. took sema reader kernel s u (b, (take h).1)) (take_none h v.count).0

    pub Has-left :
        get_count (take h).1 ≡ 0 → s.exit_thread ≡ false → Has (left_by (take h).1) (take h).1 0
    Has-left none_left goes_on = record {
      has = refl;
      count = none_left;
      within = omega arith;
      goes_on = goes_on;
    }

    takes-Served :
        (n : ℕ)
        → Has s h n
        → (u ≡ false) ⊎ (n ≡ 1)
        → Served (took_from sema reader kernel s u s.event_sema)
    takes-Served zero v d = subst Served (sym (took-nothing v)) (
        running (Has-left (take_none h v.count).1 v.goes_on) refl
          (elim d [ inl e ↦ inl e | inr e ↦ absurd (omega (arith, e)) ]))
    takes-Served (suc n) v d =
        let one : suc n ≡ 1 = omega (arith, v.within) in
        let w : Has s h 1 = subst (Has s h) one v in
        subst Served (sym (took-token w))
          (running (Has-left (take_one h w.count).1 v.goes_on) refl (inr (inl refl)))

    reads-Served :
        (n : ℕ) → Has s h n → Served (after s waiting false (taken sema reader kernel true s))
    reads-Served n v = elim (Option-cases (reader.read s.log)) [
      | inl e ↦
          subst (λ out. Served (after s waiting false out)) (sym (read_fails s h e))
            (read_failed s.log refl e)
      | inr ((pressed, released), e) ↦
          subst (λ out. Served (after s waiting false out)) (sym (read_runs s h pressed released e))
            (running {h = h} {n = n}
              (record { has = v.has; count = v.count; within = v.within; goes_on = v.goes_on }) refl
              (inl refl))
    ]

  TaskStep-Served : {x y : System S} → TaskStep sema reader kernel x y → Served x → Served y
  TaskStep-Served (begins {s = s} {unserved = u}) (running {h = h} {n = n} v run d) =
      subst (λ out. Served (after s waiting u out)) (sym (initialize_runs s))
        (running {h = h} {n = n}
          (record { has = v.has; count = v.count; within = v.within; goes_on = v.goes_on }) refl
          (elim (not_held (λ e. ground (arith, e)) d) [ inl e ↦ inl e | inr e ↦ inr (inr e) ]))
  TaskStep-Served (takes {s = s} {unserved = u} goes) (running {h = h} {n = n} v run d) =
      takes-Served s u h n v (not_held (λ e. ground (arith, e)) d)
  TaskStep-Served (reads {s = s} {unserved = u}) (running {h = h} {n = n} v run d) =
      reads-Served s u h n v

  Step-Served : {x y : System S} → Step sema reader kernel x y → Served x → Served y
  Step-Served (works w) v = TaskStep-Served w v
  Step-Served (interrupts r) (running {s = s} {phase = phase} {h = h} v run d) =
      subst (λ out. Served (after s phase true out)) (sym (isr_runs s h v.has))
        (running {h = (give_from_isr h).1} {n = 1}
          (record {
            has = refl;
            count = give_from_isr_one h;
            within = omega arith;
            goes_on = v.goes_on;
          })
          run (inr (inr refl)))
  Step-Served (interrupts r) (read_failed log e f) = ground (arith, r)

  pub Reach-Served :
      {s : Button S} {h : S} {x : System S} → Has s h 0 → Reach sema reader kernel s x → Served x
  Reach-Served v begin = running v refl (inl refl)
  Reach-Served v (later r st) = Step-Served st (Reach-Served v r)
