-- ===== src/Button/System/Live.antt =====
-- The task alone serves an interrupt: `ButtonService_Task` of
-- example/services/buttonService/src/buttonService.c.
use cpputest_for_freertos.Service.{ok}
use cpputest_for_freertos.Service.BinarySemaphore.{BinarySemaphore}
use cpputest_for_freertos.Button.{
  Button, Reader, Kernel, statics, reader_read, Effect, ButtonState, has_on_off_bit, has_func_a_bit,
  button_change, flags_of, button_released, button_pressed,
}
use cpputest_for_freertos.Button.System.{
  System, created, waiting, holds_token, stopped, crashed, is_running, TaskStep, begins, takes,
  reads, Reach, Alone, done, next, after, ◌≡◌,
}
use cpputest_for_freertos.Button.System.Launch.{launched, launched-Has}
use cpputest_for_freertos.Button.System.Served.{
  Has, Served, running, read_failed, took-token, read_once, not_held, read_runs, initialize_runs,
  Reach-Served,
}
use cpputest_for_freertos.Base.{
  List, Bool, false, ◌≡◌, ℕ, suc, subst, sym, Option-cases, true, ◌∙◌, inl, refl, Bool-cases, ap,
  arith, ◌&&◌, inr, ◌||◌, if◌then◌else◌, ◌∷◌, [], ◌⊎◌, some,
}
use cpputest_for_freertos.Hlcs.{is_none}
use cpputest_for_freertos.Button.Events.{told}

-- How often the service has read the buttons.
abbrev pub reads_in : List Effect → ℕ
reads_in [] = 0
reads_in (reader_read ∷ log) = suc (reads_in log)
reads_in (_ ∷ log) = reads_in log

reads_in-told :
    (callback : Bool) (context : ℕ) (state : ButtonState) (bits : ℕ) (log : List Effect)
    → reads_in (told callback context state bits log) ≡ reads_in log
reads_in-told callback context state bits log =
    elim (Bool-cases (callback && (has_on_off_bit bits || has_func_a_bit bits))) [
      | inl e ↦
          ap (λ b. reads_in (if b then button_change (flags_of bits) state context ∷ log else log))
            e
      | inr e ↦
          ap (λ b. reads_in (if b then button_change (flags_of bits) state context ∷ log else log))
            e
    ]

module _ {S : Type 0} (sema : BinarySemaphore S) (reader : Reader) (kernel : Kernel) where
  open sema use {create, take, get_count, take_one}

  -- The task alone comes from `x` to wait again, having served the interrupts with one read.
  pub record Serves (x : System S) : Type 0 where
    pub final : Button S
    pub run :
        Alone sema reader kernel x (record { service = final; phase = waiting; unserved = false })
    pub read_once_more : reads_in final.log ≡ suc (reads_in x.service.log)

  first_step :
      {x y z : System S}
      → TaskStep sema reader kernel x y
      → y ≡ z
      → reads_in z.service.log ≡ reads_in x.service.log
      → Serves z
      → Serves x
  first_step {x} {y} {z} st e same later = record {
    final = later.final;
    run = next st (
        subst
          (λ w.
            Alone sema reader kernel w
              (record { service = later.final; phase = waiting; unserved = false }))
          (sym e) later.run);
    read_once_more = later.read_once_more ∙ ap suc same;
  }

  module _ (readable : (log : List Effect) → is_none (reader.read log) ≡ false) where
    held-Serves :
        (s : Button S) (h : S) (u : Bool)
        → Serves (record { service = s; phase = holds_token; unserved = u })
    held-Serves s h u = elim (Option-cases (reader.read s.log)) [
      | inl e ↦ absurd (ground (arith, e, readable s.log))
      | inr ((pressed, released), e) ↦
          let t = read_once sema reader kernel s h pressed released in
          record {
            final = t;
            run = next reads (
                subst
                  (λ out.
                    Alone sema reader kernel (after s waiting false out)
                      (record { service = t; phase = waiting; unserved = false }))
                  (sym (read_runs sema reader kernel s h pressed released e)) done);
            read_once_more =
                reads_in-told s.callback s.context button_released released _
                ∙ reads_in-told s.callback s.context button_pressed pressed (reader_read ∷ s.log);
          }
    ]

    waiting-Serves :
        (s : Button S) (h : S) (u : Bool)
        → Has sema reader kernel s h 1
        → Serves (record { service = s; phase = waiting; unserved = u })
    waiting-Serves s h u v =
        first_step (takes v.goes_on) (took-token sema reader kernel s u h v) refl
          (held-Serves _ h u)

    one_token :
        {s : Button S} {h : S} {n : ℕ} {u : Bool}
        → Has sema reader kernel s h n
        → u ≡ true
        → (u ≡ false) ⊎ (n ≡ 1)
        → Has sema reader kernel s h 1
    one_token {s} {h} v unserved d =
        subst (Has sema reader kernel s h)
          (elim d [ inl e ↦ absurd (ground (arith, e, unserved)) | inr e ↦ e ]) v

    Served-Serves :
        {x : System S}
        → Served sema reader kernel x
        → is_running x.phase ≡ true
        → x.unserved ≡ true
        → Serves x
    Served-Serves (running {s = s} {phase = created} {unserved = u} {h = h} v r d) run unserved =
        let w = one_token v unserved (not_held sema reader kernel (λ e. ground (arith, e)) d) in
        first_step begins (ap (λ out. after s waiting u out) (initialize_runs sema reader kernel s))
          refl
          (waiting-Serves _ h u
            (record { has = w.has; count = w.count; within = w.within; goes_on = w.goes_on }))
    Served-Serves (running {s = s} {phase = waiting} {unserved = u} {h = h} v r d) run unserved =
        waiting-Serves s h u
          (one_token v unserved (not_held sema reader kernel (λ e. ground (arith, e)) d))
    Served-Serves (running {s = s} {phase = holds_token} {unserved = u} {h = h} v r d) run
          unserved =
        held-Serves s h u
    Served-Serves (running {phase = stopped line} v r d) run unserved = ground (arith, r)
    Served-Serves (running {phase = crashed} v r d) run unserved = ground (arith, r)
    Served-Serves (read_failed log e f) run unserved = ground (arith, run)

  -- Let the kernel create the semaphore and the task, let the driver of the buttons never refuse a
  -- read, and let interrupts come while the task of the button service runs, in any order. From
  -- every state so reached in which no assertion has failed and an interrupt has come after the
  -- last read, the task alone comes to wait with every interrupt served, having read the buttons
  -- once more. The semaphore behaves as FreeRTOS documents.
  pub launched-Serves :
      (context : ℕ) (h : S) (s : Button S) (x : System S)
      → create ≡ some h
      → kernel.task_create ≡ true
      → ((log : List Effect) → is_none (reader.read log) ≡ false)
      → launched sema reader kernel context statics ≡ ok tt s
      → Reach sema reader kernel s x
      → is_running x.phase ≡ true
      → x.unserved ≡ true
      → Serves x
  launched-Serves context h s x made task_made readable runs r = Served-Serves readable (
      Reach-Served sema reader kernel
        (launched-Has sema reader kernel context h s made task_made runs) r)
