-- ===== src/Hlcs/System/Works.antt =====
-- The task alone works off what waits: `HLCS_Task` of
-- example/services/hwLockCtrlService/src/hwLockCtrlService.c.
use cpputest_for_freertos.Hlcs.{
  sig_request_unlocked, sig_request_thread_exit, sm_enter, sm_exit, hw_read_current, Kernel, Signal,
  queue_depth, Driver, Hlcs, Effect, below_2000, sig_request_self_test, sig_request_current_check,
  sig_request_locked, lock_state_unknown,
}
use cpputest_for_freertos.Service.{ok, asserted}
use cpputest_for_freertos.Hlcs.System.{
  System, TaskStep, Alone, next, after, receives, acts, created, waiting, holding, done, begins,
  after_command, storing, telling, tells, stores,
}
use cpputest_for_freertos.Hlcs.System.Inv.{
  Holds, Stands, InTest, InTest-queue, Holds-of, Stands-queue, Telling, Storing,
}
use cpputest_for_freertos.Base.{
  Option, some, List, none, [], ◌∷◌, ◌≡◌, true, subst, sym, length, ◌<◌, ap, ◌∙◌, arith, refl,
  if◌then◌else◌,
}
use cpputest_for_freertos.Service.EventQueue.{EventQueue}
use cpputest_for_freertos.Hlcs.Process.{
  Lock, shut, request_of, other, self_tested, opened, state_of,
}
use cpputest_for_freertos.Hlcs.System.Kept.Receive.{after_receive, receive-next, Holds-taken}
use cpputest_for_freertos.Hlcs.Drain.{follow_all, is_request, follow}
use cpputest_for_freertos.Hlcs.System.Kept.Results.{
  tested-Holds, tested-InTest, read-Stands, returning-Storing, moving-Storing, tell_state_lem,
  stored-Telling, starting-Storing, told-Stands, informed,
}
use cpputest_for_freertos.Hlcs.Command.{dispatch_command}
use cpputest_for_freertos.Hlcs.System.Commands.{
  command-return, command-same, command-other, command-self_test, returning, moving,
  command-current_check, initialize_command_lem, starting,
}
use cpputest_for_freertos.Hlcs.System.Kept.Act.{other-other}

module _ {Q : Type 0} (events : EventQueue Q Signal queue_depth) (driver : Driver)
    (kernel : Kernel) where
  open events use {create, receive, contents, receive_first}

  abbrev Having : Hlcs Q → Q → List Signal → Type 0
  Having = Holds events driver kernel

  abbrev Standing : Hlcs Q → Lock → Type 0
  Standing = Stands events driver kernel

  abbrev pub waiting_in : Option Q → List Signal
  waiting_in none = []
  waiting_in (some q) = contents q

  -- The task alone comes from `x` to rest with no event, in position `l`.
  pub record Quiets (x : System Q) (l : Lock) : Type 0 where
    pub final : Hlcs Q
    pub run : Alone events driver kernel x (record { service = final; phase = waiting })
    pub nothing_waits : waiting_in final.event_queue ≡ []
    pub stands : Standing final l
    pub listens : final.state_changed_callback ≡ x.service.state_changed_callback

  first_step :
      {x y z : System Q} {l : Lock}
      → TaskStep events driver kernel x y
      → y ≡ z
      → z.service.state_changed_callback ≡ x.service.state_changed_callback
      → Quiets z l
      → Quiets x l
  first_step {x} {y} {z} st e listens later = record {
    final = later.final;
    run = next st (
        subst
          (λ w. Alone events driver kernel w (record { service = later.final; phase = waiting }))
          (sym e) later.run);
    nothing_waits = later.nothing_waits;
    stands = later.stands;
    listens = later.listens ∙ listens;
  }

  act_step :
      (e : Signal) {s t : Hlcs Q} {l : Lock}
      → dispatch_command events driver e s ≡ ok none t
      → t.state_changed_callback ≡ s.state_changed_callback
      → Quiets (record { service = t; phase = waiting }) l
      → Quiets (record { service = s; phase = holding e }) l
  act_step e {s} {t} {l} runs = first_step acts (ap (after_command s) runs)

  enter_step :
      (e : Signal) (m : Lock) {s t : Hlcs Q} {l : Lock}
      → dispatch_command events driver e s ≡ ok (some m) t
      → t.state_changed_callback ≡ s.state_changed_callback
      → Quiets (record { service = t; phase = storing m }) l
      → Quiets (record { service = s; phase = holding e }) l
  enter_step e m {s} {t} {l} runs = first_step acts (ap (after_command s) runs)

  receive_step :
      (e : Signal) (es : List Signal) {s : Hlcs Q} {q : Q} {l : Lock}
      → Having s q (e ∷ es)
      → Quiets (record { service = after_receive events driver kernel s q; phase = holding e }) l
      → Quiets (record { service = s; phase = waiting }) l
  receive_step e es {s} {q} {l} h =
      first_step (receives h.goes_on) (receive-next events driver kernel s q e es h.has h.waits)
        refl

  -- From rest, in any position, the task alone works off `es`.
  abbrev Works : List Signal → Type 0
  Works es =
      (l : Lock) (s : Hlcs Q) (q : Q)
      → Having s q es
      → Standing s l
      → Quiets (record { service = s; phase = waiting }) (follow_all l es)

  module _ (es : List Signal) (works_off : Works es) (l : Lock) (s : Hlcs Q) (q : Q)
      (h : Having s q es) where
    pub telling-Quiets :
        Telling events driver kernel s l
        → Quiets (record { service = s; phase = telling l }) (follow_all l es)
    telling-Quiets st =
        first_step tells (ap (after s waiting) (tell_state_lem events driver kernel s)) refl (
          works_off l (informed events driver kernel s) q
            (Holds-of events driver kernel h h.has h.goes_on)
            (told-Stands events driver kernel s q l st))

  module _ (es : List Signal) (works_off : Works es) (l : Lock) (s : Hlcs Q) (q : Q)
      (h : Having s q es) where
    pub storing-Quiets :
        Storing events driver kernel s l
        → Quiets (record { service = s; phase = storing l }) (follow_all l es)
    storing-Quiets st = first_step stores refl refl (
        telling-Quiets es works_off l (record s { lock_state = state_of l }) q
          (Holds-of events driver kernel h h.has h.goes_on)
          (stored-Telling events driver kernel s q l st))

  module _ (low : (log : List Effect) → below_2000 (driver.read_current log) ≡ true) where
    module _ (es : List Signal) (works_off : Works es) (l : Lock) (s : Hlcs Q) (q : Q) where
      pub return-Quiets :
          Having s q es
          → InTest events driver kernel s l
          → Quiets (record { service = s; phase = holding (request_of l) }) (follow_all l es)
      return-Quiets h st =
          enter_step (request_of l) l (command-return events driver kernel s l st.current) refl (
            storing-Quiets es works_off l (returning events driver kernel l s) q
              (Holds-of events driver kernel h h.has h.goes_on)
              (returning-Storing events driver kernel s q l st))

    module _ (es : List Signal) (works_off : Works es) (l : Lock) (s : Hlcs Q) (q : Q) where
      pub test-Quiets :
          Having s q (request_of l ∷ es)
          → InTest events driver kernel s l
          → Quiets (record { service = s; phase = waiting }) (follow_all l es)
      test-Quiets h st = receive_step (request_of l) es h (
          return-Quiets es works_off l (after_receive events driver kernel s q) (receive q).1
            (Holds-taken events driver kernel s q (request_of l) es h)
            (InTest-queue events driver kernel st))

    module _ (es : List Signal) (works_off : Works es) (s : Hlcs Q) (q : Q) (h : Having s q es)
        (room : length es < queue_depth) where
      same-Quiets :
          (l : Lock)
          → Standing s l
          → Quiets (record { service = s; phase = holding (request_of l) }) (follow_all l es)
      same-Quiets l st =
          act_step (request_of l) (command-same events driver kernel s l h.has st.current) refl
            (works_off l s q h st)

      other-Quiets :
          (l : Lock)
          → Standing s l
          → Quiets
              (record { service = s; phase = holding (request_of (other l)) })
              (follow_all (other l) es)
      other-Quiets l st =
          enter_step (request_of (other l)) (other l)
            (command-other events driver kernel s l h.has st.current) refl
            (storing-Quiets es works_off (other l) (moving events driver kernel (other l) s) q
              (Holds-of events driver kernel h h.has h.goes_on)
              (moving-Storing events driver kernel s q (other l)
                (subst (Standing s) (sym (other-other l)) st)))

      pub held-Quiets :
          (l : Lock) (e : Signal)
          → Standing s l
          → is_request e ≡ true
          → Quiets (record { service = s; phase = holding e }) (follow_all (follow l e) es)
      held-Quiets shut sig_request_locked st r = same-Quiets shut st
      held-Quiets opened sig_request_locked st r = other-Quiets opened st
      held-Quiets shut sig_request_unlocked st r = other-Quiets shut st
      held-Quiets opened sig_request_unlocked st r = same-Quiets opened st
      held-Quiets l sig_request_self_test st r =
          let (sent, h') = tested-Holds events driver kernel s q l es h room in
          act_step sig_request_self_test
            (command-self_test events driver kernel s l h.has st.current sent) refl
            (test-Quiets es works_off l (self_tested events driver kernel l s q)
              (events.send_to_front (request_of l) q).1 h'
              (tested-InTest events driver kernel s q l st))
      held-Quiets l sig_request_current_check st r =
          let t = record s { log = hw_read_current ∷ s.log } in
          act_step sig_request_current_check
            (command-current_check events driver kernel s l h.has st.current
              ∙ ap (λ b. if b then ok none t else asserted 425 t) (low s.log))
            refl
            (works_off l t q (Holds-of events driver kernel h h.has h.goes_on)
              (read-Stands events driver kernel s q l st))
      held-Quiets l sig_request_thread_exit st r = ground (arith, r)
      held-Quiets l sm_enter st r = ground (arith, r)
      held-Quiets l sm_exit st r = ground (arith, r)

    pub rest-Quiets : (es : List Signal) → Works es
    rest-Quiets [] l s q h st = record {
      final = s;
      run = done;
      nothing_waits = ap waiting_in h.has ∙ h.waits;
      stands = st;
      listens = refl;
    }
    rest-Quiets (e ∷ es) l s q h st = receive_step e es h (
        held-Quiets es (rest-Quiets es) (after_receive events driver kernel s q) (receive q).1
          (Holds-taken events driver kernel s q e es h) (ground (arith, h.fits)) l e
          (Stands-queue events driver kernel st) (ground (arith, h.requests)))

    pub created-Quiets :
        (s : Hlcs Q) (q : Q) (es : List Signal)
        → Having s q es
        → s.lock_state ≡ lock_state_unknown
        → Quiets (record { service = s; phase = created }) (follow_all shut es)
    created-Quiets s q es h e =
        first_step begins (ap (after_command s) (initialize_command_lem events driver kernel s))
          refl
          (storing-Quiets es (rest-Quiets es) shut (starting events driver kernel s) q
            (Holds-of events driver kernel h h.has h.goes_on)
            (starting-Storing events driver kernel s e))
