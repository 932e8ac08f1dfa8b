-- ===== src/Hlcs/System/Kept/Act.antt =====
-- What the task does with an event, whatever its clients have pushed meanwhile: `HLCS_SmProcess` of
-- example/services/hwLockCtrlService/src/hwLockCtrlService.c.
use cpputest_for_freertos.Hlcs.{
  Kernel, Signal, queue_depth, Driver, Hlcs, sig_request_self_test, sig_request_current_check,
  sig_request_thread_exit, below_2000, sm_enter, sig_request_locked, sig_request_unlocked, sm_exit,
  hw_read_current,
}
use cpputest_for_freertos.Service.{ok, asserted, Outcome}
use cpputest_for_freertos.Base.{
  Bool, List, ◌≡◌, true, if◌then◌else◌, refl, ◌∷◌, subst, arith, sym, Bool-cases, ltb, false,
  length, inl, inr, ◌≤◌, Option, none,
}
use cpputest_for_freertos.Hlcs.Process.{Lock, request_of, shut, other, opened, state_of}
use cpputest_for_freertos.Service.EventQueue.{EventQueue}
use cpputest_for_freertos.Hlcs.Drain.{is_request}
use cpputest_for_freertos.Hlcs.System.Inv.{rests, Holds-of, Storing, Telling, enters, informs}
use cpputest_for_freertos.Hlcs.System.Inv.{
  Inv, Holds, Stands, InTest, tests, halts, no_room_front, high_current,
}
use cpputest_for_freertos.Hlcs.System.{System, after, waiting, after_command, telling}
use cpputest_for_freertos.Hlcs.System.Kept.Results.{
  tested-Holds, read-Stands, tested-InTest, tell_state_lem, moving-Storing, returning-Storing,
  told-Stands, stored-Telling,
}
use cpputest_for_freertos.Hlcs.Command.{dispatch_command}
use cpputest_for_freertos.Hlcs.System.Commands.{
  command-same, command-other, command-self_test, command-current_check, command-return,
  command-self_test_full,
}
use cpputest_for_freertos.Hlcs.Machine.{tell_state, store_state}

pub other-other : (l : Lock) → other (other l) ≡ l
other-other shut = refl
other-other opened = refl

module _ {Q : Type 0} (events : EventQueue Q Signal queue_depth) (driver : Driver)
    (kernel : Kernel) where
  open events use {send_to_front, contents, front_room, front_full}

  abbrev Kept : System Q → Type 0
  Kept = Inv events driver kernel

  abbrev Having : Hlcs Q → Q → List Signal → Type 0
  Having = Holds events driver kernel

  abbrev Standing : Hlcs Q → Lock → Type 0
  Standing = Stands events driver kernel

  module _ (s : Hlcs Q) (q : Q) (es : List Signal) (h : Having s q es) where
    abbrev acted : Signal → Outcome (Hlcs Q) (Option Lock)
    acted e = dispatch_command events driver e s

    by_outcome :
        (e : Signal) {out : Outcome (Hlcs Q) (Option Lock)}
        → acted e ≡ out
        → Kept (after_command s out)
        → Kept (after_command s (acted e))
    by_outcome e runs = subst (λ out. Kept (after_command s out)) (sym runs)

    module _ (l : Lock) (st : Standing s l) where
      same-Inv : Kept (after_command s (acted (request_of l)))
      same-Inv =
          by_outcome (request_of l) (command-same events driver kernel s l h.has st.current)
            (rests h st)

      other-Inv : Kept (after_command s (acted (request_of (other l))))
      other-Inv =
          by_outcome (request_of (other l))
            (command-other events driver kernel s l h.has st.current)
            (enters {l = other l} (Holds-of events driver kernel h h.has h.goes_on) (
              moving-Storing events driver kernel s q (other l)
                (subst (Standing s) (sym (other-other l)) st)))

      self_test-Inv : Kept (after_command s (acted sig_request_self_test))
      self_test-Inv = elim (Bool-cases (ltb (length es) queue_depth)) [
        | inl fits ↦
            let (sent, h') = tested-Holds events driver kernel s q l es h (ground (arith, fits)) in
            by_outcome sig_request_self_test
              (command-self_test events driver kernel s l h.has st.current sent)
              (tests {l = l} h' (tested-InTest events driver kernel s q l st))
        | inr fills ↦
            let full : queue_depth ≤ length (contents q) =
              subst (λ xs. queue_depth ≤ length xs) (sym h.waits) (ground (arith, fills)) in
            let at = front_full (request_of l) q full in
            by_outcome sig_request_self_test
              (command-self_test_full events driver kernel s l h.has st.current at.0)
              (halts (no_room_front _ refl (subst (λ xs. queue_depth ≤ length xs) (sym at.1) full)))
      ]

      -- The service after it has read the current.
      abbrev read : Hlcs Q
      read = record s { log = hw_read_current ∷ s.log }

      read-Inv :
          (low : Bool)
          → below_2000 (driver.read_current s.log) ≡ low
          → Kept (after_command s (if low then ok none read else asserted 425 read))
      read-Inv true e =
          rests {l = l} (Holds-of events driver kernel h h.has h.goes_on)
            (read-Stands events driver kernel s q l st)
      read-Inv false e = halts (high_current s.log refl e)

      current_check-Inv : Kept (after_command s (acted sig_request_current_check))
      current_check-Inv =
          by_outcome sig_request_current_check
            (command-current_check events driver kernel s l h.has st.current)
            (read-Inv (below_2000 (driver.read_current s.log)) refl)

    pub request-Inv :
        (l : Lock) (e : Signal)
        → Standing s l
        → is_request e ≡ true
        → Kept (after_command s (acted e))
    request-Inv shut sig_request_locked st r = same-Inv shut st
    request-Inv shut sig_request_unlocked st r = other-Inv shut st
    request-Inv opened sig_request_locked st r = other-Inv opened st
    request-Inv opened sig_request_unlocked st r = same-Inv opened st
    request-Inv l sig_request_self_test st r = self_test-Inv l st
    request-Inv l sig_request_current_check st r = current_check-Inv l st
    request-Inv l sig_request_thread_exit st r = ground (arith, r)
    request-Inv l sm_enter st r = ground (arith, r)
    request-Inv l sm_exit st r = ground (arith, r)

    pub return-Inv :
        (l : Lock) → InTest events driver kernel s l → Kept (after_command s (acted (request_of l)))
    return-Inv l st =
        by_outcome (request_of l) (command-return events driver kernel s l st.current) (
          enters {l = l} (Holds-of events driver kernel h h.has h.goes_on)
            (returning-Storing events driver kernel s q l st))

    pub store-Inv :
        (l : Lock)
        → Storing events driver kernel s l
        → Kept (after s (telling l) (store_state events driver (state_of l) s))
    store-Inv l st =
        informs (Holds-of events driver kernel h h.has h.goes_on)
          (stored-Telling events driver kernel s q l st)

    pub tell-Inv :
        (l : Lock)
        → Telling events driver kernel s l
        → Kept (after s waiting (tell_state events driver s))
    tell-Inv l st =
        subst (λ out. Kept (after s waiting out)) (sym (tell_state_lem events driver kernel s))
          (rests {l = l} (Holds-of events driver kernel h h.has h.goes_on)
            (told-Stands events driver kernel s q l st))
