-- ===== src/Hlcs/System/Kept/Push.antt =====
-- A request that a client pushes, whatever the task is at: `HLCS_PushEvent` of
-- example/services/hwLockCtrlService/src/hwLockCtrlService.c.
use cpputest_for_freertos.Hlcs.{Kernel, Signal, queue_depth, Driver, Hlcs}
use cpputest_for_freertos.Service.{ok, asserted}
use cpputest_for_freertos.Base.{
  List, ◌≡◌, true, ◌++◌, ◌∷◌, length, ◌≤◌, [], ◌<◌, arith, subst, sym, Bool-cases, ◌∙◌, ltb, ap,
  inl, length-append, inr, refl,
}
use cpputest_for_freertos.Service.EventQueue.{EventQueue}
use cpputest_for_freertos.Hlcs.Drain.{all_requests, is_request}
use cpputest_for_freertos.Hlcs.System.{System, Phase, after}
use cpputest_for_freertos.Hlcs.System.Inv.{Inv, Holds, Reason, halts, no_room_back}
use cpputest_for_freertos.Hlcs.Start.{pushed}
use cpputest_for_freertos.Hlcs.Machine.{push_event}

pub all_requests-append :
    (es : List Signal) (e : Signal)
    → all_requests es ≡ true
    → is_request e ≡ true
    → all_requests (es ++ e ∷ []) ≡ true
all_requests-append [] e all r = ground (arith, r)
all_requests-append (d ∷ es) e all r =
    let rest : all_requests es ≡ true = ground (arith, all) in
    let first : is_request d ≡ true = ground (arith, all) in
    ground (arith, first, all_requests-append es e rest r)

module _ {Q : Type 0} (events : EventQueue Q Signal queue_depth) (driver : Driver)
    (kernel : Kernel) where
  open events use {send_to_back, contents, back_room, back_full}

  abbrev Kept : System Q → Type 0
  Kept = Inv events driver kernel

  abbrev Having : Hlcs Q → Q → List Signal → Type 0
  Having = Holds events driver kernel

  module _ (e : Signal) (s : Hlcs Q) (q : Q) (es : List Signal) (h : Having s q es)
      (r : is_request e ≡ true) where
    abbrev sent : Hlcs Q
    sent = pushed events driver kernel e s q

    pub push-room :
        length es < queue_depth
        → (push_event events driver e s ≡ ok tt sent)
          × Having sent (send_to_back e q).1 (es ++ e ∷ [])
    unfolding push_event
    push-room fits =
        let at = back_room e q (subst (λ xs. length xs < queue_depth) (sym h.waits) fits) in
        (
          ground (arith, h.has, at.0),
          record {
            has = refl;
            waits = at.1 ∙ ap (λ xs. xs ++ e ∷ []) h.waits;
            requests = all_requests-append es e h.requests r;
            fits = omega (arith, fits, length-append es (e ∷ []));
            goes_on = h.goes_on;
          },
        )

    push-full :
        queue_depth ≤ length es
        → (push_event events driver e s ≡ asserted 219 sent) × Reason events driver kernel sent 219
    unfolding push_event
    push-full fills =
        let full = subst (λ xs. queue_depth ≤ length xs) (sym h.waits) fills in
        let at = back_full e q full in
        (
          ground (arith, h.has, at.0),
          no_room_back _ refl (subst (λ xs. queue_depth ≤ length xs) (sym at.1) full),
        )

    pub push-Inv :
        (phase : Phase)
        → (Having sent (send_to_back e q).1 (es ++ e ∷ [])
            → Kept (record { service = sent; phase = phase }))
        → Kept (after s phase (push_event events driver e s))
    push-Inv phase k = elim (Bool-cases (ltb (length es) queue_depth)) [
      | inl fits ↦
          let (runs, h') = push-room (ground (arith, fits)) in
          subst (λ out. Kept (after s phase out)) (sym runs) (k h')
      | inr fills ↦
          let (runs, why) = push-full (ground (arith, fills)) in
          subst (λ out. Kept (after s phase out)) (sym runs) (halts why)
    ]
