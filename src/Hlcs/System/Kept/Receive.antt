-- ===== src/Hlcs/System/Kept/Receive.antt =====
-- The start of the task, and its receive from the queue: `HLCS_SmInitialize` and
-- `HLCS_ProcessOneEvent` of example/services/hwLockCtrlService/src/hwLockCtrlService.c.
use cpputest_for_freertos.Hlcs.{Kernel, Signal, queue_depth, Driver, Hlcs, lock_state_unknown}
use cpputest_for_freertos.Hlcs.System.Inv.{Inv, Holds, Holds-of, enters}
use cpputest_for_freertos.Service.EventQueue.{EventQueue}
use cpputest_for_freertos.Hlcs.System.{
  System, ◌≡◌, waiting, received_from, holding, received, after_command,
}
use cpputest_for_freertos.Base.{List, some, ◌≡◌, ◌∷◌, [], arith, subst, ap, true, refl, sym, ◌∙◌}
use cpputest_for_freertos.Hlcs.Drain.{is_request}
use cpputest_for_freertos.Hlcs.Process.{shut}
use cpputest_for_freertos.Hlcs.Command.{initialize_command}
use cpputest_for_freertos.Hlcs.System.Commands.{initialize_command_lem}
use cpputest_for_freertos.Hlcs.System.Kept.Results.{starting-Storing}

module _ {Q : Type 0} (events : EventQueue Q Signal queue_depth) (driver : Driver)
    (kernel : Kernel) where
  open events use {receive, contents, receive_first, receive_none}

  abbrev Kept : System Q → Type 0
  Kept = Inv events driver kernel

  abbrev Having : Hlcs Q → Q → List Signal → Type 0
  Having = Holds events driver kernel

  pub begin-Inv :
      (s : Hlcs Q) (q : Q) (es : List Signal)
      → Having s q es
      → s.lock_state ≡ lock_state_unknown
      → Kept (after_command s (initialize_command events driver s))
  begin-Inv s q es h e =
      subst (λ out. Kept (after_command s out))
        (sym (initialize_command_lem events driver kernel s))
        (enters {l = shut} (Holds-of events driver kernel h h.has h.goes_on)
          (starting-Storing events driver kernel s e))

  -- The service after a receive.
  abbrev pub after_receive : Hlcs Q → Q → Hlcs Q
  after_receive s q = record s { event_queue = some (receive q).1 }

  module _ (s : Hlcs Q) (q : Q) where
    pub receive-next :
        (e : Signal) (es : List Signal)
        → s.event_queue ≡ some q
        → contents q ≡ e ∷ es
        → received_from events driver kernel s s.event_queue
          ≡ record { service = after_receive s q; phase = holding e }
    receive-next e es has waits =
        ap (received_from events driver kernel s) has
        ∙ ap (λ o. received events driver kernel s (o, (receive q).1))
            (receive_first q e es waits).0

    receive-nothing :
        s.event_queue ≡ some q
        → contents q ≡ []
        → received_from events driver kernel s s.event_queue
          ≡ record { service = after_receive s q; phase = waiting }
    receive-nothing has waits =
        ap (received_from events driver kernel s) has
        ∙ ap (λ o. received events driver kernel s (o, (receive q).1)) (receive_none q waits).0

    pub Holds-taken :
        (e : Signal) (es : List Signal)
        → Having s q (e ∷ es)
        → Having (after_receive s q) (receive q).1 es
    Holds-taken e es h = record {
      has = refl;
      waits = (receive_first q e es h.waits).1;
      requests = ground (arith, h.requests);
      fits = ground (arith, h.fits);
      goes_on = h.goes_on;
    }

    -- The receive keeps the invariant, if what holds of an event and of no event does.
    pub receive-Inv :
        (es : List Signal)
        → Having s q es
        → ((e : Signal) (ds : List Signal)
            → es ≡ e ∷ ds
            → is_request e ≡ true
            → Having (after_receive s q) (receive q).1 ds
            → Kept (record { service = after_receive s q; phase = holding e }))
        → (Having (after_receive s q) (receive q).1 []
            → Kept (record { service = after_receive s q; phase = waiting }))
        → Kept (received_from events driver kernel s s.event_queue)
    receive-Inv [] h next none_waits = subst Kept (sym (receive-nothing h.has h.waits)) (
        none_waits (record {
          has = refl;
          waits = (receive_none q h.waits).1;
          requests = h.requests;
          fits = h.fits;
          goes_on = h.goes_on;
        }))
    receive-Inv (e ∷ es) h next none_waits =
        subst Kept (sym (receive-next e es h.has h.waits))
          (next e es refl (ground (arith, h.requests)) (Holds-taken e es h))
