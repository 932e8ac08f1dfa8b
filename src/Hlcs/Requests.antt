-- ===== src/Hlcs/Requests.antt =====
-- What one event does to a service that rests in a position: `HLCS_ProcessOneEvent` of
-- example/services/hwLockCtrlService/src/hwLockCtrlService.c.
use cpputest_for_freertos.Hlcs.{
  Hlcs, Signal, Driver, Kernel, queue_depth, sig_request_current_check, sig_request_self_test,
  below_2000, hw_read_current,
}
use cpputest_for_freertos.Service.EventQueue.{EventQueue}
use cpputest_for_freertos.Hlcs.Process.{
  Lock, Rests, request_of, other, moved, checked, self_tested, returned, process, process-next,
  dispatch-same, dispatch-other, dispatch-current_check, dispatch-self_test, dispatch-return,
}
use cpputest_for_freertos.Service.{Outcome, ok}
use cpputest_for_freertos.Base.{
  List, Bool, ◌≡◌, ◌∷◌, true, some, length, ◌<◌, subst, sym, ◌∙◌, ap, refl, arith,
}

module _ {Q : Type 0} (events : EventQueue Q Signal queue_depth) (driver : Driver)
    (kernel : Kernel) where
  open events use {send_to_front, receive, front_room, receive_first}

  abbrev pub Resting : Hlcs Q → Lock → Q → List Signal → Type 0
  Resting = Rests events driver kernel

  abbrev pub one_event : Hlcs Q → Outcome (Hlcs Q) Bool
  one_event = process events driver kernel

  -- From `s` one event leads to `s'`, which rests in position `l`, with `es` in its queue `q`.
  pub record Leads (s s' : Hlcs Q) (l : Lock) (q : Q) (es : List Signal) : Type 0 where
    pub runs : one_event s ≡ ok true s'
    pub rests : Resting s' l q es

  module _ (s : Hlcs Q) (l : Lock) (q : Q) (es : List Signal) where
    -- Let the lock service rest in a position, with a request for this position first. Then one
    -- call returns true, takes the request from the queue, and changes nothing else.
    pub same_request :
        Resting s l q (request_of l ∷ es)
        → Leads s (record s { event_queue = some (receive q).1 }) l (receive q).1 es
    same_request v = record {
      runs =
          process-next events driver kernel s v.has v.waits
          ∙ dispatch-same events driver kernel (record s { event_queue = some (receive q).1 }) l
              refl v.current;
      rests = record {
        has = refl;
        waits = (receive_first q (request_of l) es v.waits).1;
        current = v.current;
        shows = v.shows;
      };
    }

    -- Let the lock service rest in a position, with a request for the other position first. Then
    -- one call returns true, drives the lock, shows the other position, reports it where a callback
    -- is registered, remembers the old position as history, and leaves the service at rest in the
    -- other position with the other events pending.
    pub other_request :
        Resting s l q (request_of (other l) ∷ es)
        → Leads s (moved events driver kernel (other l) s (receive q).1) (other l) (receive q).1 es
    other_request v = record {
      runs =
          process-next events driver kernel s v.has v.waits
          ∙ dispatch-other events driver kernel (record s { event_queue = some (receive q).1 }) l
              refl v.current;
      rests = record {
        has = refl;
        waits = (receive_first q (request_of (other l)) es v.waits).1;
        current = refl;
        shows = refl;
      };
    }

    -- Let the lock service rest in a position, with a request to check the current first. Then one
    -- call reads the current; it returns true where that is below 2000 mA, and fails the assertion
    -- on line 425 where it is not.
    pub current_check :
        Resting s l q (sig_request_current_check ∷ es)
        → one_event s ≡ checked events driver kernel (record s { event_queue = some (receive q).1 })
    current_check v =
        process-next events driver kernel s v.has v.waits
        ∙ dispatch-current_check events driver kernel
            (record s { event_queue = some (receive q).1 }) l refl v.current

    pub current_check_low :
        Resting s l q (sig_request_current_check ∷ es)
        → below_2000 (driver.read_current s.log) ≡ true
        → Leads s
            (record s { event_queue = some (receive q).1; log = hw_read_current ∷ s.log })
            l
            (receive q).1
            es
    current_check_low v low = record {
      runs = current_check v ∙ ground (arith, low);
      rests = record {
        has = refl;
        waits = (receive_first q sig_request_current_check es v.waits).1;
        current = v.current;
        shows = v.shows;
      };
    }

    -- The queue while the self test runs.
    abbrev pub with_return : Q
    with_return = (send_to_front (request_of l) (receive q).1).1

    -- Let the lock service rest in a position, with a request to test first and fewer than ten
    -- events behind it. Then one call runs the self test, reports its result where a callback is
    -- registered, and puts the request for the old position in front of the others; the next call
    -- drives the lock to the old position again, and the service rests there with the other events
    -- pending.
    pub self_test_request :
        Resting s l q (sig_request_self_test ∷ es)
        → length es < queue_depth
        → let s' = self_tested events driver kernel l s (receive q).1 in
          let s'' = returned events driver kernel l s' (receive with_return).1 in
          (one_event s ≡ ok true s') × Leads s' s'' l (receive with_return).1 es
    self_test_request v room =
        let at = receive_first q sig_request_self_test es v.waits in
        let front =
          front_room (request_of l) (receive q).1
            (subst (λ xs. length xs < queue_depth) (sym at.1) room) in
        let waits = front.1 ∙ ap (λ xs. request_of l ∷ xs) at.1 in
        let s' = self_tested events driver kernel l s (receive q).1 in
        (
          process-next events driver kernel s v.has v.waits
              ∙ dispatch-self_test events driver kernel
                  (record s { event_queue = some (receive q).1 }) l refl v.current front.0,
          record {
            runs =
                process-next events driver kernel s' refl waits
                ∙ dispatch-return events driver kernel
                    (record s' { event_queue = some (receive with_return).1 }) l refl refl;
            rests = record {
              has = refl;
              waits = (receive_first with_return (request_of l) es waits).1;
              current = refl;
              shows = refl;
            };
          },
        )
