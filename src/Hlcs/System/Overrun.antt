-- ===== src/Hlcs/System/Overrun.antt =====
-- Clients that fill the queue while the task runs a self test:
-- example/services/hwLockCtrlService/src/hwLockCtrlService.c.
use cpputest_for_freertos.Hlcs.{
  Kernel, statics, Effect, Signal, queue_depth, Driver, Hlcs, sig_request_self_test,
  sig_request_locked, lock_state_unknown, notify_self_test, lock_state_locked, hw_self_test,
}
use cpputest_for_freertos.Service.{ok}
use cpputest_for_freertos.Hlcs.System.{
  System, Reach, after, later, asks, works, begin, begins, receives, acts, waiting, holding,
  stopped, after_command, TaskStep, stores, tells,
}
use cpputest_for_freertos.Hlcs.System.Inv.{Holds, Stands, Stands-queue, Holds-of}
use cpputest_for_freertos.Hlcs.Start.{pushed}
use cpputest_for_freertos.Service.EventQueue.{EventQueue}
use cpputest_for_freertos.Base.{
  List, ◌≡◌, true, length, ◌+◌, ◌≤◌, ◌++◌, subst, sym, append-nil, append_assoc, ◌∷◌, arith, [],
  Bool, length-append, some, refl, if◌then◌else◌, ap, ◌∙◌,
}
use cpputest_for_freertos.Hlcs.Process.{Lock, shut, self_tested}
use cpputest_for_freertos.Hlcs.Drain.{all_requests, is_request}
use cpputest_for_freertos.Hlcs.System.Kept.Push.{push-room}
use cpputest_for_freertos.Hlcs.System.Kept.Receive.{receive-next, Holds-taken, after_receive}
use cpputest_for_freertos.Hlcs.System.Launch.{Willing, launched, launch, launch-Holds, launched_lem}
use cpputest_for_freertos.Hlcs.System.Kept.Results.{
  informed, tell_state_lem, told-Stands, stored-Telling, starting-Storing,
}
use cpputest_for_freertos.Hlcs.System.Works.{waiting_in}
use cpputest_for_freertos.Hlcs.System.Commands.{
  starting, initialize_command_lem, command-self_test_full,
}
use cpputest_for_freertos.Hlcs.Machine.{test_result}

module _ {Q : Type 0} (events : EventQueue Q Signal queue_depth) (driver : Driver)
    (kernel : Kernel) where
  open events use {create, receive, send_to_back, contents, front_full}

  abbrev Reached : Hlcs Q → System Q → Type 0
  Reached = Reach events driver kernel

  abbrev Having : Hlcs Q → Q → List Signal → Type 0
  Having = Holds events driver kernel

  abbrev Standing : Hlcs Q → Lock → Type 0
  Standing = Stands events driver kernel

  -- A state in which the task holds a request to test, and `es` wait.
  record Held (start : Hlcs Q) (es : List Signal) : Type 0 where
    service : Hlcs Q
    queue : Q
    reached : Reached start (record { service = service; phase = holding sig_request_self_test })
    holds : Having service queue es
    stands : Standing service shut

  -- Requests pushed meanwhile.
  ask_all :
      {start : Hlcs Q} (es ds : List Signal)
      → Held start ds
      → all_requests es ≡ true
      → length ds + length es ≤ queue_depth
      → Held start (ds ++ es)
  ask_all {start} [] ds h all room = subst (Held start) (sym (append-nil ds)) h
  ask_all {start} (e ∷ es) ds h all room =
      let r : is_request e ≡ true = ground (arith, all) in
      let (runs, h') =
        push-room events driver kernel e h.service h.queue ds h.holds r (omega (arith, room)) in
      subst (Held start) (append_assoc ds (e ∷ []) es) (
        ask_all es (ds ++ e ∷ [])
          (record {
            service = pushed events driver kernel e h.service h.queue;
            queue = (send_to_back e h.queue).1;
            reached =
                subst (λ out. Reached start (after h.service (holding sig_request_self_test) out))
                  runs (later h.reached (asks e r refl));
            holds = h';
            stands = Stands-queue events driver kernel h.stands;
          })
          (ground (arith, all)) (omega (arith, room, length-append ds (e ∷ []))))

  -- The service after the task's first state.
  abbrev begun : Hlcs Q → Hlcs Q
  begun start =
      informed events driver kernel
        (record (starting events driver kernel start) { lock_state = lock_state_locked })

  begun-Reach : (start : Hlcs Q) → Reached start (record { service = begun start; phase = waiting })
  begun-Reach start =
      let commanded =
        subst (λ out. Reached start (after_command start out))
          (initialize_command_lem events driver kernel start) (later begin (works begins)) in
      let stored : Hlcs Q = record (starting events driver kernel start) {
        lock_state = lock_state_locked;
      } in
      subst (λ out. Reached start (after stored waiting out))
        (tell_state_lem events driver kernel stored)
        (later (later commanded (works stores)) (works tells))

  begun-Stands :
      (start : Hlcs Q) (q : Q) → start.lock_state ≡ lock_state_unknown → Standing (begun start) shut
  begun-Stands start q e =
      let stored : Hlcs Q = record (starting events driver kernel start) {
        lock_state = lock_state_locked;
      } in
      told-Stands events driver kernel stored q shut (
        stored-Telling events driver kernel (starting events driver kernel start) q shut
          (starting-Storing events driver kernel start e))

  -- The task takes up a request to test before another comes.
  hold_test :
      (start : Hlcs Q) (q : Q)
      → Having start q []
      → start.lock_state ≡ lock_state_unknown
      → Held start []
  hold_test start q h e =
      let s = begun start in
      let h' = Holds-of events driver kernel {t = s} h h.has h.goes_on in
      let (runs, h'') =
        push-room events driver kernel sig_request_self_test s q [] h' refl (omega arith) in
      let t = pushed events driver kernel sig_request_self_test s q in
      let q' = (send_to_back sig_request_self_test q).1 in
      let r1 : Reached start (record { service = t; phase = waiting }) =
        subst (λ out. Reached start (after s waiting out)) runs
          (later (begun-Reach start) (asks sig_request_self_test refl refl)) in
      record {
        service = after_receive events driver kernel t q';
        queue = (receive q').1;
        reached =
            subst (Reached start)
              (receive-next events driver kernel t q' sig_request_self_test [] refl h''.waits)
              (later r1 (works (receives h''.goes_on)));
        holds = Holds-taken events driver kernel t q' sig_request_self_test [] h'';
        stands =
            Stands-queue events driver kernel {x = some (receive q').1}
              (Stands-queue events driver kernel {x = t.event_queue} (begun-Stands start q e));
      }

  -- The effects of a self test, last first.
  abbrev pub tested : Hlcs Q → List Effect
  tested s =
      if s.self_test_result_callback
      then notify_self_test (test_result (driver.self_test s.log)) ∷ hw_self_test ∷ s.log
      else hw_self_test ∷ s.log

  -- The task holds a request to test while `es` wait, and its step then tests and fails on line 233,
  -- with `es` waiting still.
  pub record Overruns (start : Hlcs Q) (es : List Signal) : Type 0 where
    pub before : Hlcs Q
    pub stopped_in : Hlcs Q
    pub reached : Reached start (record { service = before; phase = holding sig_request_self_test })
    pub waits_before : waiting_in events driver kernel before.event_queue ≡ es
    pub fails :
        TaskStep events driver kernel
          (record { service = before; phase = holding sig_request_self_test })
          (record { service = stopped_in; phase = stopped 233 })
    pub has_tested : stopped_in.log ≡ tested before
    pub waits_after : waiting_in events driver kernel stopped_in.event_queue ≡ es

  overrun :
      {start : Hlcs Q} {es : List Signal}
      → Held start es
      → queue_depth ≤ length es
      → Overruns start es
  overrun {start} {es} h fills =
      let full =
        front_full sig_request_locked h.queue
          (subst (λ xs. queue_depth ≤ length xs) (sym h.holds.waits) fills) in
      record {
        before = h.service;
        stopped_in = self_tested events driver kernel shut h.service h.queue;
        reached = h.reached;
        waits_before = ap (waiting_in events driver kernel) h.holds.has ∙ h.holds.waits;
        fails =
            subst
              (λ out.
                TaskStep events driver kernel
                  (record { service = h.service; phase = holding sig_request_self_test })
                  (after_command h.service out))
              (command-self_test_full events driver kernel h.service shut h.holds.has
                h.stands.current full.0)
              acts;
        has_tested = refl;
        waits_after = full.1 ∙ h.holds.waits;
      }

  -- Let the kernel create the queue, the timer and the task and start the timer. Whatever ten
  -- requests clients push, the start for normal use leads to a state in which the task holds a
  -- request to test and the ten wait in their order; its next step performs the self test, calls a
  -- registered callback with the result, and fails the assertion on line 233, with the ten still
  -- waiting.
  pub self_test-overrun :
      (on_state on_test : Bool) (q : Q) (log : List Effect) (es : List Signal)
      → create ≡ some q
      → Willing kernel
      → all_requests es ≡ true
      → length es ≡ queue_depth
      → (s : Hlcs Q) × (launched events driver kernel on_state on_test
            (record statics { log = log })
          ≡ ok tt s)
        × Overruns s es
  self_test-overrun on_state on_test q log es made k all ten =
      let s = launch events driver kernel on_state on_test q log in
      let h = hold_test s q (launch-Holds events driver kernel on_state on_test q log made) refl in
      (
        s,
        launched_lem events driver kernel on_state on_test q log made k,
        overrun (ask_all es [] h all (omega (arith, ten))) (omega (arith, ten)),
      )
