-- ===== src/Hlcs/System/Kept/Results.antt =====
-- The states in which the task ends when it has processed an event:
-- example/services/hwLockCtrlService/src/hwLockCtrlService.c.
use cpputest_for_freertos.Hlcs.{
  Kernel, SelfTestResult, Signal, queue_depth, Effect, Driver, Hlcs, hw_read_current,
  notify_self_test, hw_self_test, LockState, lock_state_unknown, notify_state,
}
use cpputest_for_freertos.Hlcs.System.Inv.{
  Holds, Stands, InTest, last_command, last_notified, Storing, Telling, unknown, known,
}
use cpputest_for_freertos.Base.{
  Bool, List, ◌≡◌, true, if◌then◌else◌, length, ◌∷◌, ◌<◌, refl, ◌∙◌, subst, sym, false, ap, arith,
  inl, inr, ◌⊎◌, some, Bool-cases,
}
use cpputest_for_freertos.Hlcs.Process.{
  Lock, request_of, self_tested, shut, opened, command_of, other, state_of,
}
use cpputest_for_freertos.Service.EventQueue.{EventQueue}
use cpputest_for_freertos.Hlcs.Drain.{is_request}
use cpputest_for_freertos.Hlcs.Machine.{test_result, tell_state}
use cpputest_for_freertos.Hlcs.System.Commands.{starting, moving, returning}
use cpputest_for_freertos.Service.{ok}

last_command-tested :
    (callback : Bool) (result : SelfTestResult) (log : List Effect)
    → last_command
        (if callback then notify_self_test result ∷ hw_self_test ∷ log else hw_self_test ∷ log)
      ≡ last_command log
last_command-tested true result log = refl
last_command-tested false result log = refl

last_notified-tested :
    (callback : Bool) (result : SelfTestResult) (log : List Effect)
    → last_notified
        (if callback then notify_self_test result ∷ hw_self_test ∷ log else hw_self_test ∷ log)
      ≡ last_notified log
last_notified-tested true result log = refl
last_notified-tested false result log = refl

abbrev pub told_log : Bool → LockState → List Effect → List Effect
told_log callback state log = if callback then notify_state state ∷ log else log

last_command-command : (l : Lock) (log : List Effect) → last_command (command_of l ∷ log) ≡ some l
last_command-command shut log = refl
last_command-command opened log = refl

last_command-told :
    (callback : Bool) (state : LockState) (log : List Effect)
    → last_command (told_log callback state log) ≡ last_command log
last_command-told true state log = refl
last_command-told false state log = refl

last_notified-told :
    (callback : Bool) (state : LockState) (log : List Effect) (l : Lock)
    → state ≡ state_of l
    → (callback ≡ false) ⊎ (last_notified (told_log callback state log) ≡ some (state_of l))
last_notified-told true state log l e = inr (ap some e)
last_notified-told false state log l e = inl refl

is_request-request_of : (l : Lock) → is_request (request_of l) ≡ true
is_request-request_of shut = refl
is_request-request_of opened = refl

module _ {Q : Type 0} (events : EventQueue Q Signal queue_depth) (driver : Driver)
    (kernel : Kernel) where
  open events use {send_to_front, front_room}

  abbrev Having : Hlcs Q → Q → List Signal → Type 0
  Having = Holds events driver kernel

  abbrev Standing : Hlcs Q → Lock → Type 0
  Standing = Stands events driver kernel

  last_notified-command :
      (s : Hlcs Q) (l m : Lock)
      → (s.state_changed_callback ≡ false) ⊎ (last_notified s.log ≡ some (state_of m))
      → (s.state_changed_callback ≡ false)
        ⊎ (last_notified (command_of l ∷ s.log) ≡ some (state_of m))
  last_notified-command s shut m told = told
  last_notified-command s opened m told = told

  pub starting-Storing :
      (s : Hlcs Q)
      → s.lock_state ≡ lock_state_unknown
      → Storing events driver kernel (starting events driver kernel s) shut
  starting-Storing s e = record { current = refl; commanded = refl; stale = unknown e }

  -- The service after the callback has been called.
  abbrev pub informed : Hlcs Q → Hlcs Q
  informed s = record s { log = told_log s.state_changed_callback s.lock_state s.log }

  pub tell_state_lem : (s : Hlcs Q) → tell_state events driver s ≡ ok tt (informed s)
  tell_state_lem s = elim (Bool-cases s.state_changed_callback) [
    | inl e ↦ ground (arith, e)
    | inr e ↦ ground (arith, e)
  ]

  module _ (s : Hlcs Q) (q : Q) (l : Lock) where
    pub moving-Storing :
        Standing s (other l) → Storing events driver kernel (moving events driver kernel l s) l
    moving-Storing st = record {
      current = refl;
      commanded = last_command-command l s.log;
      stale = known (other l) st.shows (last_notified-command s l (other l) st.told);
    }

    pub returning-Storing :
        InTest events driver kernel s l
        → Storing events driver kernel (returning events driver kernel l s) l
    returning-Storing st = record {
      current = refl;
      commanded = last_command-command l s.log;
      stale = known l st.shows (last_notified-command s l l st.told);
    }

    pub stored-Telling :
        Storing events driver kernel s l
        → Telling events driver kernel (record s { lock_state = state_of l }) l
    stored-Telling st = record { current = st.current; shows = refl; commanded = st.commanded }

    pub told-Stands : Telling events driver kernel s l → Standing (informed s) l
    told-Stands st = record {
      current = st.current;
      shows = st.shows;
      commanded = last_command-told s.state_changed_callback s.lock_state s.log ∙ st.commanded;
      told = last_notified-told s.state_changed_callback s.lock_state s.log l st.shows;
    }

    pub read-Stands : Standing s l → Standing (record s { log = hw_read_current ∷ s.log }) l
    read-Stands st = record {
      current = st.current;
      shows = st.shows;
      commanded = st.commanded;
      told = st.told;
    }

    pub tested-InTest :
        Standing s l → InTest events driver kernel (self_tested events driver kernel l s q) l
    tested-InTest st = record {
      current = refl;
      shows = st.shows;
      commanded =
          last_command-tested s.self_test_result_callback (test_result (driver.self_test s.log))
            s.log
          ∙ st.commanded;
      told = elim st.told [
        | inl e ↦ inl e
        | inr e ↦ inr (
            last_notified-tested s.self_test_result_callback (test_result (driver.self_test s.log))
              s.log
            ∙ e)
      ];
      history = refl;
    }

    pub tested-Holds :
        (es : List Signal)
        → Having s q es
        → length es < queue_depth
        → ((send_to_front (request_of l) q).0 ≡ true)
          × Having
              (self_tested events driver kernel l s q)
              (send_to_front (request_of l) q).1
              (request_of l ∷ es)
    tested-Holds es h room =
        let at =
          front_room (request_of l) q (subst (λ xs. length xs < queue_depth) (sym h.waits) room) in
        (
          at.0,
          record {
            has = refl;
            waits = at.1 ∙ ap (λ xs. request_of l ∷ xs) h.waits;
            requests = ground (arith, is_request-request_of l, h.requests);
            fits = ground (arith, room);
            goes_on = h.goes_on;
          },
        )
