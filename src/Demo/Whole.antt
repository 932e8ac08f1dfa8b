-- ===== src/Demo/Whole.antt =====
-- The whole demo: `main`, the keys typed, and the task of the lock service:
-- example/apps/demoPcApp/main.cpp.
use cpputest_for_freertos.Hlcs
use cpputest_for_freertos.Button
use cpputest_for_freertos.Demo
use cpputest_for_freertos.Service.{ok}
use cpputest_for_freertos.Demo.{
  Demo, main, heard, lock_state_change_callback, self_test_result_callback, user_input_task,
  waits_for_key,
}
use cpputest_for_freertos.Hlcs.Api
use cpputest_for_freertos.Hlcs.{
  Effect, hw_init, hw_lock, hw_unlock, hw_self_test, hw_read_current, notify_state,
  notify_self_test, task_created, task_deleted, queue_deleted, timer_created, timer_started,
  timer_deleted, LockState, Signal, queue_depth, Driver, Hlcs, below_2000,
}
use cpputest_for_freertos.Hlcs.System.Launch.{Willing, launch, launch-Holds}
use cpputest_for_freertos.Base.{
  List, ◌≡◌, some, arith, Bool, true, [], ◌∷◌, ℕ, false, length, ◌≤◌, ◌<◌, inl, inr, ap, ◌∙◌, refl,
}
use cpputest_for_freertos.Service.EventQueue.{EventQueue}
use cpputest_for_freertos.Hlcs.System.Inv.{last_notified}
use cpputest_for_freertos.Service.BinarySemaphore.{BinarySemaphore}
use cpputest_for_freertos.Button.{Reader}
use cpputest_for_freertos.Hlcs.Process.{Lock, state_of, shut}
use cpputest_for_freertos.Hlcs.System.Works.{Quiets, created-Quiets}
use cpputest_for_freertos.Hlcs.System.Inv.{Holds}
use cpputest_for_freertos.Demo.Spec.{leaves, requests_of}
use cpputest_for_freertos.Hlcs.System.{created}
use cpputest_for_freertos.Demo.Typed.{HlcsEnd, stays, destroyed, exit_event, end_of}
use cpputest_for_freertos.Hlcs.Drain.{follow_all}
use cpputest_for_freertos.Demo.Input.{user_input_task_lem}

-- `s_lastState` is the state that the callback was told last.
heard-last_state :
    (log : List Effect) (state : LockState)
    → last_notified log ≡ some state
    → (heard log).last_state ≡ state
unfolding heard lock_state_change_callback self_test_result_callback
heard-last_state [] state e = ground (arith, e)
heard-last_state (notify_state st ∷ log) state e = ground (arith, e)
heard-last_state (notify_self_test r ∷ log) state e = heard-last_state log state e
heard-last_state (hw_init ∷ log) state e = heard-last_state log state e
heard-last_state (hw_lock ∷ log) state e = heard-last_state log state e
heard-last_state (hw_unlock ∷ log) state e = heard-last_state log state e
heard-last_state (hw_self_test ∷ log) state e = heard-last_state log state e
heard-last_state (hw_read_current ∷ log) state e = heard-last_state log state e
heard-last_state (task_created ∷ log) state e = heard-last_state log state e
heard-last_state (task_deleted ∷ log) state e = heard-last_state log state e
heard-last_state (queue_deleted ∷ log) state e = heard-last_state log state e
heard-last_state (timer_created ∷ log) state e = heard-last_state log state e
heard-last_state (timer_started ∷ log) state e = heard-last_state log state e
heard-last_state (timer_deleted ∷ log) state e = heard-last_state log state e

module _ {Q S : Type 0} (events : EventQueue Q Signal queue_depth) (driver : Driver)
    (hlcs_kernel : Hlcs.Kernel) (sema : BinarySemaphore S) (reader : Reader)
    (button_kernel : Button.Kernel) where
  open events use {create}

  -- The kernel makes what the two services and the demo ask for.
  pub record Makes (q : Q) (h : S) (input_created : Bool) : Type 0 where
    pub queue_made : events.create ≡ some q
    pub sema_made : sema.create ≡ some h
    pub willing : Willing hlcs_kernel
    pub task_made : button_kernel.task_create ≡ true
    pub input_made : input_created ≡ true

  -- The demo when the scheduler starts.
  abbrev pub ready : Q → S → Demo Q S
  ready q h = record Demo.statics {
    hlcs = launch events driver hlcs_kernel true true q [];
    button = record Button.statics {
      event_sema = some h;
      thread = button_kernel.task_handle;
      callback = true;
      log = Button.task_created ∷ [];
    };
  }

  pub main_lem :
      {q : Q} {h : S} {b : Bool}
      → Makes q h b
      → main events driver hlcs_kernel sema reader button_kernel b Demo.statics ≡ ok tt (ready q h)
  unfolding main Api.init Api.start Api.register_change_state_callback
      Api.register_self_test_result_callback Button.init Button.start
      Button.register_button_change_callback
  main_lem v =
      let k = v.willing in
      ground (
        arith, v.queue_made, v.sema_made, v.task_made, v.input_made, k.timer_made, k.timer_begun,
        k.task_made,
      )

  -- The task of the lock service alone comes from `d` to rest in position `l`, and the demo shows
  -- that position.
  pub record Shows (d : Demo Q S) (l : Lock) : Type 0 where
    pub quiet : Quiets events driver hlcs_kernel (record { service = d.hlcs; phase = created }) l
    pub screen : (heard quiet.final.log).last_state ≡ state_of l

  stayed :
      {s t : Hlcs Q} {es : List Signal} {b : Bool}
      → b ≡ false
      → HlcsEnd events driver hlcs_kernel sema reader button_kernel s t es b
      → (q : Q) × (t ≡ record s { event_queue = some q }) × Holds events driver hlcs_kernel t q es
  stayed e (stays q same v) = (q, same, v)
  stayed e (destroyed log f) = ground (arith, e)

  created-Shows :
      ((log : List Effect) → below_2000 (driver.read_current log) ≡ true)
      → (d : Demo Q S) (q : Q) (es : List Signal) → d.hlcs.state_changed_callback ≡ true
      → Holds events driver hlcs_kernel d.hlcs q es
      → d.hlcs.lock_state ≡ Hlcs.lock_state_unknown
      → Shows d (follow_all shut es)
  created-Shows low d q es listens v unknown =
      let z = created-Quiets events driver hlcs_kernel low d.hlcs q es v unknown in
      record {
        quiet = z;
        screen = elim z.stands.told [
          | inl e ↦ absurd (ground (arith, e, z.listens, listens))
          | inr e ↦ heard-last_state z.final.log (state_of (follow_all shut es)) e
        ];
      }

  -- Let the kernel create what main asks for, let the driver read less than 2000 mA always, and let
  -- the keys ask for at most ten requests and not to exit. Then main comes to the start of the
  -- scheduler, the task for the keys comes to wait for the next, and the task of the lock service
  -- alone then comes to wait with no event, in the position to which the last request of the keys
  -- to lock or to unlock led, which is locked if there was none; the lock is commanded to this
  -- position, the service shows it, and the last state that the demo has been told of is that
  -- position.
  pub keys-Shows :
      (n : ℕ) (chs : List ℕ) (q : Q) (h : S) (input_created : Bool)
      → Makes q h input_created
      → ((log : List Effect) → below_2000 (driver.read_current log) ≡ true)
      → leaves chs ≡ false
      → length (requests_of chs) ≤ queue_depth
      → length chs < n
      → (d : Demo Q S) × (main events driver hlcs_kernel sema reader button_kernel input_created
            Demo.statics
          ≡ ok tt (ready q h))
        × (user_input_task events driver hlcs_kernel sema reader button_kernel n chs (ready q h)
            ≡ ok waits_for_key d)
        × Shows d (follow_all shut (requests_of chs))
  keys-Shows n chs q h b v low stay room short =
      let t =
        user_input_task_lem events driver hlcs_kernel sema reader button_kernel n chs (ready q h) q
          [] h short (launch-Holds events driver hlcs_kernel true true q [] v.queue_made) refl
          (omega (arith, room, ap exit_event stay)) in
      let (q', same, v') = stayed stay t.service in
      (
        t.final,
        main_lem v,
        t.runs ∙ ap (λ b. ok (end_of b) t.final) stay,
        created-Shows low t.final q' (requests_of chs)
            (ap (λ (s : Hlcs Q). s.state_changed_callback) same) v'
            (ap (λ (s : Hlcs Q). s.lock_state) same),
      )
