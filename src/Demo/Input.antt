-- ===== src/Demo/Input.antt =====
-- The whole of what is typed: `UserInputTask` of example/apps/demoPcApp/main.cpp.
use cpputest_for_freertos.Hlcs
use cpputest_for_freertos.Button
use cpputest_for_freertos.Service.{◌>>◌, Outcome}
use cpputest_for_freertos.Hlcs.System.Inv.{Holds}
use cpputest_for_freertos.Hlcs.Machine.{push_event}
use cpputest_for_freertos.Demo.Typed.{
  Typed, HlcsEnd, stays, input, asked, has_token, first_request, leaving, exit_event,
}
use cpputest_for_freertos.Demo.Read.{Idles, Reads, used_up, picked, read_keys_lem}
use cpputest_for_freertos.Demo.{
  lock, unlock, self_test, exit, Demo, InputEnd, lock_state_is, user_input_task, get_lock_state,
  get_user_action, heard, on_hlcs,
}
use cpputest_for_freertos.Service.EventQueue.{EventQueue}
use cpputest_for_freertos.Hlcs.{
  Signal, queue_depth, Driver, Hlcs, sig_request_locked, sig_request_unlocked,
  sig_request_self_test,
}
use cpputest_for_freertos.Service.BinarySemaphore.{BinarySemaphore}
use cpputest_for_freertos.Button.{Reader}
use cpputest_for_freertos.Base.{
  ◌||◌, ◌++◌, append-nil, ap, subst, sym, ◌∙◌, length-append, ℕ, List, length, ◌<◌, ◌+◌, ◌≡◌, some,
  ◌≤◌, suc, arith, Bool, subst, zero, sym, true, ◌∷◌, [], refl,
}
use cpputest_for_freertos.Demo.Spec.{requests_of, leaves, interrupts}
use cpputest_for_freertos.Hlcs.Drain.{is_request}
use cpputest_for_freertos.Hlcs.Api.{
  request_locked_async, request_unlocked_async, request_self_test_async,
}

module _ {Q S : Type 0} (events : EventQueue Q Signal queue_depth) (driver : Driver)
    (hlcs_kernel : Hlcs.Kernel) (sema : BinarySemaphore S) (reader : Reader)
    (button_kernel : Button.Kernel) where
  open events use {send_to_back}
  open sema use {get_count}

  abbrev Having : Hlcs Q → Q → List Signal → Type 0
  Having = Holds events driver hlcs_kernel

  abbrev Answers : ℕ → List ℕ → Demo Q S → List Signal → S → Type 0
  Answers = Typed events driver hlcs_kernel sema reader button_kernel

  abbrev typing : ℕ → List ℕ → Demo Q S → Outcome (Demo Q S) InputEnd
  typing = input events driver hlcs_kernel sema reader button_kernel

  -- The rounds that are left work off the keys that are left.
  abbrev Inputs : ℕ → Type 0
  Inputs n =
      (chs : List ℕ) (d : Demo Q S) (q : Q) (es : List Signal) (h : S)
      → length chs < n
      → Having d.hlcs q es
      → d.button.event_sema ≡ some h
      → length es + length (requests_of chs) + exit_event (leaves chs) ≤ queue_depth
      → Answers n chs d es h

  module _ (n : ℕ) (next : Inputs n) (chs : List ℕ) (d : Demo Q S) (q : Q) (es : List Signal)
      (h : S) (v : Having d.hlcs q es)
      (room : length es + length (requests_of chs) + exit_event (leaves chs) ≤ queue_depth)
      (short : length chs < suc n) where
    -- The demo after the menu.
    abbrev shown : Demo Q S
    shown = record d {
      menus = lock_state_is (get_lock_state (heard d.hlcs.log).last_state) ∷ d.menus;
    }

    from_menu :
        {d' : Demo Q S} {b : Bool} {h' : S}
        → Idles events driver hlcs_kernel sema reader button_kernel shown d' b h h'
        → Idles events driver hlcs_kernel sema reader button_kernel d d' b h h'
    from_menu i = record { before = i.before; same = i.same; rings = i.rings; count = i.count }

    untouched : (d' : Demo Q S) → d'.hlcs ≡ d.hlcs → Having d'.hlcs q es
    untouched d' e = subst (λ s. Having s q es) (sym e) v

    request_turn :
        (rest : List ℕ) (d' : Demo Q S) (e : Signal) {h' : S} {before : Bool}
        → is_request e ≡ true
        → typing (suc n) chs d ≡ (on_hlcs (push_event events driver e) >> typing n rest) d'
        → Idles events driver hlcs_kernel sema reader button_kernel d d' before h h'
        → length rest < length chs
        → leaves chs ≡ leaves rest
        → requests_of chs ≡ e ∷ requests_of rest
        → interrupts chs ≡ (before || interrupts rest)
        → Answers (suc n) chs d es h
    request_turn rest d' e {h'} r runs i lt l req int =
        let same : length (requests_of chs) ≡ suc (length (requests_of rest)) = ap length req in
        first_request events driver hlcs_kernel sema reader button_kernel n chs rest d d' i es q
          (untouched d' i.same) e r runs (omega (arith, room, same)) l req int
          (λ v'.
            next rest (asked events driver hlcs_kernel sema reader button_kernel e d' q)
              (send_to_back e q).1 (es ++ e ∷ []) h' (omega (arith, lt, short)) v'
              (has_token events driver hlcs_kernel sema reader button_kernel i)
              (omega (arith, room, same, ap exit_event l, length-append es (e ∷ []))))

    turn :
        Reads events driver hlcs_kernel sema reader button_kernel chs shown h
        → Answers (suc n) chs d es h
    unfolding user_input_task get_user_action request_locked_async request_unlocked_async
        request_self_test_async
    turn (used_up {d' = d'} {h' = h'} runs i l req) = record {
      final = d';
      token = h';
      runs = ground (arith, runs, l);
      service =
          subst
            (λ b.
              HlcsEnd events driver hlcs_kernel sema reader button_kernel d.hlcs d'.hlcs
                (es ++ requests_of chs) b)
            (sym l)
            (stays q (i.same ∙ ap (λ x. record d.hlcs { event_queue = x }) v.has) (
              subst (λ xs. Having d'.hlcs q xs) (sym (ap (λ xs. es ++ xs) req ∙ append-nil es))
                (untouched d' i.same)));
      rings = i.rings;
      count = i.count;
    }
    turn (picked {d' = d'} {wanted = lock} {rest = rest} runs i lt l req int) =
        request_turn rest d' sig_request_locked refl (ground (arith, runs)) (from_menu i) lt l req
          int
    turn (picked {d' = d'} {wanted = unlock} {rest = rest} runs i lt l req int) =
        request_turn rest d' sig_request_unlocked refl (ground (arith, runs)) (from_menu i) lt l req
          int
    turn (picked {d' = d'} {wanted = self_test} {rest = rest} runs i lt l req int) =
        request_turn rest d' sig_request_self_test refl (ground (arith, runs)) (from_menu i) lt l
          req int
    turn (picked {d' = d'} {wanted = exit} {rest = rest} runs i lt l req int) =
        leaving events driver hlcs_kernel sema reader button_kernel n chs rest d d' (from_menu i) es
          q (untouched d' i.same) (ground (arith, runs)) (ground (arith, room, l)) l int

  -- Let the lock service have a queue with some requests and the button service its semaphore, and
  -- let at most ten events be pending with the requests that the keys ask for and, where they leave
  -- the program, its exit event. Then the task for the keys, whatever they are and with a round
  -- more than keys, ends: it waits for the next key, with the requests pending behind the others in
  -- the order of the keys and no other change to the lock service; or, at the first key that leaves
  -- the program, it has destroyed the lock service and exited. The semaphore has a token if a key
  -- for an interrupt was typed before that, and is as before if none was.
  pub user_input_task_lem :
      (n : ℕ) (chs : List ℕ) (d : Demo Q S) (q : Q) (es : List Signal) (h : S)
      → length chs < n
      → Having d.hlcs q es
      → d.button.event_sema ≡ some h
      → length es + length (requests_of chs) + exit_event (leaves chs) ≤ queue_depth
      → Answers n chs d es h
  user_input_task_lem zero chs d q es h short v e room = absurd (omega (arith, short))
  user_input_task_lem (suc n) chs d q es h short v e room =
      turn n (user_input_task_lem n) chs d q es h v room short
        (read_keys_lem events driver hlcs_kernel sema reader button_kernel chs _ h e)
