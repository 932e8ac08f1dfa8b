-- ===== src/Demo/Typed.antt =====
-- The keys typed, and what the task for them does: `UserInputTask` of
-- example/apps/demoPcApp/main.cpp.
use cpputest_for_freertos.Hlcs
use cpputest_for_freertos.Button
use cpputest_for_freertos.Hlcs.Start.{pushed, destroy-runs}
use cpputest_for_freertos.Hlcs.System.Inv.{Holds}
use cpputest_for_freertos.Hlcs.Api.{destroy}
use cpputest_for_freertos.Hlcs.Machine.{push_event}
use cpputest_for_freertos.Demo.Read.{Idles, counted}
use cpputest_for_freertos.Base.{
  Bool, ℕ, true, false, List, ◌≡◌, some, length, ◌++◌, ◌<◌, if◌then◌else◌, ap, suc, ◌∷◌, ◌||◌, [],
  Option, ◌∙◌, sym, subst, append_assoc, refl,
}
use cpputest_for_freertos.Service.EventQueue.{EventQueue}
use cpputest_for_freertos.Demo.{InputEnd, exited, waits_for_key, Demo, user_input_task, on_hlcs}
use cpputest_for_freertos.Hlcs.{
  Signal, queue_depth, Driver, Hlcs, sig_request_locked, sig_request_unlocked,
  sig_request_self_test,
}
use cpputest_for_freertos.Service.BinarySemaphore.{BinarySemaphore}
use cpputest_for_freertos.Button.{Reader, Button}
use cpputest_for_freertos.Service.{◌>>◌, Outcome, ok, pure}
use cpputest_for_freertos.Demo.Spec.{leaves, requests_of, interrupts}
use cpputest_for_freertos.Hlcs.Drain.{is_request}
use cpputest_for_freertos.Hlcs.System.Kept.Push.{push-room}

abbrev pub end_of : Bool → InputEnd
end_of true = exited
end_of false = waits_for_key

abbrev pub exit_event : Bool → ℕ
exit_event true = 1
exit_event false = 0

or_false : (b : Bool) → (b || false) ≡ b
or_false true = refl
or_false false = refl

module _ {Q S : Type 0} (events : EventQueue Q Signal queue_depth) (driver : Driver)
    (hlcs_kernel : Hlcs.Kernel) (sema : BinarySemaphore S) (reader : Reader)
    (button_kernel : Button.Kernel) where
  open events use {send_to_back, contents, front_room}
  open sema use {get_count}

  abbrev pub input : ℕ → List ℕ → Demo Q S → Outcome (Demo Q S) InputEnd
  input = user_input_task events driver hlcs_kernel sema reader button_kernel

  abbrev Having : Hlcs Q → Q → List Signal → Type 0
  Having = Holds events driver hlcs_kernel

  -- The lock service after the keys: destroyed if they leave the program, and with `es` in its queue
  -- and no other change if not.
  pub data HlcsEnd (s s' : Hlcs Q) (es : List Signal) : Bool → Type 0 where
    stays :
        (q : Q) → s' ≡ record s { event_queue = some q } → Having s' q es → HlcsEnd s s' es false
    destroyed :
        (log : List Hlcs.Effect) → s' ≡ record Hlcs.statics { log = log } → HlcsEnd s s' es true

  pub record Typed (n : ℕ) (chs : List ℕ) (d : Demo Q S) (es : List Signal) (h : S) : Type 0 where
    pub final : Demo Q S
    pub token : S
    pub runs : input n chs d ≡ ok (end_of (leaves chs)) final
    pub service : HlcsEnd d.hlcs final.hlcs (es ++ requests_of chs) (leaves chs)
    pub rings : final.button ≡ record d.button { event_sema = some token }
    pub count : get_count token ≡ (if interrupts chs then 1 else get_count h)

  HlcsEnd-from :
      {s t s' : Hlcs Q} {x : Option Q} {es : List Signal} {b : Bool}
      → t ≡ record s { event_queue = x }
      → HlcsEnd t s' es b
      → HlcsEnd s s' es b
  HlcsEnd-from e (stays q f v) =
      stays q (f ∙ ap (λ (y : Hlcs Q). record y { event_queue = some q }) e) v
  HlcsEnd-from e (destroyed log f) = destroyed log f

  pub has_token :
      {d d' : Demo Q S} {b : Bool} {h h' : S}
      → Idles events driver hlcs_kernel sema reader button_kernel d d' b h h'
      → d'.button.event_sema ≡ some h'
  has_token i = ap (λ (b : Button S). b.event_sema) i.rings

  abbrev pub asked : Signal → Demo Q S → Q → Demo Q S
  asked e d q = record d { hlcs = pushed events driver hlcs_kernel e d.hlcs q }

  module _ (n : ℕ) (chs rest : List ℕ) (d d' : Demo Q S) {h h' : S} {before : Bool}
      (i : Idles events driver hlcs_kernel sema reader button_kernel d d' before h h')
      (es : List Signal) (q : Q) (v : Having d'.hlcs q es) where
    -- The keys ask for a request first, and are `rest` behind it.
    pub first_request :
        (e : Signal)
        → is_request e ≡ true
        → input (suc n) chs d ≡ (on_hlcs (push_event events driver e) >> input n rest) d'
        → length es < queue_depth
        → leaves chs ≡ leaves rest
        → requests_of chs ≡ e ∷ requests_of rest
        → interrupts chs ≡ (before || interrupts rest)
        → (Having (asked e d' q).hlcs (send_to_back e q).1 (es ++ e ∷ [])
            → Typed n rest (asked e d' q) (es ++ e ∷ []) h')
        → Typed (suc n) chs d es h
    first_request e r runs room l req int typed =
        let (sent, v') = push-room events driver hlcs_kernel e d'.hlcs q es v r room in
        let t = typed v' in
        record {
          final = t.final;
          token = t.token;
          runs =
              runs
              ∙ ap (λ out. (on_hlcs (λ s. out) >> input n rest) d') sent
              ∙ t.runs
              ∙ ap (λ b. ok (end_of b) t.final) (sym l);
          service =
              subst (λ b. HlcsEnd d.hlcs t.final.hlcs (es ++ requests_of chs) b) (sym l)
                (subst (λ xs. HlcsEnd d.hlcs t.final.hlcs xs (leaves rest))
                  (append_assoc es (e ∷ []) (requests_of rest) ∙ ap (λ xs. es ++ xs) (sym req))
                  (HlcsEnd-from (ap (λ (s : Hlcs Q). pushed events driver hlcs_kernel e s q) i.same)
                    t.service));
          rings = t.rings ∙ ap (λ (b : Button S). record b { event_sema = some t.token }) i.rings;
          count =
              counted (get_count h) before (interrupts rest) i.count t.count
              ∙ ap (λ b. if b then 1 else get_count h) (sym int);
        }

    pub leaving :
        input (suc n) chs d ≡ (on_hlcs (destroy events driver hlcs_kernel) >> pure exited) d'
        → length es < queue_depth
        → leaves chs ≡ true
        → interrupts chs ≡ (before || false)
        → Typed (suc n) chs d es h
    leaving runs room l int =
        let (log, gone) =
          destroy-runs events driver hlcs_kernel d'.hlcs q v.has
            (subst (λ xs. length xs < queue_depth) (sym v.waits) room) in
        record {
          final = record d' { hlcs = record Hlcs.statics { log = log } };
          token = h';
          runs =
              runs
              ∙ ap (λ out. (on_hlcs (λ s. out) >> pure exited) d') gone
              ∙ ap (λ b. ok (end_of b) (record d' { hlcs = record Hlcs.statics { log = log } }))
                  (sym l);
          service =
              subst
                (λ b. HlcsEnd d.hlcs (record Hlcs.statics { log = log }) (es ++ requests_of chs) b)
                (sym l) (destroyed log refl);
          rings = i.rings;
          count = i.count ∙ ap (λ b. if b then 1 else get_count h) (sym (int ∙ or_false before));
        }
