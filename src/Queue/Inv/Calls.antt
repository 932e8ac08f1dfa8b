-- ===== src/Queue/Inv/Calls.antt =====
-- The calls other than the send, with the invariant of Queue/Inv:
-- cpputest-for-freertos-lib/src/cpputest_for_freertos_queue.cpp.
use cpputest_for_freertos.Queue.{
  internal_queue_receive, internal_queue_receive_dummy, x_queue_receive, x_queue_peek,
  x_queue_generic_create, ux_queue_messages_waiting, mutex_about_to_delete, v_queue_delete,
  ux_queue_spaces_available, v_queue_add_to_registry, pc_queue_get_name, v_queue_unregister_queue,
  peek_front, is_mutex, pop_front,
}
use cpputest_for_freertos.World.{delete, Ptr, QueueType, FakeQueue, null, Message}
use cpputest_for_freertos.Base.{
  Option, ℕ, ◌≢◌, Option-cases, List, ◌≡◌, inl, some, arith, inr, length, ◌∷◌, refl, ◌≤◌, [],
}
use cpputest_for_freertos.World.Ensures.{
  Keeps, Any, bind, Keeps-config_assert, Keeps-pure, returns, Keeps-if,
}
use cpputest_for_freertos.Queue.Inv.{
  IsWf, IsLive, Keeps-deref, Keeps-store, IsSized, IsLive-other, Keeps-copy_out, IsLive-queue,
}
use cpputest_for_freertos.World.Heap.{AllHeap-erase}

pub Keeps-internal_queue_receive :
    (p : Ptr) (buffer : Option ℕ) → Keeps IsWf Any (internal_queue_receive p buffer)
unfolding internal_queue_receive
Keeps-internal_queue_receive p buffer =
    bind (Keeps-config_assert 80 _)
      λ _ _. bind (Keeps-deref p) λ q l. go q l q.queue l.1.sized l.1.bounded
  where
    go :
        (q : FakeQueue)
        → IsLive p q
        → (ms : List Message) → IsSized q.item_size ms
        → length ms ≤ q.queue_length
        → Keeps IsWf Any (pop_front p q buffer ms)
    go q l [] s b = Keeps-pure _ _ tt
    go q l (front ∷ rest) s b = bind (Keeps-copy_out front q.item_size buffer) λ bytes _.
        bind (Keeps-store p _ (IsLive-queue rest l s.1 (omega arith))) λ _ _. Keeps-pure _ _ tt

pub Keeps-internal_queue_receive_dummy : (p : Ptr) → Keeps IsWf Any (internal_queue_receive_dummy p)
unfolding internal_queue_receive_dummy
Keeps-internal_queue_receive_dummy p =
    bind (Keeps-config_assert 72 _) λ _ _. Keeps-internal_queue_receive p (some 8)

pub Keeps-x_queue_receive :
    (p : Ptr) (buffer : Option ℕ) → Keeps IsWf Any (x_queue_receive p buffer)
unfolding x_queue_receive
Keeps-x_queue_receive p buffer =
    bind (Keeps-config_assert 97 _)
      λ _ _. bind (Keeps-config_assert 98 _) λ _ _. Keeps-internal_queue_receive p buffer

pub Keeps-x_queue_peek : (p : Ptr) (buffer : Option ℕ) → Keeps IsWf Any (x_queue_peek p buffer)
unfolding x_queue_peek
Keeps-x_queue_peek p buffer =
    bind (Keeps-config_assert 152 _) λ _ _. bind (Keeps-deref p) λ q l. go q q.queue
  where
    go : (q : FakeQueue) (ms : List Message) → Keeps IsWf Any (peek_front q buffer ms)
    go q [] = Keeps-pure _ _ tt
    go q (front ∷ rest) = bind (Keeps-copy_out front q.item_size buffer) λ _ _. Keeps-pure _ _ tt

pub Keeps-x_queue_generic_create :
    (fresh n size : ℕ) (type : QueueType)
    → fresh ≢ null
    → Keeps IsWf (λ p. p ≡ fresh) (x_queue_generic_create fresh n size type)
unfolding x_queue_generic_create
Keeps-x_queue_generic_create fresh n size type ne =
    bind
      (Keeps-store fresh _ (
        ne,
        record {
          sized = tt;
          bounded = omega arith;
          length_fits = omega arith;
          size_fits = omega arith;
        },
      ))
      λ _ _. Keeps-pure _ fresh refl

pub Keeps-ux_queue_messages_waiting : (p : Ptr) → Keeps IsWf Any (ux_queue_messages_waiting p)
unfolding ux_queue_messages_waiting
Keeps-ux_queue_messages_waiting p =
    bind (Keeps-config_assert 60 _) λ _ _. bind (Keeps-deref p) λ q l. Keeps-pure _ _ tt

Keeps-mutex_about_to_delete : (p : Ptr) → Keeps IsWf Any (mutex_about_to_delete p)
unfolding mutex_about_to_delete
Keeps-mutex_about_to_delete p = record {
  at = λ w v. elim (Option-cases w.mutexes) [
    | inl e ↦ rw e (returns v tt)
    | inr (ms, e) ↦ rw e (returns v tt)
  ];
}

Keeps-delete : (p : Ptr) → Keeps IsWf Any (delete p)
unfolding delete
Keeps-delete p =
    bind (Keeps-deref p) λ q l. record { at = λ w v. returns (AllHeap-erase IsLive p w.heap v) tt }

pub Keeps-v_queue_delete : (p : Ptr) → Keeps IsWf Any (v_queue_delete p)
unfolding v_queue_delete
Keeps-v_queue_delete p = bind (Keeps-config_assert 50 _) λ _ _. bind (Keeps-deref p) λ q l.
    bind
      (Keeps-if (is_mutex q.queue_type) (λ _. Keeps-mutex_about_to_delete p)
        (λ _. Keeps-pure _ tt tt))
      λ _ _. Keeps-delete p

module _ (p : Ptr) where
  pub Keeps-ux_queue_spaces_available : Keeps IsWf Any (ux_queue_spaces_available p)
  unfolding ux_queue_spaces_available
  Keeps-ux_queue_spaces_available = bind (Keeps-config_assert 66 _) λ _ _.
      bind (Keeps-deref p) λ q l. bind (Keeps-ux_queue_messages_waiting p) λ n _. Keeps-pure _ _ tt

  pub Keeps-v_queue_add_to_registry : (name : Ptr) → Keeps IsWf Any (v_queue_add_to_registry p name)
  unfolding v_queue_add_to_registry
  Keeps-v_queue_add_to_registry name = bind (Keeps-config_assert 183 _) λ _ _.
      bind (Keeps-config_assert 184 _)
        λ _ _. bind (Keeps-deref p) λ q l. Keeps-store p _ (IsLive-other q _ l refl refl refl)

  pub Keeps-pc_queue_get_name : Keeps IsWf Any (pc_queue_get_name p)
  unfolding pc_queue_get_name
  Keeps-pc_queue_get_name =
      bind (Keeps-config_assert 190 _) λ _ _. bind (Keeps-deref p) λ q l. Keeps-pure _ _ tt

  pub Keeps-v_queue_unregister_queue : Keeps IsWf Any (v_queue_unregister_queue p)
  unfolding v_queue_unregister_queue
  Keeps-v_queue_unregister_queue =
      bind (Keeps-config_assert 196 _)
        λ _ _. bind (Keeps-deref p) λ q l. Keeps-store p _ (IsLive-other q _ l refl refl refl)
