-- ===== src/QueueSet/Inv.antt =====
-- The calls of cpputest-for-freertos-lib/src/cpputest_for_freertos_queue_set.cpp, with the
-- invariant of Queue/Inv.
use cpputest_for_freertos.World.{Ptr, null, set}
use cpputest_for_freertos.QueueSet.{
  x_queue_create_set, x_queue_add_to_set, x_queue_remove_from_set, x_queue_select_from_set, is_true,
  is_empty,
}
use cpputest_for_freertos.Base.{ℕ, ◌≢◌, ◌≡◌, some, not, ◌==◌, ◌||◌, refl}
use cpputest_for_freertos.World.Ensures.{
  Keeps, Any, bind, Keeps-config_assert, Keeps-if, Keeps-pure,
}
use cpputest_for_freertos.Queue.Inv.{IsWf, Keeps-deref, Keeps-store, IsLive-other}
use cpputest_for_freertos.Queue.Inv.Calls.{Keeps-x_queue_generic_create, Keeps-x_queue_receive}
use cpputest_for_freertos.Queue.{is_null}

pub Keeps-x_queue_create_set :
    (fresh n : ℕ) → fresh ≢ null → Keeps IsWf (λ p. p ≡ fresh) (x_queue_create_set fresh n)
unfolding x_queue_create_set
Keeps-x_queue_create_set fresh n ne = Keeps-x_queue_generic_create fresh n 8 set ne

pub Keeps-x_queue_add_to_set : (p s : Ptr) → Keeps IsWf Any (x_queue_add_to_set p s)
unfolding x_queue_add_to_set
Keeps-x_queue_add_to_set p s = bind (Keeps-config_assert 41 _) λ _ _.
    bind (Keeps-config_assert 42 _) λ _ _. bind (Keeps-deref p) λ q l.
      Keeps-if (not (is_null q.queue_set_container) || not (is_empty q.queue))
        (λ _. Keeps-pure _ _ tt)
        (λ _. bind (Keeps-store p _ (IsLive-other q _ l refl refl refl)) λ _ _. Keeps-pure _ _ tt)

pub Keeps-x_queue_remove_from_set : (p s : Ptr) → Keeps IsWf Any (x_queue_remove_from_set p s)
unfolding x_queue_remove_from_set
Keeps-x_queue_remove_from_set p s = bind (Keeps-config_assert 60 _) λ _ _.
    bind (Keeps-config_assert 61 _) λ _ _. bind (Keeps-deref p) λ q l.
      Keeps-if (not (q.queue_set_container == s) || not (is_empty q.queue)) (λ _. Keeps-pure _ _ tt)
        (λ _. bind (Keeps-store p _ (IsLive-other q _ l refl refl refl)) λ _ _. Keeps-pure _ _ tt)

pub Keeps-x_queue_select_from_set : (s : Ptr) → Keeps IsWf Any (x_queue_select_from_set s)
unfolding x_queue_select_from_set
Keeps-x_queue_select_from_set s =
    bind (Keeps-x_queue_receive s (some 8))
      λ r _. Keeps-if (is_true r.0) (λ _. Keeps-pure _ _ tt) (λ _. Keeps-pure _ _ tt)
