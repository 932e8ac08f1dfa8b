-- ===== src/Mutex/Inv.antt =====
-- The calls of cpputest-for-freertos-lib/src/cpputest_for_freertos_mutex.cpp, with the invariant of
-- Queue/Inv.
use cpputest_for_freertos.World.{
  ok, Ptr, null, QueueType, mutex, recursive_mutex, base, set, other_type, World,
}
use cpputest_for_freertos.Semaphore.{Macros}
use cpputest_for_freertos.Mutex.{
  set_mutexes, mutex_tracking_init, any_locked, is_any_mutex_locked, mutex_tracking_teardown,
  unlock_new, x_queue_create_mutex, count_call, x_queue_take_mutex_recursive,
  x_queue_give_mutex_recursive, untracked,
}
use cpputest_for_freertos.Base.{
  Option, List, ◌≢◌, false, inl, some, ◌∷◌, inr, [], none, ◌==◌, true, ◌&&◌, ltb, ◌-◌, refl,
  Bool-cases,
}
use cpputest_for_freertos.World.Ensures.{
  Keeps, Any, returns, bind, Keeps-pure, Keeps-config_assert, Keeps-if, fails, asserts, Ensures,
}
use cpputest_for_freertos.Queue.Inv.{IsWf, Keeps-deref, Keeps-store, IsLive-other}
use cpputest_for_freertos.Semaphore.Inv.{Keeps-x_semaphore_give, Keeps-ux_semaphore_get_count}
use cpputest_for_freertos.Queue.Inv.Calls.{
  Keeps-x_queue_generic_create, Keeps-internal_queue_receive_dummy,
}
use cpputest_for_freertos.QueueSet.{is_true}

Keeps-set_mutexes : (ms : Option (List Ptr)) → Keeps IsWf Any (set_mutexes ms)
unfolding set_mutexes
Keeps-set_mutexes ms = record { at = λ w v. returns v tt }

pub Keeps-mutex_tracking_init : Keeps IsWf Any mutex_tracking_init
unfolding mutex_tracking_init
Keeps-mutex_tracking_init = record {
  at = λ w v. (bind (Keeps-config_assert 45 _) λ _ _. Keeps-set_mutexes (some [])).at w v;
}

module _ (macros : Macros) where
  Keeps-any_locked : (ms : List Ptr) → Keeps IsWf Any (any_locked macros ms)
  unfolding any_locked
  Keeps-any_locked [] = Keeps-pure _ false tt
  Keeps-any_locked (m ∷ ms) =
      bind (Keeps-ux_semaphore_get_count macros m)
        λ n _. Keeps-if (n == 0) (λ _. Keeps-pure _ true tt) (λ _. Keeps-any_locked ms)

  pub Keeps-is_any_mutex_locked : Keeps IsWf Any (is_any_mutex_locked macros)
  unfolding is_any_mutex_locked
  Keeps-is_any_mutex_locked = record { at = λ w v. go w w.mutexes v }
    where
      go :
          (w : World) (tracked : Option (List Ptr))
          → IsWf w
          → Ensures IsWf Any (elim tracked [ none ↦ ok false w | some ms ↦ any_locked macros ms w ])
      go w none v = returns v tt
      go w (some ms) v = (Keeps-any_locked ms).at w v

  pub Keeps-mutex_tracking_teardown : Keeps IsWf Any (mutex_tracking_teardown macros)
  unfolding mutex_tracking_teardown
  Keeps-mutex_tracking_teardown = record {
    at = λ w v. elim (Bool-cases (untracked w.mutexes)) [
      | inl e ↦ rw e (returns v tt)
      | inr e ↦ rw e (
          (bind Keeps-is_any_mutex_locked λ b _. bind (Keeps-set_mutexes none) λ _ _.
              Keeps-if b (λ _. record { at = λ w' v'. fails v' }) (λ _. Keeps-pure _ tt tt)).at
            w v)
    ];
  }

  Keeps-unlock_new : (p : Ptr) (type : QueueType) → Keeps IsWf Any (unlock_new macros p type)
  unfolding unlock_new
  Keeps-unlock_new p mutex = bind (Keeps-x_semaphore_give macros p) λ _ _. Keeps-pure _ tt tt
  Keeps-unlock_new p recursive_mutex =
      bind (Keeps-x_semaphore_give macros p)
        λ _ _. bind (Keeps-deref p) λ q l. Keeps-store p _ (IsLive-other q _ l refl refl refl)
  Keeps-unlock_new p base = record { at = λ w v. asserts v }
  Keeps-unlock_new p set = record { at = λ w v. asserts v }
  Keeps-unlock_new p other_type = record { at = λ w v. asserts v }

  pub Keeps-x_queue_create_mutex :
      (fresh : Ptr) (type : QueueType)
      → fresh ≢ null
      → Keeps IsWf Any (x_queue_create_mutex macros fresh type)
  unfolding x_queue_create_mutex
  Keeps-x_queue_create_mutex fresh type ne =
      bind (Keeps-x_queue_generic_create fresh 1 0 type ne) λ p _.
        bind (Keeps-unlock_new p type) λ _ _.
          bind (Keeps-config_assert 104 _) λ _ _.
            bind (record { at = λ w v. (Keeps-set_mutexes _).at w v }) λ _ _. Keeps-pure _ p tt

  Keeps-count_call : (p : Ptr) → Keeps IsWf Any (count_call macros p)
  unfolding count_call
  Keeps-count_call p =
      bind (Keeps-deref p)
        λ q l. bind (Keeps-store p _ (IsLive-other q _ l refl refl refl)) λ _ _. Keeps-pure _ _ tt

  pub Keeps-x_queue_take_mutex_recursive :
      (p : Ptr) → Keeps IsWf Any (x_queue_take_mutex_recursive macros p)
  unfolding x_queue_take_mutex_recursive
  Keeps-x_queue_take_mutex_recursive p = bind (Keeps-config_assert 117 _) λ _ _.
      bind (Keeps-deref p) λ q l. bind (Keeps-config_assert 118 _) λ _ _.
        bind (Keeps-ux_semaphore_get_count macros p) λ n _.
          Keeps-if (n == 1)
            (λ _.
              bind (Keeps-internal_queue_receive_dummy p)
                λ r _. Keeps-if (is_true r.0) (λ _. Keeps-count_call p) (λ _. Keeps-pure _ _ tt))
            (λ _. Keeps-count_call p)

  pub Keeps-x_queue_give_mutex_recursive :
      (p : Ptr) → Keeps IsWf Any (x_queue_give_mutex_recursive macros p)
  unfolding x_queue_give_mutex_recursive
  Keeps-x_queue_give_mutex_recursive p = bind (Keeps-config_assert 136 _) λ _ _.
      bind (Keeps-deref p) λ q l. bind (Keeps-config_assert 137 _) λ _ _.
        bind (Keeps-ux_semaphore_get_count macros p) λ n _.
          Keeps-if (n == 0 && ltb 0 q.recursive_call_count)
            (λ _. bind (Keeps-store p _ (IsLive-other q _ l refl refl refl)) λ _ _.
              Keeps-if (q.recursive_call_count - 1 == 0) (λ _. Keeps-x_semaphore_give macros p)
                (λ _. Keeps-pure _ _ tt))
            (λ _. Keeps-pure _ _ tt)
