-- ===== src/Semaphore/Inv.antt =====
-- The calls of cpputest-for-freertos-lib/src/cpputest_for_freertos_semaphore.cpp, with the
-- invariant of Queue/Inv.
use cpputest_for_freertos.World.{Ptr, null, base, u8}
use cpputest_for_freertos.Semaphore.{
  Macros, x_queue_semaphore_take, x_queue_give_from_isr, give_times,
  x_queue_create_counting_semaphore,
}
use cpputest_for_freertos.World.Ensures.{
  Keeps, Any, bind, Keeps-pure, Keeps-config_assert, Keeps-if,
}
use cpputest_for_freertos.Base.{ℕ, ◌≢◌, ◌≡◌, none, suc, zero}
use cpputest_for_freertos.Queue.Inv.{IsWf, Keeps-x_queue_generic_send, Keeps-deref}
use cpputest_for_freertos.Queue.Inv.Calls.{
  Keeps-ux_queue_messages_waiting, Keeps-x_queue_generic_create, Keeps-internal_queue_receive_dummy,
}
use cpputest_for_freertos.Queue.{send_to_back, is_null}

pub Keeps-x_queue_semaphore_take : (p : Ptr) → Keeps IsWf Any (x_queue_semaphore_take p)
unfolding x_queue_semaphore_take
Keeps-x_queue_semaphore_take p = bind (Keeps-config_assert 36 _) λ _ _. bind (Keeps-deref p) λ q l.
    bind (Keeps-config_assert 37 _)
      λ _ _. bind (Keeps-internal_queue_receive_dummy p) λ r _. Keeps-pure _ _ tt

module _ (macros : Macros) where
  open macros use {
    x_semaphore_give, ux_semaphore_get_count, x_queue_create, give_calls, count_calls, create_calls,
  }

  pub Keeps-x_semaphore_give : (p : Ptr) → Keeps IsWf Any (x_semaphore_give p)
  Keeps-x_semaphore_give p = record {
    at = λ w v. rw (give_calls p w) ((Keeps-x_queue_generic_send p none send_to_back).at w v);
  }

  pub Keeps-ux_semaphore_get_count : (p : Ptr) → Keeps IsWf Any (ux_semaphore_get_count p)
  Keeps-ux_semaphore_get_count p = record {
    at = λ w v. rw (count_calls p w) ((Keeps-ux_queue_messages_waiting p).at w v);
  }

  pub Keeps-x_queue_create :
      (fresh n size : ℕ) → fresh ≢ null → Keeps IsWf (λ p. p ≡ fresh) (x_queue_create fresh n size)
  Keeps-x_queue_create fresh n size ne = record {
    at = λ w v.
        rw (create_calls fresh n size w)
          ((Keeps-x_queue_generic_create fresh n size base ne).at w v);
  }

  pub Keeps-x_queue_give_from_isr : (p : Ptr) → Keeps IsWf Any (x_queue_give_from_isr macros p)
  unfolding x_queue_give_from_isr
  Keeps-x_queue_give_from_isr p = bind (Keeps-config_assert 46 _) λ _ _.
      bind (Keeps-deref p) λ q l. bind (Keeps-config_assert 47 _) λ _ _. Keeps-x_semaphore_give p

  Keeps-give_times : (n : ℕ) (p : Ptr) → Keeps IsWf Any (give_times macros n p)
  unfolding give_times
  Keeps-give_times zero p = Keeps-pure _ tt tt
  Keeps-give_times (suc n) p = bind (Keeps-x_semaphore_give p) λ _ _. Keeps-give_times n p

  pub Keeps-x_queue_create_counting_semaphore :
      (fresh n initial : ℕ)
      → fresh ≢ null
      → Keeps IsWf Any (x_queue_create_counting_semaphore macros fresh n initial)
  unfolding x_queue_create_counting_semaphore
  Keeps-x_queue_create_counting_semaphore fresh n initial ne =
      bind (Keeps-x_queue_create fresh (u8 n) 0 ne) λ p _.
        Keeps-if (is_null p) (λ _. Keeps-pure _ _ tt)
          (λ _. bind (Keeps-give_times (u8 initial) p) λ _ _. Keeps-pure _ _ tt)
