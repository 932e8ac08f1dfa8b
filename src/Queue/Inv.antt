-- ===== src/Queue/Inv.antt =====
-- An invariant of the fake queues between two calls:
-- cpputest-for-freertos-lib/src/cpputest_for_freertos_queue.cpp.
pub mod Calls
use cpputest_for_freertos.World.{
  Ptr, null, FakeQueue, World, lookup, deref, store, Message, M, QueueType, total_spaces, delete,
}
use cpputest_for_freertos.World.Ensures.{
  returns, asserts, faults, Any, bind, Keeps, Keeps-if, Keeps-config_assert, Keeps-pure,
  Keeps-undefined, starves,
}
use cpputest_for_freertos.World.Heap.{AllHeap, AllHeap-insert, AllHeap-erase}
use cpputest_for_freertos.Base.{
  All, ◌≢◌, Option-cases, ℕ, List, length, ◌≡◌, ◌≤◌, ◌<◌, inl, false, Option, inr, ◌==◌, All-append,
  arith, ◌∷◌, some, leb, [], length-take_of_le, ◌&&◌, length-append, none, refl, ◌++◌, not, take,
  suc, zero,
}
use cpputest_for_freertos.Queue.{
  copy_in, copy_out, place, CopyPosition, is_overwrite, overwrite_front, send_to_back,
  send_to_front, overwrite, send_one, other_position, send_loop, x_queue_generic_send,
  internal_queue_receive, internal_queue_receive_dummy, x_queue_receive, x_queue_peek,
  x_queue_generic_create, ux_queue_messages_waiting, v_queue_delete, BaseType, pop_front,
  peek_front, mutex_about_to_delete, pointer_bytes, notify, is_mutex, err_queue_full, is_null,
  pd_true,
}

-- Messages of the item size, no more of them than the queue holds, and sizes in a `UBaseType_t`.
pub record IsSound (q : FakeQueue) : Type 0 where
  pub sized : All (λ (m : Message). length m ≡ q.item_size) q.queue
  pub bounded : length q.queue ≤ q.queue_length
  pub length_fits : q.queue_length < 256
  pub size_fits : q.item_size < 256

abbrev pub IsLive : Ptr → FakeQueue → Type 0
IsLive p q = (p ≢ null) × IsSound q

-- Every object on the heap is a sound queue at an address other than `nullptr`.
abbrev pub IsWf : World → Type 0
IsWf w = AllHeap IsLive w.heap

module _ (p : Ptr) where
  pub Keeps-deref : Keeps IsWf (IsLive p) (deref p)
  unfolding deref
  Keeps-deref = record {
    at = λ w v. elim (Option-cases (lookup p w.heap)) [
      | inl gone ↦ rw gone faults
      | inr (q, found) ↦ rw found (returns v (v p q found))
    ];
  }

  pub Keeps-store : (q : FakeQueue) → IsLive p q → Keeps IsWf Any (store p q)
  unfolding store
  Keeps-store q l = record { at = λ w v. returns (AllHeap-insert IsLive p q w.heap l v) tt }

-- Messages of the item size in a deque.
abbrev pub IsSized : ℕ → List Message → Type 0
IsSized n = All (λ (m : Message). length m ≡ n)

Keeps-copy_in : (item : Option Message) (n : ℕ) → Keeps IsWf (λ m. length m ≡ n) (copy_in item n)
unfolding copy_in
Keeps-copy_in none n =
    Keeps-if (n == 0) (λ e. Keeps-pure _ [] (ground arith)) (λ e. Keeps-undefined _)
Keeps-copy_in (some bytes) n =
    Keeps-if (leb n (length bytes))
      (λ e. Keeps-pure _ (take n bytes) (length-take_of_le n bytes (ground arith)))
      (λ e. Keeps-undefined _)

pub Keeps-copy_out :
    (m : Message) (n : ℕ) (buffer : Option ℕ) → Keeps IsWf Any (copy_out m n buffer)
unfolding copy_out
Keeps-copy_out m n none = Keeps-if (n == 0) (λ _. Keeps-pure _ [] tt) (λ _. Keeps-undefined _)
Keeps-copy_out m n (some room) =
    Keeps-if (leb n (length m) && leb n room) (λ _. Keeps-pure _ (take n m) tt)
      (λ _. Keeps-undefined _)

-- A queue with other messages.
pub IsLive-queue :
    {p : Ptr} {q : FakeQueue} (ms : List Message)
    → IsLive p q
    → IsSized q.item_size ms
    → length ms ≤ q.queue_length
    → IsLive p (record q { queue = ms })
IsLive-queue ms (n, s) sized bounded = (
  n,
  record { sized = sized; bounded = bounded; length_fits = s.length_fits; size_fits = s.size_fits },
)

Keeps-place :
    (p : Ptr) (q : FakeQueue) (m : Message) (position : CopyPosition)
    → IsLive p q
    → length m ≡ q.item_size
    → (is_overwrite position ≡ false → length q.queue < q.queue_length)
    → Keeps IsWf Any (place p q m position)
unfolding place
Keeps-place p q m send_to_back l e room = Keeps-store p _ (
    IsLive-queue (q.queue ++ m ∷ []) l (All-append _ q.queue (m ∷ []) l.1.sized (e, tt))
      (omega (arith, length-append q.queue (m ∷ []), room refl)))
Keeps-place p q m send_to_front l e room =
    Keeps-store p _ (IsLive-queue (m ∷ q.queue) l (e, l.1.sized) (omega (arith, room refl)))
Keeps-place p q m overwrite l e room = go q.queue l.1.sized l.1.bounded
  where
    go :
        (ms : List Message)
        → IsSized q.item_size ms
        → length ms ≤ q.queue_length
        → Keeps IsWf Any (overwrite_front p q m ms)
    go [] s b = Keeps-undefined _
    go (front ∷ rest) s b = Keeps-store p _ (IsLive-queue (m ∷ rest) l (e, s.1) b)
Keeps-place p q m other_position l e room = record { at = λ w v. asserts v }

Keeps-send_one :
    (p : Ptr) (item : Option Message) (position : CopyPosition)
    → Keeps IsWf Any (send_one p item position)
unfolding send_one
Keeps-send_one p item position = bind (Keeps-config_assert 110 _) λ _ _. bind (Keeps-deref p) λ q l.
    bind (Keeps-config_assert 111 _) λ _ _. bind (Keeps-config_assert 112 _) λ _ _.
      Keeps-if (not (is_overwrite position) && leb q.queue_length (length q.queue))
        (λ _. Keeps-pure _ none tt)
        λ room.
          bind (Keeps-copy_in item q.item_size) λ m e.
            bind (Keeps-place p q m position l e (λ o. ground arith)) λ _ _. Keeps-pure _ _ tt

Keeps-notify :
    (send : Ptr → Option Message → CopyPosition → M BaseType) (p : Ptr) (c : Option Ptr)
    → ((d : Ptr) → Keeps IsWf Any (send d (some (pointer_bytes p)) send_to_back))
    → Keeps IsWf Any (notify send p c)
Keeps-notify send p none k = Keeps-pure _ err_queue_full tt
Keeps-notify send p (some c) k =
    Keeps-if (is_null c) (λ _. Keeps-pure _ pd_true tt)
      (λ _. bind (k c) (λ _ _. Keeps-pure _ pd_true tt))

Keeps-send_loop :
    (fuel : ℕ) (p : Ptr) (item : Option Message) (position : CopyPosition)
    → Keeps IsWf Any (send_loop fuel p item position)
unfolding send_loop
Keeps-send_loop zero p item position = record { at = λ w v. starves }
Keeps-send_loop (suc fuel) p item position = record {
  at = λ w v.
      (bind (Keeps-send_one p item position) λ c _.
          Keeps-notify (send_loop fuel) p c
            λ d. Keeps-send_loop fuel d (some (pointer_bytes p)) send_to_back).at
        w v;
}

pub Keeps-x_queue_generic_send :
    (p : Ptr) (item : Option Message) (position : CopyPosition)
    → Keeps IsWf Any (x_queue_generic_send p item position)
unfolding x_queue_generic_send
Keeps-x_queue_generic_send p item position = record {
  at = λ w v. (Keeps-send_loop (suc (suc (total_spaces w.heap))) p item position).at w v;
}

-- A queue with the same messages, length and item size.
pub IsLive-other :
    {p : Ptr} (q r : FakeQueue)
    → IsLive p q
    → r.queue ≡ q.queue
    → r.queue_length ≡ q.queue_length
    → r.item_size ≡ q.item_size
    → IsLive p r
IsLive-other q r (n, s) same length_same size_same = (
  n,
  record {
    sized = rw (same, size_same) s.sized;
    bounded = rw (same, length_same) s.bounded;
    length_fits = rw length_same s.length_fits;
    size_fits = rw size_same s.size_fits;
  },
)
