-- ===== src/Service/EventQueue.antt =====
-- A FreeRTOS queue of events as a service sees it through queue.h: its operations, and what
-- FreeRTOS documents of them in terms of the events that wait, oldest first.
use cpputest_for_freertos.Base.{
  ℕ, ◌<◌, ◌≤◌, ◌≡◌, Option, Bool, List, some, [], length, true, ◌++◌, ◌∷◌, false, none,
}

pub record EventQueue (Q E : Type 0) (depth : ℕ) : Type 0 where
  -- `xQueueCreate`: `none` is a null handle.
  pub create : Option Q
  pub send_to_back : E → Q → Bool × Q
  pub send_to_front : E → Q → Bool × Q
  pub receive : Q → Option E × Q
  pub messages_waiting : Q → ℕ
  pub contents : Q → List E
  pub create_empty : (q : Q) → create ≡ some q → contents q ≡ []
  pub back_room :
      (e : E) (q : Q)
      → length (contents q) < depth
      → ((send_to_back e q).0 ≡ true) × (contents (send_to_back e q).1 ≡ contents q ++ e ∷ [])
  pub back_full :
      (e : E) (q : Q)
      → depth ≤ length (contents q)
      → ((send_to_back e q).0 ≡ false) × (contents (send_to_back e q).1 ≡ contents q)
  pub front_room :
      (e : E) (q : Q)
      → length (contents q) < depth
      → ((send_to_front e q).0 ≡ true) × (contents (send_to_front e q).1 ≡ e ∷ contents q)
  pub front_full :
      (e : E) (q : Q)
      → depth ≤ length (contents q)
      → ((send_to_front e q).0 ≡ false) × (contents (send_to_front e q).1 ≡ contents q)
  pub receive_none :
      (q : Q) → contents q ≡ [] → ((receive q).0 ≡ none) × (contents (receive q).1 ≡ [])
  pub receive_first :
      (q : Q) (e : E) (es : List E)
      → contents q ≡ e ∷ es
      → ((receive q).0 ≡ some e) × (contents (receive q).1 ≡ es)
  pub waiting_length : (q : Q) → messages_waiting q ≡ length (contents q)
