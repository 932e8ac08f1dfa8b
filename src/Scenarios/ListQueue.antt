-- ===== src/Scenarios/ListQueue.antt =====
-- A queue of events as a list: an instance of the interface of Service/EventQueue.
use cpputest_for_freertos.Service.EventQueue.{EventQueue}
use cpputest_for_freertos.Base.{
  ℕ, List, Bool, Option, ◌≡◌, some, if◌then◌else◌, none, [], ◌∷◌, ltb, length, refl, true, arith,
  ◌++◌, false, ◌<◌, ◌≤◌,
}

module _ {E : Type 0} (depth : ℕ) where
  abbrev pub to_back : E → List E → Bool × List E
  to_back e q = if ltb (length q) depth then (true, q ++ e ∷ []) else (false, q)

  abbrev pub to_front : E → List E → Bool × List E
  to_front e q = if ltb (length q) depth then (true, e ∷ q) else (false, q)

  abbrev pub first : List E → Option E × List E
  first [] = (none, [])
  first (e ∷ es) = (some e, es)

  pub first-none : (q : List E) → q ≡ [] → ((first q).0 ≡ none) × ((first q).1 ≡ [])
  first-none q h = rw h (refl, refl)

  pub first-some :
      (q : List E) (e : E) (es : List E) → q ≡ e ∷ es → ((first q).0 ≡ some e) × ((first q).1 ≡ es)
  first-some q e es h = rw h (refl, refl)

  module _ (e : E) (q : List E) where
    pub back-room : length q < depth → ((to_back e q).0 ≡ true) × ((to_back e q).1 ≡ q ++ e ∷ [])
    back-room h = ground (arith, h)

    pub back-full : depth ≤ length q → ((to_back e q).0 ≡ false) × ((to_back e q).1 ≡ q)
    back-full h = ground (arith, h)

    pub front-room : length q < depth → ((to_front e q).0 ≡ true) × ((to_front e q).1 ≡ e ∷ q)
    front-room h = ground (arith, h)

    pub front-full : depth ≤ length q → ((to_front e q).0 ≡ false) × ((to_front e q).1 ≡ q)
    front-full h = ground (arith, h)

  pub empty-contents : (q : List E) → some [] ≡ some q → q ≡ []
  empty-contents q e = ground (arith, e)

  abbrev pub list_queue : EventQueue (List E) E depth
  list_queue = record {
    create = some [];
    send_to_back = to_back;
    send_to_front = to_front;
    receive = first;
    messages_waiting = length;
    contents = λ q. q;
    create_empty = empty-contents;
    back_room = back-room;
    back_full = back-full;
    front_room = front-room;
    front_full = front-full;
    receive_none = first-none;
    receive_first = first-some;
    waiting_length = λ q. refl;
  }
