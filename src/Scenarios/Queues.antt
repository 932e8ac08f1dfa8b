-- ===== src/Scenarios/Queues.antt =====
-- The theorems on queues and queue sets at concrete worlds.
use cpputest_for_freertos.World.{World, FakeQueue, base, set, ok, lookup, fault, out_of_fuel, Ptr}
use cpputest_for_freertos.Queue.{
  new_queue, x_queue_generic_send, pointer_bytes, send_to_back, pd_true, overwrite, send_to_front,
  err_queue_full,
}
use cpputest_for_freertos.Base.{◌∷◌, List, [], arith, ◌≡◌, some, none, refl, ◌≢◌}
use cpputest_for_freertos.Queue.Fifo.Refine.{Models, perform_all_refines}
use cpputest_for_freertos.Queue.Fifo.{perform_all}
use cpputest_for_freertos.QueueSet.Order.{
  select_times, Pending, select_times-Pending, send_to_back-notifies, send_to_back_full_set,
}
use cpputest_for_freertos.Queue.Step.{stored, Holds}
use cpputest_for_freertos.Queue.Fifo.Spec.{Op, send, result, receive, got, peek, number, waiting}
use cpputest_for_freertos.Queue.Overwrite.{overwrite_lem}
use cpputest_for_freertos.Queue.Fuel.{x_queue_generic_send-ne_out_of_fuel}

-- A queue of two items of two bytes at the address 1.
abbrev pub pair_queue : FakeQueue
pair_queue = record (new_queue 2 2 base) { queue = (10 ∷ 11 ∷ []) ∷ [] }

abbrev pub pair_world : World
pair_world = record { heap = (1, pair_queue) ∷ []; mutexes = none }

abbrev pub member_queue : FakeQueue
member_queue = record (new_queue 2 2 base) { queue_set_container = 9 }

-- A set of length 2 at the address 9, in which the queue at 5 waits, and a member of it at 1.
abbrev pub set_queue : FakeQueue
set_queue = record (new_queue 2 8 set) { queue = pointer_bytes 5 ∷ [] }

abbrev pub set_world : World
set_world = record { heap = (1, member_queue) ∷ (9, set_queue) ∷ []; mutexes = none }

abbrev pub full_set_queue : FakeQueue
full_set_queue = record (new_queue 1 8 set) { queue = pointer_bytes 5 ∷ [] }

abbrev pub full_set_world : World
full_set_world = record { heap = (1, member_queue) ∷ (9, full_set_queue) ∷ []; mutexes = none }

abbrev operations : List Op
operations =
    send (1 ∷ 2 ∷ []) send_to_front
    ∷ send (3 ∷ 4 ∷ []) send_to_back
    ∷ receive 2
    ∷ peek 4
    ∷ waiting
    ∷ []

Models-pair : Models pair_world 1 pair_queue
unfolding lookup
Models-pair = record {
  holds = record { ne_null = omega arith; found = refl };
  sound = record {
    sized = ground arith;
    bounded = omega arith;
    length_fits = omega arith;
    size_fits = omega arith;
  };
  alone = refl;
}

perform_all_refines_example :
    (w' : World) × (perform_all 1 operations pair_world
      ≡ ok
          (result pd_true
            ∷ result err_queue_full
            ∷ got pd_true (1 ∷ 2 ∷ [])
            ∷ got pd_true (10 ∷ 11 ∷ [])
            ∷ number 1
            ∷ [])
          w')
    × ((j : Ptr) → 1 ≢ j → lookup j w'.heap ≡ lookup j pair_world.heap)
perform_all_refines_example =
    perform_all_refines operations Models-pair
      (omega arith, (omega arith, (omega arith, (omega arith, (tt, tt)))))

send-ne_out_of_fuel_example :
    x_queue_generic_send 1 (some (7 ∷ 8 ∷ [])) send_to_back set_world ≢ out_of_fuel
send-ne_out_of_fuel_example =
    x_queue_generic_send-ne_out_of_fuel 1 (some (7 ∷ 8 ∷ [])) send_to_back set_world

Holds-member : Holds set_world 1 member_queue
unfolding lookup
Holds-member = record { ne_null = omega arith; found = refl }

Pending-set : Pending set_world 9 set_queue (5 ∷ [])
unfolding lookup
Pending-set = record {
  holds = record { ne_null = omega arith; found = refl };
  handles = refl;
  alone = refl;
  waits = refl;
}

send_to_back-notifies_example :
    (w' : World) × (r' : FakeQueue) × (x_queue_generic_send 1
        (some (7 ∷ 8 ∷ []))
        send_to_back
        set_world
      ≡ ok pd_true w')
    × Holds w' 1 (record member_queue { queue = (7 ∷ 8 ∷ []) ∷ [] })
    × Pending w' 9 r' (5 ∷ 1 ∷ [])
    × (r'.queue_length ≡ 2)
send_to_back-notifies_example =
    send_to_back-notifies (7 ∷ 8 ∷ []) Holds-member refl (omega arith) (omega arith) (omega arith)
      Pending-set (omega arith)

select_times-Pending_example :
    (w' : World) × (r' : FakeQueue) × (select_times 1 9 set_world ≡ ok (5 ∷ []) w')
    × Pending w' 9 r' []
select_times-Pending_example = select_times-Pending (5 ∷ []) (omega arith, tt) Pending-set

Holds-full_member : Holds full_set_world 1 member_queue
unfolding lookup
Holds-full_member = record { ne_null = omega arith; found = refl }

Pending-full_set : Pending full_set_world 9 full_set_queue (5 ∷ [])
unfolding lookup
Pending-full_set = record {
  holds = record { ne_null = omega arith; found = refl };
  handles = refl;
  alone = refl;
  waits = refl;
}

send_to_back_full_set_example :
    let w' = stored full_set_world 1 (record member_queue { queue = (7 ∷ 8 ∷ []) ∷ [] }) in
    (x_queue_generic_send 1 (some (7 ∷ 8 ∷ [])) send_to_back full_set_world ≡ ok pd_true w')
    × Pending w' 9 full_set_queue (5 ∷ [])
send_to_back_full_set_example =
    send_to_back_full_set (7 ∷ 8 ∷ []) Holds-full_member refl (omega arith) (omega arith)
      (omega arith) Pending-full_set (omega arith)

-- A queue in no set, beside the set.
abbrev free_queue : FakeQueue
free_queue = new_queue 2 2 base

abbrev free_world : World
free_world = record { heap = (1, free_queue) ∷ (9, set_queue) ∷ []; mutexes = none }

Holds-free : Holds free_world 1 free_queue
unfolding lookup
Holds-free = record { ne_null = omega arith; found = refl }

-- A queue of length 1 that is empty.
abbrev mailbox : FakeQueue
mailbox = new_queue 1 2 base

abbrev mailbox_world : World
mailbox_world = record { heap = (1, mailbox) ∷ []; mutexes = none }

Holds-mailbox : Holds mailbox_world 1 mailbox
unfolding lookup
Holds-mailbox = record { ne_null = omega arith; found = refl }

overwrite_lem_example : x_queue_generic_send 1 (some (7 ∷ 8 ∷ [])) overwrite mailbox_world ≡ fault
overwrite_lem_example = overwrite_lem (7 ∷ 8 ∷ []) Holds-mailbox refl (omega arith)
