-- ===== src/Queue/Fifo/Spec.antt =====
-- What a FreeRTOS queue of a given length and item size promises: a list of messages, oldest first.
-- No address, no deque and no word size.
use cpputest_for_freertos.Queue.{
  BaseType, CopyPosition, pd_true, pd_false, err_queue_full, send_to_back, send_to_front, overwrite,
  other_position,
}
use cpputest_for_freertos.World.{Message}
use cpputest_for_freertos.Base.{
  ℕ, List, if◌then◌else◌, ◌∷◌, take, ◌≤◌, ltb, [], length, ◌++◌, ◌-◌, ◌≡◌, ◌≢◌,
}

pub data Op : Type 0 where
  send : Message → CopyPosition → Op
  receive peek : ℕ → Op
  waiting available : Op

pub data Reply : Type 0 where
  result : BaseType → Reply
  got : BaseType → Message → Reply
  number : ℕ → Reply

module _ (capacity size : ℕ) where
  -- The reply to an operation, and the messages that the queue holds then.
  abbrev pub put_back : List Message → Message → Reply × List Message
  put_back xs m =
      if ltb (length xs) capacity
      then (result pd_true, xs ++ m ∷ [])
      else (result err_queue_full, xs)

  abbrev pub put_front : List Message → Message → Reply × List Message
  put_front xs m =
      if ltb (length xs) capacity then (result pd_true, m ∷ xs) else (result err_queue_full, xs)

  abbrev pub replace : List Message → Message → Reply × List Message
  replace xs m = (result pd_true, m ∷ [])

  abbrev pub first : List Message → List Message → Reply × List Message
  first [] ys = (got pd_false [], [])
  first (x ∷ xs) ys = (got pd_true x, ys)

  abbrev pub rest : List Message → List Message
  rest [] = []
  rest (x ∷ xs) = xs

  abbrev pub step : List Message → Op → Reply × List Message
  step xs (send m send_to_back) = put_back xs (take size m)
  step xs (send m send_to_front) = put_front xs (take size m)
  step xs (send m overwrite) = replace xs (take size m)
  step xs (send m other_position) = (result pd_false, xs)
  step xs (receive room) = first xs (rest xs)
  step xs (peek room) = first xs xs
  step xs waiting = (number (length xs), xs)
  step xs available = (number (capacity - length xs), xs)

  -- What the caller owes: buffers that are large enough, a position that FreeRTOS knows, and to
  -- overwrite only in a queue of length 1 that holds a message.
  abbrev pub Allowed : List Message → Op → Type 0
  Allowed xs (send m send_to_back) = size ≤ length m
  Allowed xs (send m send_to_front) = size ≤ length m
  Allowed xs (send m overwrite) = (size ≤ length m) × (capacity ≡ 1) × (xs ≢ [])
  Allowed xs (send m other_position) = ⊥
  Allowed xs (receive room) = size ≤ room
  Allowed xs (peek room) = size ≤ room
  Allowed xs waiting = Unit
  Allowed xs available = Unit

  abbrev pub run : List Message → List Op → List Reply
  run xs [] = []
  run xs (o ∷ os) = let (r, ys) = step xs o in r ∷ run ys os

  abbrev pub AllAllowed : List Message → List Op → Type 0
  AllAllowed xs [] = Unit
  AllAllowed xs (o ∷ os) = Allowed xs o × AllAllowed (step xs o).1 os
