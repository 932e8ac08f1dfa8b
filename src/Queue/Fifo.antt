-- ===== src/Queue/Fifo.antt =====
-- A bounded double-ended queue of messages, next to the fake queue of
-- cpputest-for-freertos-lib/src/cpputest_for_freertos_queue.cpp.
pub mod Spec
pub mod Refine
pub mod Events
pub mod Instance
use cpputest_for_freertos.World.{◌>>=◌}
use cpputest_for_freertos.Queue.Step.{Holds, stored, deref-ok, not_null}
use cpputest_for_freertos.Queue.Inv.{IsSound}
use cpputest_for_freertos.World.{Ptr, M, pure}
use cpputest_for_freertos.Queue.Fifo.Spec.{
  Op, Reply, send, result, receive, got, peek, number, waiting, available,
}
use cpputest_for_freertos.Base.{List, ◌∷◌, [], some}
use cpputest_for_freertos.Queue.{
  x_queue_generic_send, x_queue_receive, x_queue_peek, ux_queue_messages_waiting,
  ux_queue_spaces_available,
}

-- A caller's operations on one queue: the sends with their bytes, and the receives with the size of
-- the buffer.
unfoldable pub perform : Ptr → Op → M Reply
perform p (send bytes position) = do
  r ← x_queue_generic_send p (some bytes) position
  pure (result r)
perform p (receive room) = do (r, bytes) ← x_queue_receive p (some room); pure (got r bytes)
perform p (peek room) = do (r, bytes) ← x_queue_peek p (some room); pure (got r bytes)
perform p waiting = do n ← ux_queue_messages_waiting p; pure (number n)
perform p available = do n ← ux_queue_spaces_available p; pure (number n)

unfoldable pub perform_all : Ptr → List Op → M (List Reply)
perform_all p [] = pure []
perform_all p (o ∷ os) = do r ← perform p o; rs ← perform_all p os; pure (r ∷ rs)
