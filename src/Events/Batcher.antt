-- ===== src/Events/Batcher.antt =====
-- src/events/stream-event-batcher.service.ts: the buffer in front of the event_process queue.
-- The timer of the constructor is the action `tick`, the clock is an argument, and a history is a
-- list of actions: between two of them the event loop runs nothing else of the batcher, since
-- neither method waits before its last statement.
pub mod Laws
use eventify.Common.{ℕ, List, [], ◌∷◌, ◌++◌, length, leb, ◌==◌, if◌then◌else◌}

-- A buffered entry: the event with its `receivedAt`.
pub record Stamped (E : Type 0) : Type 0 where
  pub event : E
  pub received_at : ℕ

-- `jobs` are the batches handed to the queue, oldest first; so are the entries of a list.
pub record StreamEventBatcher (E : Type 0) : Type 0 where
  pub buffer : List (Stamped E)
  pub batch : ℕ
  pub jobs : List (List (Stamped E))

pub data Action (E : Type 0) : Type 0 where
  add : ℕ → E → Action E
  tick : Action E

module _ {E : Type 0} where
  unfoldable pub init : StreamEventBatcher E
  init = record { buffer = []; batch = 10000; jobs = [] }

  unfoldable pub flush_batch : StreamEventBatcher E → StreamEventBatcher E
  flush_batch s =
      if length s.buffer == 0 then s else record s { buffer = []; jobs = s.jobs ++ s.buffer ∷ [] }

  unfoldable pub add_stream_event : ℕ → E → StreamEventBatcher E → StreamEventBatcher E
  add_stream_event now event s =
      let pushed = record s {
        buffer = s.buffer ++ record { event = event; received_at = now } ∷ [];
      } in
      if leb pushed.batch (length pushed.buffer) then flush_batch pushed else pushed

  unfoldable pub step : StreamEventBatcher E → Action E → StreamEventBatcher E
  step s (add now event) = add_stream_event now event s
  step s tick = flush_batch s

  unfoldable pub run : StreamEventBatcher E → List (Action E) → StreamEventBatcher E
  run s [] = s
  run s (a ∷ rest) = run (step s a) rest
