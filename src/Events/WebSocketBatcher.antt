-- ===== src/Events/WebSocketBatcher.antt =====
-- src/websocket/stream-websocket-batcher.service.ts: a buffer for each owner in front of the
-- WEBSOCKET_EVENTS_QUEUE. As in Batcher, the timer is the action `tick`.
pub mod Laws
use eventify.Common.{
  ℕ, String, Option, none, some, List, [], ◌∷◌, ◌++◌, length, leb, ◌==◌, if◌then◌else◌,
}
use eventify.Common.Dict

-- The data of a `broadcast-events` job.
pub record Broadcast (E : Type 0) : Type 0 where
  pub owner_id : String
  pub events : List E

pub record StreamWebSocketBatcher (E : Type 0) : Type 0 where
  pub buffer_map : List (String × List E)
  pub batch_size : ℕ
  pub jobs : List (Broadcast E)

pub data Action (E : Type 0) : Type 0 where
  add : String → E → Action E
  tick : Action E

module _ {E : Type 0} where
  unfoldable pub init : StreamWebSocketBatcher E
  init = record { buffer_map = []; batch_size = 5000; jobs = [] }

  -- The array at a key, or none.
  abbrev pub array : Option (List E) → List E
  array none = []
  array (some events) = events

  abbrev pub buffered : String → StreamWebSocketBatcher E → List E
  buffered owner s = array (Dict.get owner s.buffer_map)

  -- An absent array and an empty one are left alone alike.
  unfoldable pub flush_user_batch : String → StreamWebSocketBatcher E → StreamWebSocketBatcher E
  flush_user_batch owner s = if length (buffered owner s) == 0 then s else record s {
    buffer_map = Dict.put owner [] s.buffer_map;
    jobs = s.jobs ++ record { owner_id = owner; events = buffered owner s } ∷ [];
  }

  unfoldable pub flush_keys : List String → StreamWebSocketBatcher E → StreamWebSocketBatcher E
  flush_keys [] s = s
  flush_keys (k ∷ ks) s = flush_keys ks (flush_user_batch k s)

  -- The keys do not change while the loop walks them: it sets only keys that are there.
  unfoldable pub flush_all_batches : StreamWebSocketBatcher E → StreamWebSocketBatcher E
  flush_all_batches s = flush_keys (Dict.keys s.buffer_map) s

  unfoldable pub add_event : String → E → StreamWebSocketBatcher E → StreamWebSocketBatcher E
  add_event owner event s =
      let user_buffer = buffered owner s ++ event ∷ [] in
      let pushed = record s { buffer_map = Dict.put owner user_buffer s.buffer_map } in
      if leb s.batch_size (length user_buffer) then flush_all_batches pushed else pushed

  unfoldable pub step : StreamWebSocketBatcher E → Action E → StreamWebSocketBatcher E
  step s (add owner event) = add_event owner event s
  step s tick = flush_all_batches s

  unfoldable pub run : StreamWebSocketBatcher E → List (Action E) → StreamWebSocketBatcher E
  run s [] = s
  run s (a ∷ rest) = run (step s a) rest
