-- ===== src/Events/Broadcasting.antt =====
-- src/websocket/events-websocket.processor.ts: the worker of the WEBSOCKET_EVENTS_QUEUE. `JSON.parse` is a
-- parameter, as in Storing; a payload that is no JSON stops the job before anything is emitted.
pub mod Laws
use eventify.Common.{ℕ, suc, List, [], ◌∷◌, Option, none, some, String}
use eventify.Common.Dict
use eventify.Common.Exec.{Outcome, ok, throw}
use eventify.Common.Traverse.{traverse}
use eventify.Events.Request.{EventRequest}
use eventify.Events.WebSocketBatcher.{Broadcast}
use eventify.Gateway.{Gateway, broadcast_to_user}

module _ (parse_json : String → Option String) where
  unfoldable pub with_parsed : EventRequest → Option EventRequest
  with_parsed e = elim (parse_json e.payload) [
    | none ↦ none
    | some payload ↦ some (record e { payload = payload })
  ]

  abbrev broadcast_parsed :
      String
      → Option (List EventRequest)
      → Gateway (List EventRequest)
      → Outcome String (Unit {0}) × Gateway (List EventRequest)
  broadcast_parsed owner_id none g = (throw "SyntaxError", g)
  broadcast_parsed owner_id (some events) g = (ok tt, broadcast_to_user owner_id events g)

  -- `process`, of one job.
  unfoldable pub broadcast_job :
      Broadcast EventRequest
      → Gateway (List EventRequest)
      → Outcome String (Unit {0}) × Gateway (List EventRequest)
  unfolding traverse with_parsed broadcast_to_user
  broadcast_job job g = broadcast_parsed job.owner_id (traverse with_parsed job.events) g

  -- The jobs of the queue, one after the other.
  unfoldable pub broadcast_jobs :
      List (Broadcast EventRequest) → Gateway (List EventRequest) → Gateway (List EventRequest)
  unfolding broadcast_job
  broadcast_jobs [] g = g
  broadcast_jobs (job ∷ jobs) g = broadcast_jobs jobs (broadcast_job job g).1

abbrev pub or_zero : Option ℕ → ℕ
or_zero none = 0
or_zero (some n) = n

-- `aggregateEvents`, on the counts that the processor keeps; nothing calls it.
unfoldable pub aggregate_events : List EventRequest → List (String × ℕ) → List (String × ℕ)
aggregate_events [] event_count = event_count
aggregate_events (e ∷ es) event_count =
    aggregate_events es
      (Dict.put e.event_name (suc (or_zero (Dict.get e.event_name event_count))) event_count)
