-- ===== src/Events/Tests.antt =====
-- The two batchers on short histories.
use eventify.Common.Exec.{throw}
use eventify.Http.Exception.{error}
use eventify.Gateway.{Gateway}
use eventify.EventsHttp.Tests.{documents}
use eventify.Events.Broadcasting.{broadcast_jobs}
use eventify.Events.Broadcasting.Laws.{received as room_events, flush_all_batches-broadcast_jobs}
use eventify.Events.Storing.{store_batch}
use eventify.Events.Storing.Laws.{store_batch_refused}
use eventify.Common.Number.{pos}
use eventify.Stores.Collection.{Collection}
use eventify.Stores.InMemory.{list_collection, table_hashes}
use eventify.ApiKey.Repository.{ApiKey, api_key_key}
use eventify.ApiKey.Usage.{increment_all}
use eventify.Events.Request.{EventRequest}
use eventify.Events.Service.{OwnedEvent, Entry, Ingestion, event_stream, received}
use eventify.Events.Service.Laws.{stream_actions, socket_actions, event_stream_lem}
use eventify.Common.{
  ◌≡◌, [], ◌∷◌, ◌++◌, List, String, Option, none, some, str_eq, if◌then◌else◌, true, refl,
}
use eventify.Events.Batcher
use eventify.Events.Batcher.{Stamped}
use eventify.Events.Batcher.Laws
use eventify.Events.Batcher.Laws.{run-init-conserves, tick_delivers, run-init-IsValid}
use eventify.Events.WebSocketBatcher
use eventify.Events.WebSocketBatcher.{buffered}
use eventify.Events.WebSocketBatcher.Laws.{broadcast_to, owner_run-conserves}

abbrev history : List (Batcher.Action String)
history = Batcher.Action.add 1 "a" ∷ Batcher.Action.tick ∷ Batcher.Action.add 2 "b" ∷ []

abbrev stamped : List (Stamped String)
stamped = record { event = "a"; received_at = 1 } ∷ record { event = "b"; received_at = 2 } ∷ []

run-init-conserves_example :
    Batcher.Laws.concat (Batcher.run Batcher.init history).jobs
      ++ (Batcher.run Batcher.init history).buffer
    ≡ stamped
run-init-conserves_example = run-init-conserves history

abbrev shared : List (WebSocketBatcher.Action String)
shared =
    WebSocketBatcher.Action.add "ann" "a"
    ∷ WebSocketBatcher.Action.add "bob" "b"
    ∷ WebSocketBatcher.Action.tick
    ∷ WebSocketBatcher.Action.add "ann" "c"
    ∷ []

owner_run-conserves_example :
    broadcast_to "ann" (WebSocketBatcher.run WebSocketBatcher.init shared).jobs
      ++ buffered "ann" (WebSocketBatcher.run WebSocketBatcher.init shared)
    ≡ "a" ∷ "c" ∷ []
owner_run-conserves_example = owner_run-conserves "ann" shared

abbrev keys : Collection ApiKey api_key_key
keys = list_collection api_key_key

abbrev click : EventRequest
click = record {
  event_name = "click";
  payload = "{}";
  timestamp = "0";
  tags = [];
  category = none;
  severity = none;
}

abbrev idle : Ingestion table_hashes keys
idle = record {
  usage = record { redis = []; sync_counter = []; api_keys = [] };
  stream_event_batcher = Batcher.init;
  stream_web_socket_batcher = WebSocketBatcher.init;
  metrics_jobs = [];
  responses = [];
}

event_stream_lem_example :
    let after = event_stream table_hashes keys "k1" "ann" ((1, click) ∷ (2, click) ∷ []) idle in
    (after.usage ≡ increment_all table_hashes keys ("k1" ∷ "k1" ∷ []) idle.usage)
    × (after.stream_event_batcher
        ≡ Batcher.run Batcher.init
            (stream_actions table_hashes keys "k1" "ann" ((1, click) ∷ (2, click) ∷ [])))
    × (after.stream_web_socket_batcher
        ≡ WebSocketBatcher.run WebSocketBatcher.init
            (socket_actions table_hashes keys "k1" "ann" ((1, click) ∷ (2, click) ∷ [])))
    × (after.metrics_jobs
        ≡ record { owner_id = "ann"; event = click }
          ∷ record { owner_id = "ann"; event = click }
          ∷ [])
    × (after.responses ≡ received ∷ received ∷ [])
event_stream_lem_example =
    event_stream_lem table_hashes keys "k1" "ann" ((1, click) ∷ (2, click) ∷ []) idle

abbrev stored_key : ApiKey
stored_key = record {
  name = "first";
  key = "k1";
  owner_id = "ann";
  active = true;
  usage_count = some (pos 3);
  usage_limit = some (pos 5000);
}

abbrev entry : Entry table_hashes keys
entry = record { api_keys = stored_key ∷ []; redis = [] }

abbrev plain_event : String → EventRequest
plain_event payload = record {
  event_name = "click";
  payload = payload;
  timestamp = "0";
  tags = [];
  category = none;
  severity = none;
}

abbrev owned : String → OwnedEvent
owned payload = record { owner_id = "ann"; event = plain_event payload }

abbrev parse : String → Option String
parse t = if str_eq t "oops" then none else some t

store_batch_refused_example :
    store_batch parse documents
      (λ i. "id")
      (record { event = owned "{}"; received_at = 0 }
        ∷ record { event = owned "oops"; received_at = 1 }
        ∷ record { event = owned "{}"; received_at = 2 }
        ∷ [])
      []
    ≡ (throw (error "SyntaxError"), [])
store_batch_refused_example =
    store_batch_refused parse documents (λ i. "id")
      (record { event = owned "{}"; received_at = 0 } ∷ [])
      (record { event = owned "{}"; received_at = 2 } ∷ [])
      (record { event = owned "oops"; received_at = 1 }) [] refl

abbrev streamed : List (Batcher.Action OwnedEvent)
streamed =
    Batcher.Action.add 1 (owned "{}")
    ∷ Batcher.Action.tick
    ∷ Batcher.Action.add 2 (owned "1")
    ∷ Batcher.Action.add 3 (owned "null")
    ∷ []

abbrev first_job : List (Stamped OwnedEvent)
first_job = record { event = owned "{}"; received_at = 1 } ∷ []

abbrev second_job : List (Stamped OwnedEvent)
second_job =
    record { event = owned "1"; received_at = 2 }
    ∷ record { event = owned "null"; received_at = 3 }
    ∷ []

abbrev opened : Gateway (List EventRequest)
opened = record {
  connected_clients = [];
  users = [];
  rooms = [];
  is_initialized = true;
  emitted = [];
}

abbrev mixed : List (WebSocketBatcher.Action EventRequest)
mixed =
    WebSocketBatcher.Action.add "ann" (plain_event "{}")
    ∷ WebSocketBatcher.Action.add "bob" (plain_event "oops")
    ∷ WebSocketBatcher.Action.tick
    ∷ WebSocketBatcher.Action.add "ann" (plain_event "1")
    ∷ []

flush_all_batches-broadcast_jobs_example :
    room_events "ann"
      (broadcast_jobs parse
        (WebSocketBatcher.flush_all_batches (WebSocketBatcher.run WebSocketBatcher.init mixed)).jobs
        opened).emitted
    ≡ plain_event "{}" ∷ plain_event "1" ∷ []
flush_all_batches-broadcast_jobs_example =
    flush_all_batches-broadcast_jobs parse (λ t. t) "ann" mixed opened (refl, (refl, tt))
