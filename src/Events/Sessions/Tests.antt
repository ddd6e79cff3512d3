-- ===== src/Events/Sessions/Tests.antt =====
-- A key of one owner, in a list of documents and a table of hashes.
use eventify.Common.{ℕ, ◌≡◌, refl, List, [], ◌∷◌, none, some, ltb}
use eventify.Common.Exec.{ok}
use eventify.Stores.Collection.{Collection}
use eventify.Stores.InMemory.{list_collection, table_hashes}
use eventify.ApiKey.Repository.{ApiKey, api_key_key, new_document}
use eventify.ApiKey.Service.{create_api_key, generate_api_key}
use eventify.ApiKey.Service.Laws.{document}
use eventify.ApiKey.Usage.Metered.{IsMetered}
use eventify.Events.Batcher
use eventify.Events.Request.{EventRequest}
use eventify.Events.Service.{Ingestion}
use eventify.Events.WebSocketBatcher
use eventify.Events.Sessions.{open_stream, open_streams}
use eventify.Events.Sessions.Laws.{is_let_in, create_api_key-open_streams}

abbrev keys : Collection ApiKey api_key_key
keys = list_collection api_key_key

abbrev anna : ApiKey
anna = document keys "anna" "first" "evntfy_anna_ff"

abbrev start : Ingestion table_hashes keys
start = record {
  usage = record { redis = []; sync_counter = []; api_keys = anna ∷ [] };
  stream_event_batcher = Batcher.init;
  stream_web_socket_batcher = WebSocketBatcher.init;
  metrics_jobs = [];
  responses = [];
}

abbrev click : EventRequest
click = record {
  event_name = "click";
  payload = "{}";
  timestamp = "0";
  tags = [];
  category = none;
  severity = none;
}

abbrev streams : List (List (ℕ × EventRequest))
streams = ((1, click) ∷ (2, click) ∷ []) ∷ ((3, click) ∷ []) ∷ []

created : create_api_key keys "anna" "first" "ff" [] ≡ (ok "evntfy_anna_ff", anna ∷ [])
unfolding create_api_key generate_api_key new_document
created = refl

create_api_key-open_streams_example :
    let after = open_streams table_hashes keys "evntfy_anna_ff" streams start in
    IsMetered table_hashes keys anna 3 after.usage
    × (is_let_in (open_stream table_hashes keys (some "evntfy_anna_ff") ((4, click) ∷ []) after).0
        ≡ ltb 3 5000)
create_api_key-open_streams_example =
    create_api_key-open_streams table_hashes keys "anna" "first" "ff" "evntfy_anna_ff" [] streams
      ((4, click) ∷ []) start created refl refl
