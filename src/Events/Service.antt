-- ===== src/Events/Service.antt =====
-- src/events/events.service.ts and src/events/interceptors/event.interceptor.ts: how an event of a
-- stream reaches the usage count, the two batchers and the metrics queue. The increment is not awaited
-- there; here it takes effect with the event, and its answer is dropped, as in the source.
pub mod Laws
use eventify.Common.{ℕ, List, [], ◌∷◌, ◌++◌, Option, none, some, String, str_eq, if◌then◌else◌}
use eventify.Common.Exec.{Exec, Outcome, ok, throw}
use eventify.Http.Exception.{Exception, message}
use eventify.Stores.Collection.{Collection}
use eventify.Stores.Hashes.{Hashes}
use eventify.ApiKey.Repository.{ApiKey, api_key_key}
use eventify.ApiKey.Service
use eventify.ApiKey.Usage
use eventify.ApiKey.Usage.{State, Status}
use eventify.Events.Request.{EventRequest}
use eventify.Events.Batcher
use eventify.Events.Batcher.{StreamEventBatcher}
use eventify.Events.WebSocketBatcher
use eventify.Events.WebSocketBatcher.{StreamWebSocketBatcher}

-- `{ ownerId, ...event }`, which is also the data of a `process-aggregation` job.
pub record OwnedEvent : Type 0 where
  pub owner_id : String
  pub event : EventRequest

pub record EventResponse : Type 0 where
  pub status : String
  pub message : String

abbrev pub received : EventResponse
received = record { status = "received"; message = "ok" }

module _ (h : Hashes) (c : Collection ApiKey api_key_key) where
  pub record Ingestion : Type 0 where
    pub usage : State h c
    pub stream_event_batcher : StreamEventBatcher OwnedEvent
    pub stream_web_socket_batcher : StreamWebSocketBatcher EventRequest
    pub metrics_jobs : List OwnedEvent
    pub responses : List EventResponse

  -- The `next` callback, with the id of the API key and the owner that the interceptor put into the
  -- metadata.
  unfoldable pub next : String → String → ℕ → EventRequest → Ingestion → Ingestion
  next api_key_id owner_id now event s =
      let owned : OwnedEvent = record { owner_id = owner_id; event = event } in
      record {
        usage = (Usage.increment_usage h c api_key_id s.usage).1;
        stream_event_batcher = Batcher.add_stream_event now owned s.stream_event_batcher;
        stream_web_socket_batcher =
            WebSocketBatcher.add_event owner_id event s.stream_web_socket_batcher;
        metrics_jobs = s.metrics_jobs ++ owned ∷ [];
        responses = s.responses ++ received ∷ [];
      }

  -- The events of a stream, each with the time at which it comes in.
  unfoldable pub event_stream : String → String → List (ℕ × EventRequest) → Ingestion → Ingestion
  event_stream api_key_id owner_id [] s = s
  event_stream api_key_id owner_id ((now, event) ∷ rest) s =
      event_stream api_key_id owner_id rest (next api_key_id owner_id now event s)

  -- What the interceptor reads and writes.
  pub record Entry : Type 0 where
    pub api_keys : c.Docs
    pub redis : h.Store

  abbrev pub status_of : ApiKey → Status
  status_of k = record {
    key = k.key;
    owner_id = k.owner_id;
    active = k.active;
    usage_count = k.usage_count;
    usage_limit = k.usage_limit;
  }

  abbrev entered : Outcome Exception ApiKey × c.Docs → Exec Entry String (String × String)
  entered (ok k, docs) s = (
    ok (k.owner_id, k.key),
    record {
      api_keys = docs;
      redis = Usage.initialize_api_key_usage h k.key (status_of k) s.redis;
    },
  )
  entered (throw e, docs) s = (throw (message e), record { api_keys = docs; redis = s.redis })

  -- The owner and the key that the handler finds in the metadata, or the text of an `RpcException`.
  unfoldable pub intercept : Option String → Exec Entry String (String × String)
  intercept none s = (throw "Please Provide Api Key to use our system", s)
  intercept (some key) s =
      if str_eq key ""
      then (throw "Please Provide Api Key to use our system", s)
      else entered (Service.validate_api_key c key s.api_keys) s
