-- ===== src/Events/Sessions.antt =====
-- `eventStream` of src/events/events.controller.ts: the interceptor, and the handler for a stream that it
-- lets in. The events of a stream come in after the hash of the key is there, and before the next stream
-- is opened.
pub mod Laws
pub mod Tests
use eventify.Common.{ℕ, List, [], ◌∷◌, Option, some, String}
use eventify.Common.Exec.{Exec, Outcome, ok, throw}
use eventify.Stores.Collection.{Collection}
use eventify.Stores.Hashes.{Hashes}
use eventify.ApiKey.Repository.{ApiKey, api_key_key}
use eventify.Events.Request.{EventRequest}
use eventify.Events.Service.{Ingestion, Entry, event_stream, intercept}

module _ (h : Hashes) (c : Collection ApiKey api_key_key) where
  abbrev pub entry_of : Ingestion h c → Entry h c
  entry_of s = record { api_keys = s.usage.api_keys; redis = s.usage.redis }

  abbrev pub with_entry : Entry h c → Ingestion h c → Ingestion h c
  with_entry e s = record s { usage = record s.usage { redis = e.redis; api_keys = e.api_keys } }

  abbrev pub handled :
      Outcome String (String × String) × Entry h c
      → List (ℕ × EventRequest)
      → Exec (Ingestion h c) String (Unit {0})
  handled (ok (owner, id), e) events s = (ok tt, event_stream h c id owner events (with_entry e s))
  handled (throw m, e) events s = (throw m, with_entry e s)

  -- A stream with the `x-api-key` of its metadata and its events.
  unfoldable pub open_stream :
      Option String → List (ℕ × EventRequest) → Exec (Ingestion h c) String (Unit {0})
  unfolding intercept event_stream
  open_stream header events s = handled (intercept h c header (entry_of s)) events s

  -- Streams with one key, one after the other.
  unfoldable pub open_streams :
      String → List (List (ℕ × EventRequest)) → Ingestion h c → Ingestion h c
  unfolding open_stream
  open_streams key [] s = s
  open_streams key (events ∷ rest) s = open_streams key rest (open_stream (some key) events s).1
