-- ===== src/Events/Storing.antt =====
-- src/events/event-to-db.processor.ts and src/events/api-usage-tracker.processor.ts: what the workers of
-- two queues do with a job. `JSON.parse` is a parameter: it gives the JSON text of the value that is
-- stored, or none for an error. The ids of new documents are those of Mongoose, by their place.
pub mod Laws
pub mod Concurrency
use eventify.Common.{ℕ, ◌+◌, List, [], ◌∷◌, Option, none, some, String, if◌then◌else◌}
use eventify.Common.Exec.{Outcome, ok, throw}
use eventify.Common.Traverse.{traverse}
use eventify.Common.Number.{Number, ge_number}
use eventify.ApiKey.Repository.{ApiKey, api_key_key}
use eventify.ApiKey.Service
use eventify.Events.Batcher.{Stamped}
use eventify.Events.Service.{OwnedEvent}
use eventify.EventsHttp.Repository.{Document, EventCollection, insert_batch}
use eventify.Http.Exception.{Exception, error, message}
use eventify.Stores.Collection.{Collection}

-- `{ ...event, payload: JSON.parse(event.payload) }`.
abbrev pub with_payload : OwnedEvent → String → OwnedEvent
with_payload e payload = record e { event = record e.event { payload = payload } }

-- `catch (error) { throw new Error(error.message) }`.
abbrev pub rethrown : {A S : Type 0} → Outcome Exception A × S → Outcome Exception A × S
rethrown (ok a, s) = (ok a, s)
rethrown (throw e, s) = (throw (error (message e)), s)

module _ (parse_json : String → Option String) where
  unfoldable pub parsed : OwnedEvent → Option OwnedEvent
  parsed e = elim (parse_json e.event.payload) [
    | none ↦ none
    | some payload ↦ some (with_payload e payload)
  ]

  -- `events.map(...)`, which ends with the first payload that cannot be parsed.
  unfoldable pub parse_all : List (Stamped OwnedEvent) → Option (List OwnedEvent)
  unfolding parsed traverse
  parse_all events = traverse (λ x. parsed x.event) events

-- The documents of a batch, from a place on.
unfoldable pub documents : (ℕ → String) → ℕ → List OwnedEvent → List Document
documents new_id i [] = []
documents new_id i (e ∷ es) =
    record { id = new_id i; owner_id = e.owner_id; event = e.event } ∷ documents new_id (i + 1) es

module _ (parse_json : String → Option String) (c : EventCollection) where
  open c use {Docs}

  abbrev inserted :
      (ℕ → String) → Option (List OwnedEvent) → Docs → Outcome Exception (Unit {0}) × Docs
  inserted new_id none s = (throw (error "SyntaxError"), s)
  inserted new_id (some events) s = rethrown (insert_batch c (documents new_id 0 events) s)

  -- `process` of the worker that stores events.
  unfoldable pub store_batch :
      (ℕ → String) → List (Stamped OwnedEvent) → Docs → Outcome Exception (Unit {0}) × Docs
  unfolding parse_all documents insert_batch
  store_batch new_id events s = inserted new_id (parse_all parse_json events) s

  -- The jobs of the queue, one after the other.
  unfoldable pub store_batches :
      (ℕ → ℕ → String) → ℕ → List (List (Stamped OwnedEvent)) → Docs → Docs
  unfolding store_batch
  store_batches new_id i [] s = s
  store_batches new_id i (job ∷ jobs) s =
      store_batches new_id (i + 1) jobs (store_batch (new_id i) job s).1

module _ (c : Collection ApiKey api_key_key) where
  open c use {Docs}

  -- `process` of the worker that tracks the usage of a key.
  unfoldable pub track_usage : String → Number → Number → Docs → Outcome Exception (Unit {0}) × Docs
  unfolding Service.update_api_key_usage
  track_usage key usage_count usage_limit s =
      if ge_number usage_count usage_limit
      then (throw (error ""), s)
      else (ok tt, Service.update_api_key_usage c key usage_count s)
