-- ===== src/EventsHttp/Repository.antt =====
-- src/events-http/repository/event-http.repository.ts, on a collection of MongoDB. The two insertions
-- and the two deletions may fail in the database, with a message. The schema of the documents is that
-- of src/events-http/schemas/event.schema.ts.
use mathlib.Core.List.{Permᴰ}
use eventify.Common.{
  All, take, drop, ◌<◌, ℕ, zero, suc, ◌≡◌, none, some, Bool, true, false, not, ◌&&◌, List, [], ◌∷◌,
  ◌++◌, length, map, keep, Option, String, str_eq, if◌then◌else◌,
}
use eventify.Common.Exec.{Exec, Outcome, ok, throw}
use eventify.Common.Number.{to_string}
use eventify.Events.Request.{EventRequest, Severity, named, code}
use eventify.Http.Exception.{Exception, error, bad_request, internal_server_error, message}

pub record Document : Type 0 where
  pub id : String
  pub owner_id : String
  pub event : EventRequest

abbrev pub is_in : List String → String → Bool
is_in [] id = false
is_in (x ∷ xs) id = if str_eq x id then true else is_in xs id

-- The values that the schema lets a severity have.
abbrev pub severities : List String
severities = "SEVERITY_UNSPECIFIED" ∷ "INFO" ∷ "WARN" ∷ "ERROR" ∷ []

-- A value of another type is stored as its text.
abbrev pub severity_text : Severity → String
severity_text (named s) = s
severity_text (code z) = to_string (some z)

abbrev pub is_severity : Option Severity → Bool
is_severity none = true
is_severity (some s) = is_in severities (severity_text s)

-- The validators of the schema: a name that is not empty, a payload other than null, a severity of the
-- enum, if there is one, and a timestamp that Mongoose casts to a date. The owner's id comes from a
-- document of the keys, so that it is one.
unfoldable pub admits : (String → Bool) → EventRequest → Bool
admits is_date e =
    not (str_eq e.event_name "")
    && not (str_eq e.payload "null")
    && is_severity e.severity
    && is_date e.timestamp

abbrev pub severity_or_default : Option Severity → String
severity_or_default none = "SEVERITY_UNSPECIFIED"
severity_or_default (some s) = severity_text s

-- The event as the schema stores it, but for its timestamp, which is kept as its text.
abbrev pub with_default : EventRequest → EventRequest
with_default e = record e { severity = some (named (severity_or_default e.severity)) }

abbrev pub as_stored : Document → Document
as_stored d = record d { event = with_default d.event }

-- What `getEvents` asks of the events; times are milliseconds.
pub record Filter : Type 0 where
  pub owner_id : String
  pub event_name : Option String
  pub category : Option String
  pub severity : Option String
  pub any_tag : Option (List String)
  pub from : Option ℕ
  pub to : Option ℕ

pub data SortOrder : Type 0 where
  ascending : SortOrder
  descending : SortOrder

-- `{ ownerId, _id: { $in: ids } }`.
abbrev pub owned_among : String → List String → Document → Bool
owned_among owner ids d = str_eq d.owner_id owner && is_in ids d.id

-- No two of the documents have the same value.
abbrev pub NoTies : (Document → String) → List Document → Type 0
NoTies value [] = Unit {0}
NoTies value (d ∷ ds) = All (λ e. str_eq (value d) (value e) ≡ false) ds × NoTies value ds

pub record EventCollection : Type 1 where
  pub Docs : Type 0
  pub all : Docs → List Document
  pub matches : Filter → Document → Bool
  -- The value of a document by which a sort on a field orders it, as a text.
  pub sort_value : String → Document → String
  -- The filter, the sort field and order, `skip` and `limit`.
  pub find : Filter → String → SortOrder → ℕ → ℕ → Docs → List Document
  -- The documents of an owner, with `limit` and `skip`.
  pub find_by_owner : String → ℕ → ℕ → Docs → List Document
  pub count_documents : Filter → Docs → ℕ
  -- The number of deleted documents, or the error's message.
  pub delete_many : String → List String → Exec Docs String ℕ
  pub delete_one : String → String → Exec Docs String ℕ
  pub save : Document → Exec Docs String Document
  -- Whether a text is cast to a date.
  pub is_date : String → Bool
  -- `insertMany` of the model, with `{ ordered: false }`.
  pub insert_many : List Document → Exec Docs String (Unit {0})
  -- Where no two of the matching documents have the same sort value, queries that differ only in `skip`
  -- and `limit` are answered from one arrangement of them. With ties the order may differ from query
  -- to query.
  pub find_lem :
      (f : Filter) (field : String) (order : SortOrder) (s : Docs)
      → NoTies (sort_value field) (keep (matches f) (all s))
      → (sorted : List Document) × Permᴰ sorted (keep (matches f) (all s))
        × ((skip limit : ℕ)
            → 0 < limit
            → find f field order skip limit s ≡ take limit (drop skip sorted))
  pub count_documents_lem :
      (f : Filter) (s : Docs) → count_documents f s ≡ length (keep (matches f) (all s))
  -- A deletion that succeeds removes the documents that match, and counts them.
  pub delete_many_lem :
      (owner : String) (ids : List String) (n : ℕ) (s t : Docs)
      → delete_many owner ids s ≡ (ok n, t)
      → (n ≡ length (keep (owned_among owner ids) (all s)))
        × (all t ≡ keep (λ d. not (owned_among owner ids d)) (all s))
  pub delete_one_lem :
      (owner id : String) (n : ℕ) (s t : Docs)
      → delete_one owner id s ≡ (ok n, t)
      → (n ≡ length (keep (owned_among owner (id ∷ [])) (all s)))
        × (all t ≡ keep (λ d. not (owned_among owner (id ∷ []) d)) (all s))
  -- An insertion that is not ordered leaves out the documents that the schema refuses; if it succeeds,
  -- all others stand behind those that were there.
  pub insert_many_lem :
      (ds : List Document) (s t : Docs)
      → insert_many ds s ≡ (ok tt, t)
      → all t ≡ all s ++ map as_stored (keep (λ d. admits is_date d.event) ds)

-- The outcome of a deletion: no match is a bad request.
abbrev pub counted : {S : Type 0} → Outcome String ℕ × S → Outcome Exception ℕ × S
counted (ok zero, s) = (throw (bad_request "No events matched the provided IDs for this user"), s)
counted (ok (suc n), s) = (ok (suc n), s)
counted (throw m, s) = (throw (error m), s)

-- `catch (error) { throw new InternalServerErrorException(error.message) }`.
abbrev pub caught : {S A : Type 0} → Outcome Exception A × S → Outcome Exception A × S
caught (ok a, s) = (ok a, s)
caught (throw e, s) = (throw (internal_server_error (message e)), s)

-- The error of the database, as it is thrown.
abbrev pub lifted : {S A : Type 0} → Outcome String A × S → Outcome Exception A × S
lifted (ok a, s) = (ok a, s)
lifted (throw m, s) = (throw (error m), s)

-- A promise that nobody waits for.
abbrev pub not_awaited : {S A : Type 0} → Outcome String A × S → Outcome Exception (Unit {0}) × S
not_awaited (o, s) = (ok tt, s)

module _ (c : EventCollection) where
  open c use {
    Docs, find, find_by_owner, count_documents, delete_many, delete_one, save, insert_many,
  }

  unfoldable pub delete_batch_events : String → List String → Exec Docs Exception ℕ
  delete_batch_events owner ids s = caught (counted (delete_many owner ids s))

  unfoldable pub delete_event : String → String → Exec Docs Exception ℕ
  delete_event owner id s = counted (delete_one owner id s)

  -- `return event.save()` leaves the `try` before the promise fails.
  unfoldable pub insert_event : Document → Exec Docs Exception Document
  insert_event event s = lifted (save event s)

  unfoldable pub insert_batch : List Document → Exec Docs Exception (Unit {0})
  insert_batch events s = not_awaited (insert_many events s)

  -- `number || other`, of options that may be missing.
  abbrev pub option_or : Option ℕ → ℕ → ℕ
  option_or none other = other
  option_or (some zero) other = other
  option_or (some (suc n)) other = suc n

  -- Nothing calls this one.
  unfoldable pub get_events : String → Option ℕ → Option ℕ → Docs → List Document
  get_events owner limit skip s = find_by_owner owner (option_or limit 10) (option_or skip 0) s

  -- The items of one page, and the number of all matches.
  unfoldable pub get_events_with_filter :
      Filter → ℕ → ℕ → String → SortOrder → Docs → List Document × ℕ
  get_events_with_filter filter limit skip field order s =
      (find filter field order skip limit s, count_documents filter s)
