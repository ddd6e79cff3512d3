-- ===== src/EventsHttp/Service.antt =====
-- src/events-http/events-http.service.ts. `new Date(text)` is an argument; the DTO lets only ISO 8601
-- texts through. The page and the limit are whole numbers, as the DTO checks.
pub mod Pages
pub mod Deletion
use eventify.Common.{
  ℕ, zero, suc, ◌+◌, ◌-◌, ◌*◌, ◌/◌, Bool, true, false, List, [], ◌∷◌, Option, none, some, String,
  str_eq, if◌then◌else◌, ltb,
}
use eventify.Common.Exec.{Exec, Outcome, ok, throw}
use eventify.Http.Exception.{Exception, bad_request}
use eventify.Http.Json.{filled}
use eventify.EventsHttp.Repository
use eventify.EventsHttp.Repository.{
  Document, Filter, SortOrder, ascending, descending, EventCollection,
}

pub record GetEventsDto : Type 0 where
  pub page : Option ℕ
  pub limit : Option ℕ
  pub event_name : Option String
  pub category : Option String
  pub severity : Option String
  pub from_date : Option String
  pub to_date : Option String
  pub tags : Option (List String)
  pub sort_by : Option String
  pub sort_order : Option String

pub record FiltersApplied : Type 0 where
  pub event_name : Option String
  pub category : Option String
  pub severity : Option String
  pub tags : List String
  pub from_date : Option String
  pub to_date : Option String
  pub sort_by : String
  pub sort_order : String

pub record Page : Type 0 where
  pub events : List Document
  pub page : ℕ
  pub limit : ℕ
  pub total : ℕ
  pub total_pages : ℕ
  pub filters_applied : FiltersApplied

-- `number || other`.
abbrev pub or_number : Option ℕ → ℕ → ℕ
or_number none other = other
or_number (some zero) other = other
or_number (some (suc n)) other = suc n

abbrev pub or_text : Option String → String → String
or_text o other = elim (filled o) [ none ↦ other | some t ↦ t ]

abbrev pub some_tags : Option (List String) → Option (List String)
some_tags none = none
some_tags (some []) = none
some_tags (some (t ∷ ts)) = some (t ∷ ts)

abbrev pub tags_or_none : Option (List String) → List String
tags_or_none none = []
tags_or_none (some ts) = ts

-- `from && to && from > to`, on `Date`s.
abbrev pub is_reversed : Option ℕ → Option ℕ → Bool
is_reversed none to = false
is_reversed (some from) none = false
is_reversed (some from) (some to) = ltb to from

-- `total ? Math.ceil(total / limit) : 0`.
unfoldable pub total_pages : ℕ → ℕ → ℕ
total_pages zero limit = 0
total_pages (suc n) limit = (suc n + (limit - 1)) / limit

abbrev pub is_asc : Option String → Bool
is_asc none = false
is_asc (some t) = str_eq t "asc"

pub record DeleteReply : Type 0 where
  pub status : String
  pub message : String
  pub deleted_count : ℕ

abbrev pub deleted : {S : Type 0} → Outcome Exception ℕ × S → Outcome Exception DeleteReply × S
deleted (ok n, s) =
    (ok (record { status = "success"; message = "deleted successfully"; deleted_count = n }), s)
deleted (throw e, s) = (throw e, s)

module _ (new_date : String → ℕ) (c : EventCollection) where
  open c use {Docs}

  abbrev pub date_of : Option String → Option ℕ
  date_of o = elim (filled o) [ none ↦ none | some t ↦ some (new_date t) ]

  abbrev pub filter_of : String → GetEventsDto → Filter
  filter_of owner query = record {
    owner_id = owner;
    event_name = filled query.event_name;
    category = filled query.category;
    severity = filled query.severity;
    any_tag = some_tags query.tags;
    from = date_of query.from_date;
    to = date_of query.to_date;
  }

  abbrev pub sort_field : GetEventsDto → String
  sort_field query = or_text query.sort_by "timestamp"

  abbrev pub sort_order : GetEventsDto → SortOrder
  sort_order query = if is_asc query.sort_order then ascending else descending

  abbrev pub answer : GetEventsDto → List Document × ℕ → Page
  answer query (items, total) = record {
    events = items;
    page = or_number query.page 1;
    limit = or_number query.limit 50;
    total = total;
    total_pages = total_pages total (or_number query.limit 50);
    filters_applied = record {
      event_name = filled query.event_name;
      category = filled query.category;
      severity = filled query.severity;
      tags = tags_or_none query.tags;
      from_date = filled query.from_date;
      to_date = filled query.to_date;
      sort_by = sort_field query;
      sort_order = or_text query.sort_order "desc";
    };
  }

  unfoldable pub get_events : String → GetEventsDto → Exec Docs Exception Page
  unfolding filled total_pages Repository.get_events_with_filter
  get_events owner query s =
      if is_reversed (date_of query.from_date) (date_of query.to_date)
      then (throw (bad_request "fromDate must be before or equal to toDate"), s)
      else (
        ok (
            answer query (
              Repository.get_events_with_filter c (filter_of owner query) (or_number query.limit 50)
                ((or_number query.page 1 - 1) * or_number query.limit 50) (sort_field query)
                (sort_order query) s)),
        s,
      )

module _ (c : EventCollection) where
  open c use {Docs}

  unfoldable pub delete_batch_events : String → List String → Exec Docs Exception DeleteReply
  unfolding Repository.delete_batch_events
  delete_batch_events owner ids s = deleted (Repository.delete_batch_events c owner ids s)

  unfoldable pub delete_event : String → String → Exec Docs Exception DeleteReply
  unfolding Repository.delete_event
  delete_event owner id s = deleted (Repository.delete_event c owner id s)
