-- ===== src/EventsHttp/Tests.antt =====
-- The search and the deletions on a list of documents, which are found in the order in which they
-- were stored.
use eventify.Common.{
  ℕ, ◌≡◌, refl, ap, sym, Bool, true, not, [], ◌∷◌, ◌++◌, List, length, map, keep, take, drop, none,
  some, String, str_eq,
}
use eventify.Common.Exec.{Outcome, ok, throw}
use eventify.Events.Request.{EventRequest}
use eventify.Http.Json.{filled}
use eventify.EventsHttp.Repository.{
  admits, as_stored, Document, Filter, EventCollection, owned_among,
}
use eventify.EventsHttp.Service.{GetEventsDto, Page, answer, get_events, total_pages}
use eventify.EventsHttp.Repository
use mathlib.Core.List.{Permᴰ}
use mathlib.Core.List.Permᴰ
use eventify.EventsHttp.Service.Pages.{at_page, collected, collected_all}

abbrev matches : Filter → Document → Bool
matches f d = str_eq d.owner_id f.owner_id

abbrev count_in : Outcome String ℕ → ℕ
count_in (ok n) = n
count_in (throw m) = 0

abbrev pub documents : EventCollection
documents = record {
  Docs = List Document;
  all = λ d. d;
  matches = matches;
  find = λ f field order skip limit d. take limit (drop skip (keep (matches f) d));
  sort_value = λ field d. d.id;
  find_by_owner =
      λ owner limit skip d. take limit (drop skip (keep (λ x. str_eq x.owner_id owner) d));
  count_documents = λ f d. length (keep (matches f) d);
  delete_many = λ owner ids d.
      (ok (length (keep (owned_among owner ids) d)), keep (λ x. not (owned_among owner ids x)) d);
  delete_one = λ owner id d. (
    ok (length (keep (owned_among owner (id ∷ [])) d)),
    keep (λ x. not (owned_among owner (id ∷ []) x)) d,
  );
  save = λ e d. (ok e, d ++ e ∷ []);
  is_date = λ t. true;
  insert_many = λ es d. (ok tt, d ++ map as_stored (keep (λ e. admits (λ t. true) e.event) es));
  find_lem = λ f field order d distinct. (keep (matches f) d, Permᴰ.refl _, λ skip limit h. refl);
  count_documents_lem = λ f d. refl;
  delete_many_lem = λ owner ids n s t h. (sym (ap (λ x. count_in x.0) h), sym (ap (λ x. x.1) h));
  delete_one_lem = λ owner id n s t h. (sym (ap (λ x. count_in x.0) h), sym (ap (λ x. x.1) h));
  insert_many_lem = λ ds s t h. sym (ap (λ x. x.1) h);
}

abbrev pub event : EventRequest
event = record {
  event_name = "click";
  payload = "{}";
  timestamp = "0";
  tags = [];
  category = none;
  severity = none;
}

abbrev pub doc : String → String → Document
doc id owner = record { id = id; owner_id = owner; event = event }

abbrev pub docs : List Document
docs = doc "1" "ann" ∷ doc "2" "bob" ∷ doc "3" "ann" ∷ doc "4" "ann" ∷ []

abbrev query : GetEventsDto
query = record {
  page = none;
  limit = some 2;
  event_name = none;
  category = none;
  severity = none;
  from_date = none;
  to_date = none;
  tags = none;
  sort_by = none;
  sort_order = none;
}

abbrev answered : Page
answered = answer (λ t. 0) documents (at_page query 1) (doc "1" "ann" ∷ doc "3" "ann" ∷ [], 3)

collected_all_example :
    (sorted : List Document) × Permᴰ sorted (doc "1" "ann" ∷ doc "3" "ann" ∷ doc "4" "ann" ∷ [])
    × (collected (λ t. 0) documents "ann" query 2 docs ≡ sorted)
    × (3 ≡ length sorted)
unfolding get_events Repository.get_events_with_filter total_pages filled
collected_all_example =
    collected_all (λ t. 0) documents "ann" query docs refl
      ((refl, (refl, tt)), ((refl, tt), (tt, tt))) answered refl
