-- ===== src/EventsHttp/Service/Deletion.antt =====
-- What the two deletions do, and whose events they leave alone.
use eventify.Common.{
  ℕ, ◌≡◌, refl, true, false, not, List, [], ◌∷◌, length, keep, String, str_eq, arith, eq_iff,
  Bool-cases, inl, inr,
}
use eventify.Common.Exec.{Outcome, ok, throw}
use eventify.Http.Exception.{Exception, bad_request, internal_server_error}
use eventify.EventsHttp.Repository
use eventify.EventsHttp.Repository.{Document, EventCollection, owned_among}
use eventify.EventsHttp.Service.{DeleteReply, delete_batch_events, delete_event, deleted}

-- Dropping what belongs to one owner keeps what belongs to another.
keep_others :
    (owner other : String) (ids : List String) (ds : List Document)
    → str_eq owner other ≡ false
    → keep (λ d. str_eq d.owner_id other) (keep (λ d. not (owned_among owner ids d)) ds)
      ≡ keep (λ d. str_eq d.owner_id other) ds
keep_others owner other ids [] h = refl
keep_others owner other ids (d ∷ ds) h = elim (Bool-cases (owned_among owner ids d)) [
  | inl e ↦ rw e ground (arith, keep_others owner other ids ds h, mine)
  | inr e ↦ rw e ground (arith, keep_others owner other ids ds h)
]
  where
    mine : owned_among owner ids d ≡ true → str_eq d.owner_id other ≡ false
    mine e = ground (arith, eq_iff d.owner_id owner)

-- Both replies for a deletion that counted.
abbrev pub done : ℕ → DeleteReply
done n = record { status = "success"; message = "deleted successfully"; deleted_count = n }

module _ (c : EventCollection) where
  open c use {Docs, all, delete_many, delete_one, delete_many_lem, delete_one_lem}

  -- The documents of an owner.
  abbrev pub owned : String → Docs → List Document
  owned owner s = keep (λ d. str_eq d.owner_id owner) (all s)

  abbrev pub chosen : String → List String → Docs → List Document
  chosen owner ids s = keep (owned_among owner ids) (all s)

  -- What a deletion answers: the number of deleted documents, or that there was none.
  abbrev pub answer_to : Exception → List Document → Outcome Exception DeleteReply
  answer_to e [] = throw e
  answer_to e (d ∷ ds) = ok (done (length (d ∷ ds)))

  abbrev pub no_match : String
  no_match = "No events matched the provided IDs for this user"

  found_none :
      (ds : List Document) (t : Docs)
      → deleted (Repository.counted (ok (length ds), t)) ≡ (answer_to (bad_request no_match) ds, t)
  found_none [] t = refl
  found_none (d ∷ ds) t = refl

  found_none_fails :
      (ds : List Document) (t : Docs)
      → deleted (Repository.caught (Repository.counted (ok (length ds), t)))
        ≡ (answer_to (internal_server_error no_match) ds, t)
  found_none_fails [] t = refl
  found_none_fails (d ∷ ds) t = refl

  -- When the database deletes, a batch deletion answers with the number of the owner's documents among
  -- the ids; if there is none it fails with an internal server error.
  pub delete_batch_events_lem :
      (owner : String) (ids : List String) (n : ℕ) (s t : Docs)
      → delete_many owner ids s ≡ (ok n, t)
      → delete_batch_events c owner ids s
        ≡ (answer_to (internal_server_error no_match) (chosen owner ids s), t)
  unfolding delete_batch_events Repository.delete_batch_events
  delete_batch_events_lem owner ids n s t h =
      let (counted, left) = delete_many_lem owner ids n s t h in
      rw (h, counted) (found_none_fails (chosen owner ids s) t)

  -- When the database deletes, a deletion answers with the number of the owner's documents with the id;
  -- if there is none it fails with a bad request.
  pub delete_event_lem :
      (owner id : String) (n : ℕ) (s t : Docs)
      → delete_one owner id s ≡ (ok n, t)
      → delete_event c owner id s ≡ (answer_to (bad_request no_match) (chosen owner (id ∷ []) s), t)
  unfolding delete_event Repository.delete_event
  delete_event_lem owner id n s t h =
      let (counted, left) = delete_one_lem owner id n s t h in
      rw (h, counted) (found_none (chosen owner (id ∷ []) s) t)

  -- When the database deletes, a batch deletion leaves the documents of every other owner as they
  -- were, whatever the ids.
  pub delete_batch_events-owned :
      (owner other : String) (ids : List String) (n : ℕ) (s t : Docs)
      → delete_many owner ids s ≡ (ok n, t)
      → str_eq owner other ≡ false
      → owned other (delete_batch_events c owner ids s).1 ≡ owned other s
  unfolding delete_batch_events Repository.delete_batch_events
  delete_batch_events-owned owner other ids n s t h differ =
      let (counted, left) = delete_many_lem owner ids n s t h in
      rw (delete_batch_events_lem owner ids n s t h, left)
        (keep_others owner other ids (all s) differ)
