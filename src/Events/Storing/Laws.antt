-- ===== src/Events/Storing/Laws.antt =====
-- What reaches the collection.
use mathlib.Core.List.{append_assoc, append-nil, map-append}
use mathlib.Core.Path.{subst}
use eventify.Common.{
  ℕ, ◌+◌, ◌≡◌, refl, sym, ap, ◌∙◌, List, [], ◌∷◌, ◌++◌, map, keep, keep-append, Bool, Bool-cases,
  inl, inr, Option, none, some, String, All, All-append_inv,
}
use eventify.Common.Traverse.{traverse-none, traverse-some}
use eventify.Common.Exec.{ok, throw}
use eventify.Events.Batcher.{Stamped, Action, init, run, flush_batch}
use eventify.Events.Batcher.Laws.{entries, concat, tick_delivers}
use eventify.Events.Service.{OwnedEvent}
use eventify.Events.Storing.{
  with_payload, parsed, rethrown, parse_all, documents, store_batch, store_batches,
}
use eventify.EventsHttp.Repository.{
  Document, EventCollection, insert_batch, admits, with_default, as_stored,
}
use eventify.Http.Exception.{error}

-- A document without its id.
abbrev pub content : Document → OwnedEvent
content d = record { owner_id = d.owner_id; event = d.event }

-- An event as the schema stores it, and those of a list that the schema lets in.
abbrev pub defaulted : OwnedEvent → OwnedEvent
defaulted e = record e { event = with_default e.event }

abbrev pub admitted : (String → Bool) → List OwnedEvent → List OwnedEvent
admitted is_date es = map defaulted (keep (λ e. admits is_date e.event) es)

admitted-append :
    (is_date : String → Bool) (xs ys : List OwnedEvent)
    → admitted is_date (xs ++ ys) ≡ admitted is_date xs ++ admitted is_date ys
admitted-append is_date xs ys =
    ap (map defaulted) (keep-append (λ e. admits is_date e.event) xs ys) ∙ map-append defaulted _ _

content-documents :
    (is_date : String → Bool) (new_id : ℕ → String) (i : ℕ) (es : List OwnedEvent)
    → map content (map as_stored (keep (λ d. admits is_date d.event) (documents new_id i es)))
      ≡ admitted is_date es
unfolding documents
content-documents is_date new_id i [] = refl
content-documents is_date new_id i (e ∷ es) = elim (Bool-cases (admits is_date e.event)) [
  | inl h ↦ rw h (ap (◌∷◌ (defaulted e)) (content-documents is_date new_id (i + 1) es))
  | inr h ↦ rw h (content-documents is_date new_id (i + 1) es)
]

module _ (parse_json : String → Option String) (value : String → String) where
  -- The payload of an event parses to a value.
  abbrev pub HasValue : Stamped OwnedEvent → Type 0
  HasValue x = parse_json x.event.event.payload ≡ some (value x.event.event.payload)

  -- The event with the value of its payload.
  abbrev pub stored : Stamped OwnedEvent → OwnedEvent
  stored x = with_payload x.event (value x.event.event.payload)

  parsed_values :
      (xs : List (Stamped OwnedEvent))
      → All HasValue xs
      → All (λ x. parsed parse_json x.event ≡ some (stored x)) xs
  unfolding parsed
  parsed_values [] h = tt
  parsed_values (x ∷ xs) (v, h) = (rw (parsed, v) refl, parsed_values xs h)

module _ (parse_json : String → Option String) (c : EventCollection) where
  open c use {Docs, all, is_date, insert_many, insert_many_lem}

  -- One payload that is no JSON, and no event of its batch is stored: the job fails, whenever it is
  -- tried.
  pub store_batch_refused :
      (new_id : ℕ → String) (xs ys : List (Stamped OwnedEvent)) (bad : Stamped OwnedEvent)
      (s : Docs)
      → parse_json bad.event.event.payload ≡ none
      → store_batch parse_json c new_id (xs ++ bad ∷ ys) s ≡ (throw (error "SyntaxError"), s)
  unfolding store_batch parse_all
  store_batch_refused new_id xs ys bad s h =
      rw (traverse-none (λ x. parsed parse_json x.event) xs ys bad (rw (parsed, h) refl)) refl

  module _ (value : String → String)
      (works : (ds : List Document) (s : Docs) → (insert_many ds s).0 ≡ ok tt) where
    insert_batch_lem :
        (ds : List Document) (s : Docs) → insert_batch c ds s ≡ (ok tt, (insert_many ds s).1)
    unfolding insert_batch
    insert_batch_lem ds s = refl

    all-insert_many :
        (ds : List Document) (s : Docs)
        → all (insert_many ds s).1 ≡ all s ++ map as_stored (keep (λ d. admits is_date d.event) ds)
    all-insert_many ds s =
        insert_many_lem ds s (insert_many ds s).1 (ap (λ o. (o, (insert_many ds s).1)) (works ds s))

    store_batch_lem :
        (new_id : ℕ → String) (xs : List (Stamped OwnedEvent)) (s : Docs)
        → All (HasValue parse_json value) xs
        → map content (all (store_batch parse_json c new_id xs s).1)
          ≡ map content (all s) ++ admitted is_date (map (stored parse_json value) xs)
    unfolding store_batch insert_batch
    store_batch_lem new_id xs s h =
        rw
          (traverse-some (λ x. parsed parse_json x.event) (stored parse_json value) xs
            (parsed_values parse_json value xs h))
          (ap (λ d. map content (all (rethrown d).1)) (insert_batch_lem ds s)
            ∙ ap (map content) (all-insert_many ds s)
            ∙ map-append content (all s) (map as_stored (keep (λ d. admits is_date d.event) ds))
            ∙ ap (◌++◌ (map content (all s)))
                (content-documents is_date new_id 0 (map (stored parse_json value) xs)))
      where
        ds : List Document
        ds = documents new_id 0 (map (stored parse_json value) xs)

    pub store_batches_lem :
        (new_id : ℕ → ℕ → String) (i : ℕ) (jobs : List (List (Stamped OwnedEvent))) (s : Docs)
        → All (HasValue parse_json value) (concat jobs)
        → map content (all (store_batches parse_json c new_id i jobs s))
          ≡ map content (all s) ++ admitted is_date (map (stored parse_json value) (concat jobs))
    unfolding store_batches
    store_batches_lem new_id i [] s h = sym (append-nil _)
    store_batches_lem new_id i (job ∷ jobs) s h =
        let (first, rest) = All-append_inv (HasValue parse_json value) job (concat jobs) h in
        let f = stored parse_json value in
        store_batches_lem new_id (i + 1) jobs (store_batch parse_json c (new_id i) job s).1 rest
        ∙ ap (λ l. l ++ admitted is_date (map f (concat jobs)))
            (store_batch_lem (new_id i) job s first)
        ∙ append_assoc (map content (all s)) (admitted is_date (map f job))
            (admitted is_date (map f (concat jobs)))
        ∙ ap (◌++◌ (map content (all s))) (
            sym (
              ap (admitted is_date) (map-append f job (concat jobs))
              ∙ admitted-append is_date (map f job) (map f (concat jobs))))

    -- From the stream to the collection: if insertions succeed and every payload is JSON, then after a
    -- tick and the jobs of the queue, in order, the collection holds, behind what it held, every event
    -- that came in and that the schema admits, each once and in order.
    pub flush_batch-store_batches :
        (new_id : ℕ → ℕ → String) (h : List (Action OwnedEvent)) (s : Docs)
        → All (HasValue parse_json value) (entries h)
        → map content (all (store_batches parse_json c new_id 0 (flush_batch (run init h)).jobs s))
          ≡ map content (all s) ++ admitted is_date (map (stored parse_json value) (entries h))
    flush_batch-store_batches new_id h s readable =
        let jobs = (flush_batch (run init h)).jobs in
        store_batches_lem new_id 0 jobs s
          (subst (All (HasValue parse_json value)) (sym (tick_delivers h)) readable)
        ∙ ap (λ l. map content (all s) ++ admitted is_date (map (stored parse_json value) l))
            (tick_delivers h)
