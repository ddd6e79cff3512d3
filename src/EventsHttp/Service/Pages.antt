-- ===== src/EventsHttp/Service/Pages.antt =====
-- The pages of a search, put together.
use mathlib.Core.List.{Permᴰ}
use native.Mathlib.Nat.{lt-div-mul-add}
use eventify.Common.{
  ℕ, zero, suc, ◌+◌, ◌-◌, ◌*◌, ◌≤◌, ◌<◌, ◌≡◌, refl, ap, ◌∙◌, sym, false, List, [], ◌∷◌, ◌++◌,
  length, keep, take, drop, Option, none, some, String, arith,
}
use eventify.Common.Exec.{Outcome, ok, throw}
use eventify.Http.Exception.{Exception}
use eventify.EventsHttp.Repository
use eventify.EventsHttp.Repository.{Document, Filter, SortOrder, NoTies, EventCollection}
use eventify.EventsHttp.Service.{
  GetEventsDto, Page, get_events, total_pages, or_number, filter_of, sort_field, sort_order,
  date_of, is_reversed,
}

zero_mul : (n : ℕ) → 0 ≡ 0 * n
zero_mul n = omega arith

suc_mul : (n m : ℕ) → n * m + m ≡ suc n * m
suc_mul n m = ground arith

suc_add : (n m : ℕ) → suc (n + m) ≡ suc n + m
suc_add n m = omega arith

module _ {A : Type 0} where
  abbrev nothing : List A
  nothing = []

  take_none : (n : ℕ) → take n nothing ≡ nothing
  take_none zero = refl
  take_none (suc n) = refl

  take-take-drop : (n m : ℕ) (xs : List A) → take n xs ++ take m (drop n xs) ≡ take (n + m) xs
  take-take-drop zero m xs = ap (λ k. take k xs) (omega arith)
  take-take-drop (suc n) m [] = take_none m ∙ sym (take_none (suc n + m))
  take-take-drop (suc n) m (x ∷ xs) =
      ap (◌∷◌ x) (take-take-drop n m xs) ∙ ap (λ k. take k (x ∷ xs)) (suc_add n m)

  take_all : (n : ℕ) (xs : List A) → length xs ≤ n → take n xs ≡ xs
  take_all zero [] h = refl
  take_all zero (x ∷ xs) h = absurd (omega arith)
  take_all (suc n) [] h = refl
  take_all (suc n) (x ∷ xs) h = ap (◌∷◌ x) (take_all n xs (omega arith))

  -- The first `n` slices of a list, `size` elements each.
  abbrev pub slices : ℕ → ℕ → List A → List A
  slices size zero xs = []
  slices size (suc n) xs = slices size n xs ++ take size (drop (n * size) xs)

  slices-take : (size n : ℕ) (xs : List A) → slices size n xs ≡ take (n * size) xs
  slices-take size zero xs = ap (λ k. take k xs) (zero_mul size)
  slices-take size (suc n) xs =
      rw (slices-take size n xs)
        (take-take-drop (n * size) size xs ∙ ap (λ k. take k xs) (suc_mul n size))

enough : (n size : ℕ) → 0 < size → n ≤ total_pages n size * size
unfolding total_pages
enough zero size h = omega arith
enough (suc n) size h = omega (arith, lt-div-mul-add {a = suc n + (size - 1)} {b = size} h)

predecessor : (n : ℕ) → suc n - 1 ≡ n
predecessor n = omega arith

limit_positive : (o : Option ℕ) → 0 < or_number o 50
limit_positive none = omega arith
limit_positive (some zero) = omega arith
limit_positive (some (suc n)) = omega arith

-- The documents of an answer.
abbrev pub events_of : Outcome Exception Page → List Document
events_of (ok page) = page.events
events_of (throw e) = []

abbrev total_in : Outcome Exception Page → ℕ
total_in (ok page) = page.total
total_in (throw e) = 0

abbrev pages_in : Outcome Exception Page → ℕ
pages_in (ok page) = page.total_pages
pages_in (throw e) = 0

length-perm {ℓ} : {A : Type ℓ} {xs ys : List A} → Permᴰ xs ys → length xs ≡ length ys
length-perm Permᴰ.nil = refl
length-perm (Permᴰ.cons e p) = ap suc (length-perm p)
length-perm (Permᴰ.swap e f) = refl
length-perm (Permᴰ.trans p q) = length-perm p ∙ length-perm q

abbrev pub at_page : GetEventsDto → ℕ → GetEventsDto
at_page query n = record {
  page = some n;
  limit = query.limit;
  event_name = query.event_name;
  category = query.category;
  severity = query.severity;
  from_date = query.from_date;
  to_date = query.to_date;
  tags = query.tags;
  sort_by = query.sort_by;
  sort_order = query.sort_order;
}

module _ (new_date : String → ℕ) (c : EventCollection) (owner : String) (query : GetEventsDto) where
  open c use {Docs, find, find_lem, sort_value, all, matches, count_documents, count_documents_lem}

  -- The events of the pages 1 to n, one after the other.
  abbrev pub collected : ℕ → Docs → List Document
  collected zero s = []
  collected (suc n) s =
      collected n s ++ events_of (get_events new_date c owner (at_page query (suc n)) s).0

  abbrev pub matching : Docs → List Document
  matching s = keep (matches (filter_of new_date c owner query)) (all s)

  module _ (s : Docs) (sorted : List Document)
      (ordered : is_reversed (date_of new_date c query.from_date) (date_of new_date c query.to_date)
        ≡ false)
      (consistent : (skip limit : ℕ)
        → 0 < limit
        → find
            (filter_of new_date c owner query)
            (sort_field new_date c query)
            (sort_order new_date c query)
            skip
            limit
            s
          ≡ take limit (drop skip sorted)) where
    page_events :
        (n : ℕ)
        → events_of (get_events new_date c owner (at_page query (suc n)) s).0
          ≡ take (or_number query.limit 50) (drop (n * or_number query.limit 50) sorted)
    unfolding get_events Repository.get_events_with_filter
    page_events n = rw ordered (
        ap
          (λ k.
            find (filter_of new_date c owner query) (sort_field new_date c query)
              (sort_order new_date c query) (k * or_number query.limit 50)
              (or_number query.limit 50) s)
          (predecessor n)
        ∙ consistent (n * or_number query.limit 50) (or_number query.limit 50)
            (limit_positive query.limit))

    collected-slices : (n : ℕ) → collected n s ≡ slices (or_number query.limit 50) n sorted
    collected-slices zero = refl
    collected-slices (suc n) = rw (collected-slices n, page_events n) refl

    collected_sorted :
        (total : ℕ)
        → length sorted ≡ total
        → collected (total_pages total (or_number query.limit 50)) s ≡ sorted
    collected_sorted total complete =
        collected-slices (total_pages total (or_number query.limit 50))
        ∙ (slices-take (or_number query.limit 50) (total_pages total (or_number query.limit 50))
              sorted
            ∙ take_all (total_pages total (or_number query.limit 50) * or_number query.limit 50)
                sorted
                (rw complete
                  (enough total (or_number query.limit 50) (limit_positive query.limit))))

  module _ (s : Docs)
      (ordered : is_reversed (date_of new_date c query.from_date) (date_of new_date c query.to_date)
        ≡ false) where
    -- The answer for a page tells how many documents match, and how many pages that makes.
    first_page :
        (page : Page)
        → (get_events new_date c owner (at_page query 1) s).0 ≡ ok page
        → (page.total ≡ length (matching s))
          × (page.total_pages ≡ total_pages (length (matching s)) (or_number query.limit 50))
    unfolding get_events Repository.get_events_with_filter
    first_page page h = (
      sym (ap total_in h) ∙ rw ordered (count_documents_lem (filter_of new_date c owner query) s),
      sym (ap pages_in h)
          ∙ rw ordered (
              ap (λ n. total_pages n (or_number query.limit 50))
                (count_documents_lem (filter_of new_date c owner query) s)),
    )

    -- With a date range that is not reversed, and if no two of the matching events have the same value
    -- to sort by: the answers for the pages from 1 to the `totalPages` of the first answer, one after
    -- the other, are all matching events, none twice and none left out, and its `total` is how many
    -- they are.
    pub collected_all :
        NoTies (sort_value (sort_field new_date c query)) (matching s)
        → (first : Page) → (get_events new_date c owner (at_page query 1) s).0 ≡ ok first
        → (sorted : List Document) × Permᴰ sorted (matching s)
          × (collected first.total_pages s ≡ sorted)
          × (first.total ≡ length sorted)
    collected_all distinct first h =
        let (sorted, same, consistent) =
          find_lem (filter_of new_date c owner query) (sort_field new_date c query)
            (sort_order new_date c query) s distinct in
        let (total, pages) = first_page first h in
        let size : length sorted ≡ length (matching s) = length-perm same in
        (
          sorted,
          same,
          rw pages (collected_sorted s sorted ordered consistent (length (matching s)) size),
          total ∙ sym size,
        )
