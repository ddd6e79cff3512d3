-- ===== src/Metrics/Ranking/Laws.antt =====
-- What the ranked lists keep of the counts, and their order.
use eventify.Common.{
  ℕ, zero, suc, ◌≡◌, ◌≤◌, refl, Bool, true, false, List, [], ◌∷◌, map, take, keep, length,
  length-take, String, arith, Bool-cases, inl, inr, ◌∙◌, none, some,
}
use eventify.Common.Number.{Number, gt_number, pos, negsuc}
use eventify.Metrics.Ranking.{
  Ranked, ranked, insert_by, sort_by, count_of_ranked, Distribution, distributed, value_of,
  process_event_distribution, is_event, process_top_events, process_device_data,
}

gt_number-asym : (a b : Number) → gt_number a b ≡ true → gt_number b a ≡ false
gt_number-asym none none h = refl
gt_number-asym none (some b) h = refl
gt_number-asym (some a) none h = refl
gt_number-asym (some (pos m)) (some (pos n)) h = ground arith
gt_number-asym (some (pos m)) (some (negsuc n)) h = ground arith
gt_number-asym (some (negsuc m)) (some (pos n)) h = ground arith
gt_number-asym (some (negsuc m)) (some (negsuc n)) h = ground arith

-- How many entries pass a test.
abbrev pub number_of : {A : Type 0} → (A → Bool) → List A → ℕ
number_of p xs = length (keep p xs)

module _ {A : Type 0} (value : A → Number) where
  -- No entry is below the next one.
  abbrev pub IsDescending : List A → Type 0
  IsDescending [] = Unit {0}
  IsDescending (x ∷ []) = Unit {0}
  IsDescending (x ∷ y ∷ ys) = (gt_number (value y) (value x) ≡ false) × IsDescending (y ∷ ys)

  insert_by-IsDescending :
      (x : A) (ys : List A) → IsDescending ys → IsDescending (insert_by value x ys)
  unfolding insert_by
  insert_by-IsDescending x [] d = tt
  insert_by-IsDescending x (y ∷ []) d = elim (Bool-cases (gt_number (value y) (value x))) [
    | inl e ↦ rw e (gt_number-asym (value y) (value x) e, tt)
    | inr e ↦ rw e (e, tt)
  ]
  insert_by-IsDescending x (y ∷ z ∷ zs) (e, d) = elim (Bool-cases (gt_number (value y) (value x))) [
    | inl h ↦ elim (Bool-cases (gt_number (value z) (value x))) [
      | inl f ↦ rw (h, f) (e, rw f at (insert_by-IsDescending x (z ∷ zs) d))
      | inr f ↦ rw (h, f) (gt_number-asym (value y) (value x) h, (f, d))
    ]
    | inr h ↦ rw h (h, (e, d))
  ]

  pub sort_by-IsDescending : (xs : List A) → IsDescending (sort_by value xs)
  unfolding sort_by
  sort_by-IsDescending [] = tt
  sort_by-IsDescending (x ∷ xs) =
      insert_by-IsDescending x (sort_by value xs) (sort_by-IsDescending xs)

  take-IsDescending : (n : ℕ) (xs : List A) → IsDescending xs → IsDescending (take n xs)
  take-IsDescending zero xs d = tt
  take-IsDescending (suc n) [] d = tt
  take-IsDescending (suc n) (x ∷ []) d = single n
    where
      single : (n : ℕ) → IsDescending (x ∷ take n [])
      single zero = tt
      single (suc n) = tt
  take-IsDescending (suc zero) (x ∷ y ∷ ys) (e, d) = tt
  take-IsDescending (suc (suc n)) (x ∷ y ∷ ys) (e, d) = (e, take-IsDescending (suc n) (y ∷ ys) d)

  number_of-insert_by :
      (p : A → Bool) (x : A) (ys : List A)
      → number_of p (insert_by value x ys) ≡ number_of p (x ∷ ys)
  unfolding insert_by
  number_of-insert_by p x [] = refl
  number_of-insert_by p x (y ∷ ys) = ground (arith, number_of-insert_by p x ys)

  pub number_of-sort_by :
      (p : A → Bool) (xs : List A) → number_of p (sort_by value xs) ≡ number_of p xs
  unfolding sort_by
  number_of-sort_by p [] = refl
  number_of-sort_by p (x ∷ xs) =
      number_of-insert_by p x (sort_by value xs) ∙ ground (arith, number_of-sort_by p xs)

-- The devices of the dashboard stand in descending order of their counts, and each is there as often
-- as it was: any test is passed by as many of them as before the sort.
pub process_device_data-IsDescending :
    (devices : List (String × String))
    → IsDescending count_of_ranked (process_device_data devices)
      × ((p : Ranked → Bool)
          → number_of p (process_device_data devices) ≡ number_of p (map ranked devices))
unfolding process_device_data
process_device_data-IsDescending devices = (
  sort_by-IsDescending count_of_ranked (map ranked devices),
  λ p. number_of-sort_by count_of_ranked p (map ranked devices),
)

-- The top events stand in descending order of their counts, and they are at most ten.
pub process_top_events-IsDescending :
    (event_types : List (String × String))
    → IsDescending count_of_ranked (process_top_events event_types)
      × (length (process_top_events event_types) ≤ 10)
unfolding process_top_events
process_top_events-IsDescending event_types =
    let sorted = sort_by count_of_ranked (map ranked (keep is_event event_types)) in
    (
      take-IsDescending count_of_ranked 10 sorted
          (sort_by-IsDescending count_of_ranked (map ranked (keep is_event event_types))),
      omega (arith, length-take 10 sorted),
    )

-- The event types stand in descending order of their counts, each as often as it was, with its share
-- of the total.
pub process_event_distribution-IsDescending :
    (event_types : List (String × String)) (total : Number)
    → IsDescending value_of (process_event_distribution event_types total)
      × ((p : Distribution → Bool)
          → number_of p (process_event_distribution event_types total)
            ≡ number_of p (map (distributed total) (keep is_event event_types)))
unfolding process_event_distribution
process_event_distribution-IsDescending event_types total =
    let entries = map (distributed total) (keep is_event event_types) in
    (sort_by-IsDescending value_of entries, λ p. number_of-sort_by value_of p entries)
