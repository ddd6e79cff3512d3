-- ===== src/Stores/Collection.antt =====
-- A Mongoose model: a collection of documents with one unique index, seen as the list of its
-- documents in natural order. A filter of the source is a Boolean test on a document.
use eventify.Common.{
  ◌≡◌, refl, Bool, true, false, not, List, [], ◌∷◌, ◌++◌, Option, none, some, String, str_eq,
  if◌then◌else◌, keep, arith,
}

module _ {A : Type 0} where
  abbrev pub first : (A → Bool) → List A → Option A
  first p [] = none
  first p (a ∷ as') = if p a then some a else first p as'

  abbrev pub update_first : (A → Bool) → (A → A) → List A → List A
  update_first p f [] = []
  update_first p f (a ∷ as') = if p a then f a ∷ as' else a ∷ update_first p f as'

  abbrev pub delete_first : (A → Bool) → List A → List A
  delete_first p [] = []
  delete_first p (a ∷ as') = if p a then as' else a ∷ delete_first p as'

  pub first_holds : (p : A → Bool) (xs : List A) (a : A) → first p xs ≡ some a → p a ≡ true
  first_holds p [] a h = ground arith
  first_holds p (x ∷ xs) a h = ground (arith, first_holds p xs a)

  pub first-append :
      (p : A → Bool) (xs ys : List A) → first p xs ≡ none → first p (xs ++ ys) ≡ first p ys
  first-append p [] ys h = refl
  first-append p (x ∷ xs) ys h = ground (arith, first-append p xs ys)

  pub first-append_some :
      (p : A → Bool) (xs ys : List A) {a : A} → first p xs ≡ some a → first p (xs ++ ys) ≡ some a
  first-append_some p [] ys h = ground arith
  first-append_some p (x ∷ xs) ys {a} h = ground (arith, first-append_some p xs ys {a = a})

  -- An update that keeps the test's outcome is seen by the test.
  pub first-update_first :
      (p : A → Bool) (f : A → A) (xs : List A) {a : A}
      → first p xs ≡ some a
      → p (f a) ≡ true
      → first p (update_first p f xs) ≡ some (f a)
  first-update_first p f [] h k = ground arith
  first-update_first p f (x ∷ xs) {a} h k = ground (arith, first-update_first p f xs {a = a})

  -- An update of what another test picks is not seen, if it changes no outcome of this one.
  pub first-update_first_ne :
      (p q : A → Bool) (f : A → A) (xs : List A)
      → ((a : A) → q a ≡ true → p a ≡ false)
      → ((a : A) → p (f a) ≡ p a)
      → first p (update_first q f xs) ≡ first p xs
  first-update_first_ne p q f [] d h = refl
  first-update_first_ne p q f (x ∷ xs) d h =
      ground (arith, d x, h x, first-update_first_ne p q f xs)

pub record Collection (A : Type 0) (key : A → String) : Type 1 where
  pub Docs : Type 0
  pub all : Docs → List A
  pub find_one : (A → Bool) → Docs → Option A
  pub find : (A → Bool) → Docs → List A
  pub update_one : (A → Bool) → (A → A) → Docs → Docs
  pub delete_one : (A → Bool) → Docs → Docs
  pub delete_many : (A → Bool) → Docs → Docs
  pub save : A → Docs → Option Docs
  pub find_one_lem : (p : A → Bool) (d : Docs) → find_one p d ≡ first p (all d)
  pub find_lem : (p : A → Bool) (d : Docs) → find p d ≡ keep p (all d)
  pub all-update_one :
      (p : A → Bool) (f : A → A) (d : Docs) → all (update_one p f d) ≡ update_first p f (all d)
  pub all-delete_one : (p : A → Bool) (d : Docs) → all (delete_one p d) ≡ delete_first p (all d)
  pub all-delete_many :
      (p : A → Bool) (d : Docs) → all (delete_many p d) ≡ keep (λ a. not (p a)) (all d)
  -- The unique index refuses a document whose key is taken.
  pub save_taken :
      (a b : A) (d : Docs) → first (λ c. str_eq (key c) (key a)) (all d) ≡ some b → save a d ≡ none
  pub save_free :
      (a : A) (d : Docs)
      → first (λ c. str_eq (key c) (key a)) (all d) ≡ none
      → (d' : Docs) × (save a d ≡ some d') × (all d' ≡ all d ++ a ∷ [])
