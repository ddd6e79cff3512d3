-- ===== src/ApiKey/Repository/Laws.antt =====
-- What a look-up by key finds after a change of the collection, where no two documents share a key.
use eventify.Common.{
  ◌≡◌, refl, Bool, false, List, [], ◌∷◌, ◌++◌, Option, none, some, String, str_eq, eq_iff, arith,
  Bool-cases, Option-cases, inl, inr, if◌then◌else◌,
}
use eventify.Stores.Collection.{first_holds, first, update_first, delete_first, first-append}
use eventify.ApiKey.Repository.{ApiKey, has_key, has_owner_and_key}

-- The documents have different keys, as the unique index demands.
abbrev pub Distinct : List ApiKey → Type 0
Distinct [] = Unit {0}
Distinct (k ∷ ks) = (first (has_key k.key) ks ≡ none) × Distinct ks

abbrev pub drop_if : (ApiKey → Bool) → Option ApiKey → Option ApiKey
drop_if p none = none
drop_if p (some k) = if p k then none else some k

abbrev pub change_if : (ApiKey → Bool) → (ApiKey → ApiKey) → Option ApiKey → Option ApiKey
change_if p f none = none
change_if p f (some k) = if p k then some (f k) else some k

-- A change of documents with one key is not seen under another.
module _ (owner key j : String) (ks : List ApiKey) (differ : str_eq key j ≡ false) where
  has_owner_and_key_ne :
      (k : ApiKey) → first (has_key j) ks ≡ some k → has_owner_and_key owner key k ≡ false
  has_owner_and_key_ne k h =
      ground (arith, first_holds (has_key j) ks k, eq_iff k.key key, eq_iff k.key j, eq_iff key j)

  drop_if_ne : drop_if (has_owner_and_key owner key) (first (has_key j) ks) ≡ first (has_key j) ks
  drop_if_ne = elim (Option-cases (first (has_key j) ks)) [
    | inl e ↦ rw e refl
    | inr (k, e) ↦ rw (e, drop_if, has_owner_and_key_ne k e) refl
  ]

change_if_ne :
    (owner key j : String) (f : ApiKey → ApiKey) (ks : List ApiKey)
    → str_eq key j ≡ false
    → change_if (has_owner_and_key owner key) f (first (has_key j) ks) ≡ first (has_key j) ks
change_if_ne owner key j f ks differ = elim (Option-cases (first (has_key j) ks)) [
  | inl e ↦ rw e refl
  | inr (k, e) ↦ rw (e, change_if, has_owner_and_key_ne owner key j ks differ k e) refl
]

pub first-delete_first :
    (owner key j : String) (ks : List ApiKey)
    → Distinct ks
    → first (has_key j) (delete_first (has_owner_and_key owner key) ks)
      ≡ drop_if (has_owner_and_key owner key) (first (has_key j) ks)
first-delete_first owner key j [] d = refl
first-delete_first owner key j (k ∷ ks) (fresh, d) = ground (
  arith,
  first-delete_first owner key j ks d,
  drop_if_ne owner key j ks,
  eq_iff k.owner_id owner,
  eq_iff k.key key,
  eq_iff k.key j,
  eq_iff key j,
)

pub first-update_key :
    (owner key j : String) (b : Bool) (ks : List ApiKey)
    → first
        (has_key j)
        (update_first (has_owner_and_key owner key) (λ k. record k { active = b }) ks)
      ≡ change_if
          (has_owner_and_key owner key)
          (λ k. record k { active = b })
          (first (has_key j) ks)
first-update_key owner key j b [] = refl
first-update_key owner key j b (k ∷ ks) = ground (
  arith,
  first-update_key owner key j b ks,
  change_if_ne owner key j (λ (a : ApiKey). record a { active = b }) ks,
  eq_iff k.owner_id owner,
  eq_iff k.key key,
  eq_iff k.key j,
  eq_iff key j,
)

pub Distinct-delete_first :
    (owner key : String) (ks : List ApiKey)
    → Distinct ks
    → Distinct (delete_first (has_owner_and_key owner key) ks)
Distinct-delete_first owner key [] d = tt
Distinct-delete_first owner key (k ∷ ks) (fresh, d) =
    ground (arith, Distinct-delete_first owner key ks d, first-delete_first owner key k.key ks d)

first-update_none :
    (p : ApiKey → Bool) (f : ApiKey → ApiKey) (j : String) (ks : List ApiKey)
    → ((k : ApiKey) → (f k).key ≡ k.key)
    → first (has_key j) ks ≡ none
    → first (has_key j) (update_first p f ks) ≡ none
first-update_none p f j [] same h = refl
first-update_none p f j (k ∷ ks) same h = ground (arith, first-update_none p f j ks same, same k)

pub Distinct-update_first :
    (p : ApiKey → Bool) (f : ApiKey → ApiKey) (ks : List ApiKey)
    → ((k : ApiKey) → (f k).key ≡ k.key)
    → Distinct ks
    → Distinct (update_first p f ks)
Distinct-update_first p f [] same d = tt
Distinct-update_first p f (k ∷ ks) same (fresh, d) = elim (Bool-cases (p k)) [
  | inl e ↦ rw e (rw (same k) fresh, d)
  | inr e ↦ rw e (first-update_none p f k.key ks same fresh, Distinct-update_first p f ks same d)
]

pub Distinct-append :
    (k : ApiKey) (ks : List ApiKey)
    → first (has_key k.key) ks ≡ none
    → Distinct ks
    → Distinct (ks ++ k ∷ [])
Distinct-append k [] h d = (refl, tt)
Distinct-append k (x ∷ ks) h (fresh, d) = ground (
  arith,
  first-append (has_key x.key) ks (k ∷ []),
  Distinct-append k ks,
  eq_iff k.key x.key,
  eq_iff x.key k.key,
)
