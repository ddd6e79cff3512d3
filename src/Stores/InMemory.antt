-- ===== src/Stores/InMemory.antt =====
-- The interfaces can be met: a list for a collection, a dictionary of dictionaries for the hashes.
use eventify.Common.{
  ℕ, suc, ◌≡◌, refl, ap, ◌∙◌, false, not, ◌&&◌, List, [], ◌∷◌, ◌++◌, Option, none, some, String,
  str_eq, eq_iff, if◌then◌else◌, keep, arith,
}
use eventify.Common.Dict
use eventify.Common.Dict.{get-put, get-remove}
use eventify.Common.Number.{ℤ, pos, decimal, parse_digits}
use eventify.Common.Number.RoundTrip.{parse_digits-decimal}
use eventify.Stores.Collection.{Collection, first, update_first, delete_first}
use eventify.Stores.Hashes.{Hashes, over}

module _ {A : Type 0} (key : A → String) where
  abbrev pub save_in : A → List A → Option (List A)
  save_in a d = elim (first (λ c. str_eq (key c) (key a)) d) [
    | none ↦ some (d ++ a ∷ [])
    | some b ↦ none
  ]

  pub save_in_taken :
      (a b : A) (d : List A) → first (λ c. str_eq (key c) (key a)) d ≡ some b → save_in a d ≡ none
  save_in_taken a b d h = rw (h, save_in) refl

  pub save_in_free :
      (a : A) (d : List A)
      → first (λ c. str_eq (key c) (key a)) d ≡ none
      → (d' : List A) × (save_in a d ≡ some d') × (d' ≡ d ++ a ∷ [])
  save_in_free a d h = (d ++ a ∷ [], rw (h, save_in) refl, refl)

  abbrev pub list_collection : Collection A key
  list_collection = record {
    Docs = List A;
    all = λ d. d;
    find_one = first;
    find = keep;
    update_one = update_first;
    delete_one = delete_first;
    delete_many = λ p d. keep (λ a. not (p a)) d;
    save = save_in;
    find_one_lem = λ p d. refl;
    find_lem = λ p d. refl;
    all-update_one = λ p f d. refl;
    all-delete_one = λ p d. refl;
    all-delete_many = λ p d. refl;
    save_taken = save_in_taken;
    save_free = save_in_free;
  }

abbrev pub Table : Type 0
Table = List (String × List (String × String))

abbrev fields_of : Option (List (String × String)) → List (String × String)
fields_of none = []
fields_of (some fs) = fs

abbrev pub get_all : String → Table → List (String × String)
get_all k t = fields_of (Dict.get k t)

abbrev merge : List (String × String) → List (String × String) → List (String × String)
merge [] old = old
merge ((f, v) ∷ fields) old = Dict.put f v (merge fields old)

get-merge :
    (f : String) (fields old : List (String × String))
    → Dict.get f (merge fields old) ≡ over (Dict.get f fields) (Dict.get f old)
get-merge f [] old = refl
get-merge f ((g, v) ∷ fields) old =
    ground (arith, get-put g f v (merge fields old), get-merge f fields old)

abbrev pub set_fields : String → List (String × String) → Table → Table
set_fields k fields t = Dict.put k (merge fields (get_all k t)) t

get_all-put :
    (k j : String) (v : List (String × String)) (t : Table)
    → get_all j (Dict.put k v t) ≡ (if str_eq k j then v else get_all j t)
get_all-put k j v t = ground (arith, get-put k j v t)

pub get_all-remove :
    (k j : String) (t : Table)
    → get_all j (Dict.remove k t) ≡ (if str_eq k j then [] else get_all j t)
get_all-remove k j t = ground (arith, get-remove k j t)

pub get-set_fields :
    (k j f : String) (fields : List (String × String)) (t : Table)
    → Dict.get f (get_all j (set_fields k fields t)) ≡ (
        if str_eq k j
        then over (Dict.get f fields) (Dict.get f (get_all j t))
        else Dict.get f (get_all j t))
get-set_fields k j f fields t = ground (
  arith,
  eq_iff k j,
  get_all-put k j (merge fields (get_all k t)) t,
  get-merge f fields (get_all k t),
)

pub get_all-set_fields_ne :
    (k j : String) (fields : List (String × String)) (t : Table)
    → str_eq k j ≡ false
    → get_all j (set_fields k fields t) ≡ get_all j t
get_all-set_fields_ne k j fields t e =
    ground (arith, get_all-put k j (merge fields (get_all k t)) t)

abbrev bumped : Option ℕ → ℕ
bumped none = 0
bumped (some n) = suc n

abbrev pub next_value : Option String → ℕ
next_value none = 1
next_value (some v) = bumped (parse_digits v)

abbrev pub increment : String → String → Table → ℤ × Table
increment k f t =
    let n = next_value (Dict.get f (get_all k t)) in (pos n, set_fields k ((f, decimal n) ∷ []) t)

next_value_lem : (v : Option String) (n : ℕ) → v ≡ some (decimal n) → next_value v ≡ suc n
next_value_lem v n h = rw (h, parse_digits-decimal) refl

pub increment_value :
    (k f : String) (n : ℕ) (t : Table)
    → Dict.get f (get_all k t) ≡ some (decimal n)
    → (increment k f t).0 ≡ pos (suc n)
increment_value k f n t h = ap pos (next_value_lem _ n h)

get-increment_next :
    (k f j g : String) (t : Table)
    → Dict.get g (get_all j (increment k f t).1) ≡ (
        if str_eq k j && str_eq f g
        then some (decimal (next_value (Dict.get f (get_all k t))))
        else Dict.get g (get_all j t))
get-increment_next k f j g t =
    ground
      (arith, get-set_fields k j g ((f, decimal (next_value (Dict.get f (get_all k t)))) ∷ []) t)

pub get-increment :
    (k f j g : String) (n : ℕ) (t : Table)
    → Dict.get f (get_all k t) ≡ some (decimal n)
    → Dict.get g (get_all j (increment k f t).1)
      ≡ (if str_eq k j && str_eq f g then some (decimal (suc n)) else Dict.get g (get_all j t))
get-increment k f j g n t h = get-increment_next k f j g t ∙ rw (next_value_lem _ n h) refl

pub increment_fresh :
    (k f : String) (t : Table) → Dict.get f (get_all k t) ≡ none → (increment k f t).0 ≡ pos 1
increment_fresh k f t h = rw h refl

pub get-increment_fresh :
    (k f j g : String) (t : Table)
    → Dict.get f (get_all k t) ≡ none
    → Dict.get g (get_all j (increment k f t).1)
      ≡ (if str_eq k j && str_eq f g then some (decimal 1) else Dict.get g (get_all j t))
get-increment_fresh k f j g t h =
    get-increment_next k f j g t
    ∙ ap
        (λ v.
          if str_eq k j && str_eq f g
          then some (decimal (next_value v))
          else Dict.get g (get_all j t))
        h

pub get_all-increment_ne :
    (k f j : String) (t : Table) → str_eq k j ≡ false → get_all j (increment k f t).1 ≡ get_all j t
get_all-increment_ne k f j t e =
    get_all-set_fields_ne k j ((f, decimal (next_value (Dict.get f (get_all k t)))) ∷ []) t e

abbrev pub table_hashes : Hashes
table_hashes = record {
  Store = Table;
  hgetall = get_all;
  hset = set_fields;
  del = Dict.remove;
  hincrby = increment;
  get-hset = get-set_fields;
  hgetall-hset_ne = get_all-set_fields_ne;
  hgetall-del = get_all-remove;
  hincrby_value = increment_value;
  get-hincrby = get-increment;
  hincrby_fresh = increment_fresh;
  get-hincrby_fresh = get-increment_fresh;
  hgetall-hincrby_ne = get_all-increment_ne;
}
