-- ===== src/Metrics/Merge/Laws.antt =====
-- What a merged object holds at each key.
use mathlib.Core.Path.{subst}
use eventify.Common.{
  ℕ, ◌+◌, ◌≡◌, refl, sym, ap, ◌∙◌, false, List, [], ◌∷◌, Option, none, some, String, str_eq, eq_iff,
  arith, Bool-cases, inl, inr, if◌then◌else◌,
}
use eventify.Common.Dict
use eventify.Common.Dict.{get-put, put-IsDistinct, IsDistinct}
use eventify.Common.Number.{pos, ◌+ℤ◌, decimal, parse_int, to_string}
use eventify.Common.Number.RoundTrip.{parse_int-to_string, decimal-StartsDigit, StartsDigit}
use eventify.Metrics.Merge.{
  is_inherited, or_inherited, property, assign, merged_value, merge_redis_data_in_place,
}

-- One key of the target and the source.
abbrev pub merged : Option String → Option String → Option String
merged old none = old
merged old (some value) = some (merged_value old value)

proto_ne : (k : String) → is_inherited k ≡ false → str_eq "__proto__" k ≡ false
unfolding is_inherited
proto_ne k h = elim (Bool-cases (str_eq "__proto__" k)) [
  | inl e ↦ absurd (ground (arith, ap is_inherited ((eq_iff "__proto__" k).0 e)))
  | inr e ↦ e
]

get-assign :
    (k j v : String) (target : List (String × String))
    → is_inherited k ≡ false
    → Dict.get k (assign j v target) ≡ (if str_eq j k then some v else Dict.get k target)
get-assign k j v target h = elim (Bool-cases (str_eq j "__proto__")) [
  | inl e ↦
      let other : str_eq j k ≡ false =
        ap (λ x. str_eq x k) ((eq_iff j "__proto__").0 e) ∙ proto_ne k h in
      rw (e, other) refl
  | inr e ↦ rw e (get-put j k v target)
]

property-own :
    (k : String) (target : List (String × String))
    → is_inherited k ≡ false
    → property k target ≡ Dict.get k target
property-own k target h = own (Dict.get k target)
  where
    own : (o : Option String) → or_inherited k o ≡ o
    own none = rw h refl
    own (some v) = refl

-- If the source has each key once, a key of the merged object that is not inherited holds what the
-- target and the source hold there, merged; a key that the source lacks is as it was.
pub get-merge_redis_data_in_place :
    (k : String) (target source : List (String × String))
    → is_inherited k ≡ false
    → IsDistinct source
    → Dict.get k (merge_redis_data_in_place target source)
      ≡ merged (Dict.get k target) (Dict.get k source)
unfolding merge_redis_data_in_place
get-merge_redis_data_in_place k target [] o d = refl
get-merge_redis_data_in_place k target ((j, v) ∷ source) o (fresh, d) =
    let next = assign j (merged_value (property j target) v) target in
    get-merge_redis_data_in_place k next source o d
    ∙ rw (get-assign k j (merged_value (property j target) v) target o)
        (elim (Bool-cases (str_eq j k)) [
          | inl e ↦ rw e (
              ap (merged (some (merged_value (property j target) v)))
                (ap (λ x. Dict.get x source) (sym ((eq_iff j k).0 e)) ∙ fresh)
              ∙ ap (λ x. some (merged_value (property x target) v)) ((eq_iff j k).0 e)
              ∙ ap (λ x. some (merged_value x v)) (property-own k target o))
          | inr e ↦ rw e refl
        ])

get-assign_ne :
    (k j v : String) (target : List (String × String))
    → str_eq j k ≡ false
    → Dict.get k (assign j v target) ≡ Dict.get k target
get-assign_ne k j v target h = elim (Bool-cases (str_eq j "__proto__")) [
  | inl e ↦ rw e refl
  | inr e ↦ rw e (get-put j k v target ∙ rw h refl)
]

-- A key that neither has is not in the merged object, inherited or not.
pub get-merge_none :
    (k : String) (target source : List (String × String))
    → Dict.get k target ≡ none
    → Dict.get k source ≡ none
    → Dict.get k (merge_redis_data_in_place target source) ≡ none
unfolding merge_redis_data_in_place
get-merge_none k target [] t s = t
get-merge_none k target ((j, v) ∷ source) t s = elim (Bool-cases (str_eq j k)) [
  | inl e ↦ absurd (ground arith)
  | inr e ↦
      get-merge_none k (assign j (merged_value (property j target) v) target) source
        (get-assign_ne k j (merged_value (property j target) v) target e ∙ t) (rw e at s)
]

pub merge-IsDistinct :
    (target source : List (String × String))
    → IsDistinct target
    → IsDistinct (merge_redis_data_in_place target source)
unfolding merge_redis_data_in_place
merge-IsDistinct target [] d = d
merge-IsDistinct target ((j, v) ∷ source) d =
    merge-IsDistinct (assign j (merged_value (property j target) v) target) source
      (elim (Bool-cases (str_eq j "__proto__")) [
        | inl e ↦ rw e d
        | inr e ↦ rw e (put-IsDistinct j (merged_value (property j target) v) target d)
      ])

pub not_empty : (s : String) → StartsDigit s → str_eq s "" ≡ false
not_empty s h = elim (Bool-cases (str_eq s "")) [
  | inl e ↦ absurd (subst StartsDigit ((eq_iff s "").0 e) h)
  | inr e ↦ e
]

pub +ℤ-pos : (a b : ℕ) → pos a +ℤ pos b ≡ pos (a + b)
+ℤ-pos a b = ground arith

pub parse_int-decimal : (n : ℕ) → parse_int (decimal n) ≡ some (pos n)
unfolding to_string
parse_int-decimal n = unfold to_string in parse_int-to_string (pos n)

-- Two counts add up.
pub merged_value-decimal : (a b : ℕ) → merged_value (some (decimal a)) (decimal b) ≡ decimal (a + b)
unfolding merged_value to_string
merged_value-decimal a b =
    rw
      (
        not_empty (decimal a) (decimal-StartsDigit a),
        parse_int-decimal a,
        parse_int-decimal b,
        +ℤ-pos a b,
      )
      refl
