-- ===== src/Metrics/Window/Sums.antt =====
-- Sums over the table of conversions: its three counts, and how many events they are.
use mathlib.Core.Path.{subst}
use eventify.Common.{
  ℕ, suc, ◌+◌, ◌≡◌, refl, sym, ap, ◌∙◌, false, ◌&&◌, List, [], ◌∷◌, map, some, String, str_eq,
  eq_iff, if◌then◌else◌, leb, arith, Bool-cases, inl, inr,
}
use eventify.Common.Dict
use eventify.Common.Dict.{IsDistinct}
use eventify.Common.Number.{pos, add_number}
use eventify.Metrics.Commands.{is_conversion}
use eventify.Metrics.Merge.Laws.{+ℤ-pos}
use eventify.Metrics.Tables.Families.{conversion_of}
use eventify.Metrics.Tables.History.{happened}
use eventify.Metrics.Volume.{Processed, minute_of}
use eventify.Metrics.Volume.History.{Counts}
use eventify.Metrics.Window.{count_of, sum_numbers}
use eventify.Metrics.Window.Reading.{count_of-Counts}

-- A count of the three conversions.
abbrev pub three : (String → ℕ) → ℕ
three f = f "purchase" + f "signup" + f "subscribe"

abbrev pub without : String → (String → ℕ) → String → ℕ
without k f j = if str_eq k j then 0 else f j

pub not_conversion :
    (k : String)
    → str_eq k "purchase" ≡ false
    → str_eq k "signup" ≡ false
    → str_eq k "subscribe" ≡ false
    → is_conversion k ≡ false
unfolding is_conversion
not_conversion k a b c = rw (a, b, c) refl

-- A statement about a text holds if it does for the three conversions and for all others.
pub by_name :
    (P : String → Type 0)
    → P "purchase"
    → P "signup"
    → P "subscribe"
    → ((k : String)
        → str_eq k "purchase" ≡ false
        → str_eq k "signup" ≡ false
        → str_eq k "subscribe" ≡ false
        → P k)
    → (k : String) → P k
by_name P a b c other k = elim (Bool-cases (str_eq k "purchase")) [
  | inl e ↦ subst P (sym ((eq_iff k "purchase").0 e)) a
  | inr x ↦ elim (Bool-cases (str_eq k "signup")) [
    | inl e ↦ subst P (sym ((eq_iff k "signup").0 e)) b
    | inr y ↦ elim (Bool-cases (str_eq k "subscribe")) [
      | inl e ↦ subst P (sym ((eq_iff k "subscribe").0 e)) c
      | inr z ↦ other k x y z
    ]
  ]
]

three-without :
    (f : String → ℕ)
    → ((k : String) → is_conversion k ≡ false → f k ≡ 0)
    → (k : String) → f k + three (without k f) ≡ three f
three-without f none_else =
    by_name (λ k. f k + three (without k f) ≡ three f) (omega arith) (omega arith) (omega arith)
      (λ k a b c. rw (a, b, c) (omega (arith, none_else k (not_conversion k a b c))))

pub sum_numbers-three :
    (d : List (String × String)) (f : String → ℕ)
    → IsDistinct d
    → ((k : String) → Counts (Dict.get k d) (f k))
    → ((k : String) → is_conversion k ≡ false → f k ≡ 0)
    → sum_numbers (map (λ e. count_of (some e.1)) d) ≡ some (pos (three f))
unfolding sum_numbers
sum_numbers-three [] f d h none_else =
    ap (λ n. some (pos n)) {x = 0} {y = three f}
      (omega (arith, h "purchase", h "signup", h "subscribe"))
sum_numbers-three ((k, v) ∷ d) f (fresh, distinct) h none_else =
    ap (λ n. add_number n (sum_numbers (map (λ e. count_of (some e.1)) d)))
      (count_of-Counts (some v) (f k) (subst (λ o. Counts o (f k)) own (h k)))
    ∙ ap (add_number (some (pos (f k)))) (sum_numbers-three d (without k f) distinct rest other)
    ∙ ap some (+ℤ-pos (f k) (three (without k f)))
    ∙ ap (λ n. some (pos n)) (three-without f none_else k)
  where
    own : Dict.get k ((k, v) ∷ d) ≡ some v
    own = rw ((eq_iff k k).1 refl) refl

    rest : (j : String) → Counts (Dict.get j d) (without k f j)
    rest j = elim (Bool-cases (str_eq k j)) [
      | inl e ↦ rw (e, sym (ap (λ x. Dict.get x d) ((eq_iff k j).0 e)), fresh) refl
      | inr e ↦ rw e (subst (λ o. Counts o (f j)) (skip j e) (h j))
    ]
      where
        skip : (j : String) → str_eq k j ≡ false → Dict.get j ((k, v) ∷ d) ≡ Dict.get j d
        skip j e = rw e refl

    other : (j : String) → is_conversion j ≡ false → without k f j ≡ 0
    other j c = elim (Bool-cases (str_eq k j)) [ inl e ↦ rw e refl | inr e ↦ rw e (none_else j c) ]

-- How many events from one minute to another, both included, are conversions.
abbrev pub converted : ℕ → ℕ → List Processed → ℕ
converted first last [] = 0
converted first last (e ∷ es) =
    let rest = converted first last es in
    if leb first (minute_of e.now) && leb (minute_of e.now) last && is_conversion e.event.event_name
    then suc rest
    else rest

bit : String → String → ℕ
bit name k = if str_eq name k then 1 else 0

three-bit : (name : String) → three (bit name) ≡ (if is_conversion name then 1 else 0)
unfolding bit is_conversion
three-bit =
    by_name (λ name. three (bit name) ≡ (if is_conversion name then 1 else 0)) refl refl refl
      (λ k a b c. rw (a, b, c) refl)

module _ (first last : ℕ) where
  pub three-happened :
      (es : List Processed)
      → three (λ k. happened conversion_of k first last es) ≡ converted first last es
  unfolding bit
  three-happened [] = refl
  three-happened (e ∷ es) =
      elim (Bool-cases (leb first (minute_of e.now) && leb (minute_of e.now) last)) [
        | inl here ↦ elim (Bool-cases (is_conversion e.event.event_name)) [
          | inl c ↦ rw (here, c) (ground (arith, three-bit e.event.event_name, three-happened es))
          | inr c ↦ rw (here, c) (three-happened es)
        ]
        | inr elsewhere ↦ rw elsewhere (three-happened es)
      ]

  pub happened_other :
      (k : String) (es : List Processed)
      → is_conversion k ≡ false
      → happened conversion_of k first last es ≡ 0
  happened_other k [] c = refl
  happened_other k (e ∷ es) c = elim (Bool-cases (is_conversion e.event.event_name)) [
    | inl d ↦ elim (Bool-cases (str_eq e.event.event_name k)) [
      | inl same ↦ absurd (ground (arith, ap is_conversion ((eq_iff e.event.event_name k).0 same)))
      | inr other ↦ rw (d, other) (ground (arith, happened_other k es c))
    ]
    | inr d ↦ rw d (ground (arith, happened_other k es c))
  ]
