-- ===== src/Metrics/Keys/Laws.antt =====
-- The values that the keys of the metrics can have.
use Prim.Native.Char.{Char}
use text.Mathlib.TextLemmas.{append_cancel_left, cons-append, append_assoc}
use mathlib.Core.Path.{subst}
use eventify.Common.{
  ℕ, ◌≡◌, ◌≢◌, ap, ◌∙◌, true, false, String, str_eq, eq_iff, Bool-cases, inl, inr, arith, ◌==◌,
}
use eventify.Common.Number.{decimal, is_digit}
use eventify.Common.Number.RoundTrip.{parse_digits-decimal, decimal-StartsDigit, StartsDigit}
use eventify.Metrics.Keys.{join, metric_key}

pub decimal_injective : (a b : ℕ) → decimal a ≡ decimal b → a ≡ b
decimal_injective a b e = ground (arith, parse_digits-decimal a, parse_digits-decimal b)

pub str_eq_of_ne : (a b : String) → a ≢ b → str_eq a b ≡ false
str_eq_of_ne a b h = elim (Bool-cases (str_eq a b)) [
  | inl e ↦ absurd (h ((eq_iff a b).0 e))
  | inr e ↦ e
]

pub str_eq_sym : (a b : String) → str_eq a b ≡ false → str_eq b a ≡ false
str_eq_sym a b h = ground (arith, eq_iff a b, eq_iff b a)

-- Two times under one family.
pub metric_key_eq :
    (family : String) (a b : ℕ)
    → str_eq (metric_key family (decimal a)) (metric_key family (decimal b)) ≡ (a == b)
unfolding metric_key
metric_key_eq family a b = elim (Bool-cases (a == b)) [
  | inl e ↦ rw e (
      (eq_iff _ _).1
        (ap (λ t. join "metrics:" (join family (join ":" (decimal t)))) (ground arith)))
  | inr e ↦ rw e (str_eq_of_ne _ _ (λ h. refute e (strip h)))
]
  where
    strip :
        join "metrics:" (join family (join ":" (decimal a)))
          ≡ join "metrics:" (join family (join ":" (decimal b)))
        → decimal a ≡ decimal b
    strip h =
        append_cancel_left ":" _ _
          (append_cancel_left family _ _ (append_cancel_left "metrics:" _ _ h))

    refute : (a == b) ≡ false → decimal a ≡ decimal b → ⊥
    refute e h = absurd (ground (arith, decimal_injective a b h))

-- The minute family and one that goes on with a letter after its name, as `volume:hour` does.
pub metric_key_longer :
    (family more : String) (c : Char) (m : ℕ) (t : String)
    → is_digit c ≡ false
    → str_eq
        (metric_key family (decimal m))
        (metric_key (join family (join ":" (String.◌∷◌ c more))) t)
      ≡ false
unfolding metric_key
metric_key_longer family more c m t letter = str_eq_of_ne _ _ (λ h. refute h)
  where
    rest : String
    rest = join more (join ":" t)

    regroup :
        join (join family (join ":" (String.◌∷◌ c more))) (join ":" t)
        ≡ join family (join ":" (String.◌∷◌ c rest))
    regroup =
        append_assoc family (join ":" (String.◌∷◌ c more)) (join ":" t)
        ∙ ap (join family) (
            append_assoc ":" (String.◌∷◌ c more) (join ":" t)
            ∙ ap (join ":") (cons-append c more (join ":" t)))

    refute :
        join "metrics:" (join family (join ":" (decimal m)))
          ≡ join "metrics:" (join (join family (join ":" (String.◌∷◌ c more))) (join ":" t))
        → ⊥
    refute h =
        let e : decimal m ≡ String.◌∷◌ c rest =
          append_cancel_left ":" _ _
            (append_cancel_left family _ _ (append_cancel_left "metrics:" _ _ h ∙ regroup)) in
        let d : is_digit c ≡ true = subst StartsDigit e (decimal-StartsDigit m) in
        absurd (ground arith)
