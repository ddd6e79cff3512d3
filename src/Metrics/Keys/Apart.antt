-- ===== src/Metrics/Keys/Apart.antt =====
-- Keys of families whose names differ in a letter.
use Prim.Native.Char.{code}
use text.Mathlib.TextLemmas.{
  append_cancel_left, cons-append, head-eq_of_cons-eq, tail-eq_of_cons-eq,
}
use eventify.Common.{
  ◌≡◌, ◌≢◌, sym, ap, ◌∙◌, Bool, true, false, String, str_eq, if◌then◌else◌, Bool-cases, inl, inr,
  arith, ◌==◌, ==_iff,
}
use eventify.Metrics.Keys.{join, metric_key}
use eventify.Metrics.Keys.Laws.{str_eq_of_ne}

-- The names differ in a letter that both have.
abbrev pub differ : String → String → Bool
differ String.[] t = false
differ (String.◌∷◌ c s) String.[] = false
differ (String.◌∷◌ c s) (String.◌∷◌ d t) = if code c == code d then differ s t else true

join-differ : (s t x y : String) → differ s t ≡ true → join s x ≢ join t y
join-differ String.[] t x y h e = absurd (ground arith)
join-differ (String.◌∷◌ c s) String.[] x y h e = absurd (ground arith)
join-differ (String.◌∷◌ c s) (String.◌∷◌ d t) x y h e = elim (Bool-cases (code c == code d)) [
  | inl same ↦ join-differ s t x y (ground arith) (tail-eq_of_cons-eq conses)
  | inr other ↦
      absurd (ground (arith, ==_iff (code c) (code d), ap code (head-eq_of_cons-eq conses)))
]
  where
    conses : String.◌∷◌ c (join s x) ≡ String.◌∷◌ d (join t y)
    conses = sym (cons-append c s x) ∙ e ∙ cons-append d t y

pub metric_key-differ :
    (f g s t : String) → differ f g ≡ true → str_eq (metric_key f s) (metric_key g t) ≡ false
unfolding metric_key
metric_key-differ f g s t h =
    str_eq_of_ne _ _ (λ e. join-differ f g _ _ h (append_cancel_left "metrics:" _ _ e))

pub last_activity-differ :
    (g t : String)
    → differ g "last_activity" ≡ true
    → str_eq "metrics:last_activity" (metric_key g t) ≡ false
unfolding metric_key
last_activity-differ g t h = str_eq_of_ne _ _ (λ e.
    join-differ g "last_activity" _ "" h (sym (append_cancel_left "metrics:" "last_activity" _ e)))
