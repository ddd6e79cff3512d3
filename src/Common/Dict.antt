-- ===== src/Common/Dict.antt =====
-- A JavaScript object or `Map` with text keys, as an association list in insertion order.
use Prim.Native.String.{String}
use mathlib.Core.Path.{◌≡◌, refl, sym, ap, ◌∙◌}
use mathlib.Core.Bool.{false}
use mathlib.Core.Logic.{inl, inr}
use mathlib.Core.Option.{Option, none, some}
use mathlib.Core.List.{List, [], ◌∷◌, map}
use native.Mathlib.Omega.{arith}
use text.Mathlib.Text.{◌==◌}
use text.Mathlib.TextEquality.{eq_iff}
use eventify.Common.Tests.{if◌then◌else◌, Bool-cases}

module _ {V : Type 0} where
  abbrev pub get : String → List (String × V) → Option V
  get k [] = none
  get k ((j, v) ∷ m) = if j == k then some v else get k m

  -- A key that is there keeps its place, and a new one goes to the end.
  abbrev pub put : String → V → List (String × V) → List (String × V)
  put k v [] = (k, v) ∷ []
  put k v ((j, w) ∷ m) = if j == k then (k, v) ∷ m else (j, w) ∷ put k v m

  abbrev pub remove : String → List (String × V) → List (String × V)
  remove k [] = []
  remove k ((j, v) ∷ m) = if j == k then remove k m else (j, v) ∷ remove k m

  abbrev pub keys : List (String × V) → List String
  keys m = map (λ e. e.0) m

  pub get-put :
      (k j : String) (v : V) (m : List (String × V))
      → get j (put k v m) ≡ (if k == j then some v else get j m)
  get-put k j v [] = refl
  get-put k j v ((i, w) ∷ m) = ground (arith, eq_iff k j, eq_iff i k, eq_iff i j, get-put k j v m)

  pub get-remove :
      (k j : String) (m : List (String × V))
      → get j (remove k m) ≡ (if k == j then none else get j m)
  get-remove k j [] = ground arith
  get-remove k j ((i, w) ∷ m) = ground (arith, eq_iff k j, eq_iff i k, eq_iff i j, get-remove k j m)

  -- Each key stands once.
  abbrev pub IsDistinct : List (String × V) → Type 0
  IsDistinct [] = Unit {0}
  IsDistinct ((k, v) ∷ m) = (get k m ≡ none) × IsDistinct m

  pub put-IsDistinct :
      (k : String) (v : V) (m : List (String × V)) → IsDistinct m → IsDistinct (put k v m)
  put-IsDistinct k v [] d = (refl, tt)
  put-IsDistinct k v ((j, w) ∷ m) (fresh, d) = elim (Bool-cases (j == k)) [
    | inl e ↦ rw e (ap (λ x. get x m) (sym ((eq_iff j k).0 e)) ∙ fresh, d)
    | inr e ↦ rw e (get-put k j v m ∙ rw (swapped e) fresh, put-IsDistinct k v m d)
  ]
    where
      swapped : (j == k) ≡ false → (k == j) ≡ false
      swapped e = ground (arith, eq_iff j k, eq_iff k j)
