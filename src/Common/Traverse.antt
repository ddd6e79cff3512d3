-- ===== src/Common/Traverse.antt =====
-- `map` with a function that may throw: the whole fails with the first that does.
use mathlib.Core.Path.{◌≡◌, refl}
use mathlib.Core.Option.{Option, none, some}
use mathlib.Core.List.{List, [], ◌∷◌, ◌++◌, map}
use eventify.Common.Lists.{All}

abbrev pub prepend : {A : Type 0} → Option A → Option (List A) → Option (List A)
prepend (some x) (some xs) = some (x ∷ xs)
prepend _ _ = none

prepend-none : {A : Type 0} (x : Option A) → prepend x none ≡ none
prepend-none none = refl
prepend-none (some x) = refl

prepend_nothing : {A : Type 0} (xs : Option (List A)) → prepend none xs ≡ none
prepend_nothing none = refl
prepend_nothing (some xs) = refl

module _ {A B : Type 0} (f : A → Option B) where
  unfoldable pub traverse : List A → Option (List B)
  traverse [] = some []
  traverse (x ∷ xs) = prepend (f x) (traverse xs)

  pub traverse-none : (xs ys : List A) (bad : A) → f bad ≡ none → traverse (xs ++ bad ∷ ys) ≡ none
  unfolding traverse
  traverse-none [] ys bad h = rw (traverse, h) (prepend_nothing (traverse ys))
  traverse-none (x ∷ xs) ys bad h = rw (traverse, traverse-none xs ys bad h) (prepend-none (f x))

  pub traverse-some :
      (g : A → B) (xs : List A) → All (λ x. f x ≡ some (g x)) xs → traverse xs ≡ some (map g xs)
  unfolding traverse
  traverse-some g [] h = refl
  traverse-some g (x ∷ xs) (v, h) = rw (traverse, v, traverse-some g xs h) refl
