-- ===== src/Routes/Accounts.antt =====
-- What the route of the users tells.
use eventify.Common.{ℕ, ◌≡◌, refl, ap, true, List, [], ◌∷◌, ◌++◌, ◌∙◌, none, String, keep}
use eventify.Common.Exec.{ok}
use eventify.Stores.Collection.{Collection}
use eventify.Stores.Strings.{Strings}
use eventify.Iam.Authentication.{State, sing_up}
use eventify.Iam.Authentication.Signing.{user_of, registered, sing_up_new}
use eventify.Iam.Guards.{Request, can_activate, run_guards, auth_type_guard_map}
use eventify.Iam.Platform.{Platform}
use eventify.Iam.Users.{User, NewUser, user_key, foo}
use eventify.Routes.{get_all}

keep_all : {A : Type 0} (xs : List A) → keep (λ x. true) xs ≡ xs
keep_all [] = refl
keep_all (x ∷ xs) = ap (◌∷◌ x) (keep_all xs)

module _ (p : Platform) (c : Collection User user_key) (r : Strings) where
  open c use {all, find_lem}

  get_all_lem :
      (now : ℕ) (request : Request) (d : c.Docs) → get_all p c now request d ≡ (ok (all d), d)
  unfolding get_all foo can_activate run_guards auth_type_guard_map
  get_all_lem now request d = ap (λ us. (ok us, d)) (find_lem (λ u. true) d ∙ keep_all (all d))

  -- Once somebody has signed up with a free address, every request, with a token or without, is answered
  -- with the documents of all users, the new one with its hash last, against which a password can be
  -- tried.
  pub sing_up-get_all :
      (now later : ℕ) (id salt : String) (otp : ℕ) (dto : NewUser) (request : Request)
      (s : State c r)
      → user_of p c r dto.email s ≡ none
      → let after = (sing_up p c r now id salt otp dto s).1 in
        let u = registered p id salt dto in
        (get_all p c later request after.users ≡ (ok (all s.users ++ u ∷ []), after.users))
        × (p.compare dto.password u.password ≡ true)
  sing_up-get_all now later id salt otp dto request s free =
      let (d, grown, done) = sing_up_new p c r now id salt otp dto s free in
      (
        rw done (get_all_lem later request d ∙ ap (λ us. (ok us, d)) grown),
        p.compare-hash salt dto.password,
      )
