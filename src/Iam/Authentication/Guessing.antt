-- ===== src/Iam/Authentication/Guessing.antt =====
-- Verification codes that are tried one after the other: no attempt is counted.
use text.Mathlib.TextPositions.{eq_refl}
use eventify.Common.{
  ℕ, suc, zero, ◌+◌, ◌*◌, ◌≤◌, ◌<◌, ◌≡◌, refl, sym, ap, ◌==◌, ==_iff, ◌∙◌, Bool, true, false, List,
  [], ◌∷◌, none, some, String, str_eq, eq_iff, arith, Bool-cases, inl, inr, All, lt→ltb, ◌||◌,
}
use eventify.Common.Number.{decimal}
use eventify.Stores.Collection.{Collection}
use eventify.Stores.Strings.{Strings}
use eventify.Iam.Platform.{Platform}
use eventify.Iam.Users.{User, NewUser, user_key}
use eventify.Iam.RedisService
use eventify.Iam.RedisService.Laws.{get_otp-set_otp}
use eventify.Iam.Authentication.{State, sing_up, verify_email}
use eventify.Iam.Authentication.Otp.{verify_email_wrong}
use eventify.Iam.Authentication.Signing.{
  user_of, registered, verified, signed_up, sing_up_new, user_of-signed_up, found_by_email,
  verify_email_right, after_verifying, user_of-after_verifying,
}

-- The codes from one number on, each at its time.
unfoldable pub guesses : (ℕ → ℕ) → ℕ → ℕ → List (ℕ × String)
guesses time from zero = []
guesses time from (suc n) = (time from, decimal from) ∷ guesses time (from + 1) n

abbrev has_code : String → List (ℕ × String) → Bool
has_code code [] = false
has_code code ((t, guess) ∷ rest) = str_eq guess code || has_code code rest

or-true : (b : Bool) → (b || true) ≡ true
or-true true = refl
or-true false = refl

has_code-guesses :
    (time : ℕ → ℕ) (from n otp : ℕ)
    → from ≤ otp
    → otp < from + n
    → has_code (decimal otp) (guesses time from n) ≡ true
unfolding guesses
has_code-guesses time from zero otp h k = absurd (omega arith)
has_code-guesses time from (suc n) otp h k = elim (Bool-cases (from == otp)) [
  | inl e ↦ rw ((==_iff from otp).0 e, eq_refl (decimal otp)) refl
  | inr e ↦
      ap (λ b. str_eq (decimal from) (decimal otp) || b)
        (has_code-guesses time (from + 1) n otp (ground arith) (omega arith))
      ∙ or-true (str_eq (decimal from) (decimal otp))
]

module _ (p : Platform) (c : Collection User user_key) (r : Strings) where
  unfoldable pub verify_all : String → List (ℕ × String) → State c r → State c r
  verify_all email [] s = s
  verify_all email ((now, guess) ∷ rest) s =
      verify_all email rest (verify_email p c r now email guess s).1

  verify_email_again :
      (now : ℕ) (email otp : String) (s : State c r) (u : User)
      → user_of p c r email s ≡ some u
      → u.is_email_verified ≡ true
      → (verify_email p c r now email otp s).1 ≡ s
  unfolding verify_email
  verify_email_again now email otp s u found done = ground (arith, found_by_email p c r email s)

  verify_all_again :
      (email : String) (gs : List (ℕ × String)) (s : State c r) (u : User)
      → user_of p c r email s ≡ some u
      → u.is_email_verified ≡ true
      → user_of p c r email (verify_all email gs s) ≡ some u
  unfolding verify_all
  verify_all_again email [] s u found done = found
  verify_all_again email ((now, guess) ∷ gs) s u found done =
      ap (λ t. user_of p c r email (verify_all email gs t))
        (verify_email_again now email guess s u found done)
      ∙ verify_all_again email gs s u found done

  different : {a b : String} → str_eq a b ≡ false → a ≡ b → ⊥
  different {a} {b} other e = absurd (ground (arith, (eq_iff a b).1 e))

  verify_all-has_code :
      (email code : String) (gs : List (ℕ × String)) (s : State c r) (u : User)
      → user_of p c r email s ≡ some u
      → u.is_email_verified ≡ false
      → All (λ g. RedisService.get_otp r g.0 u.email s.redis ≡ some (p.sha256 code)) gs
      → has_code code gs ≡ true
      → user_of p c r email (verify_all email gs s) ≡ some (verified p c r u)
  unfolding verify_all
  verify_all-has_code email code [] s u found fresh live h = absurd (ground arith)
  verify_all-has_code email code ((now, guess) ∷ gs) s u found fresh (stored, live) h =
      elim (Bool-cases (str_eq (p.sha256 guess) (p.sha256 code))) [
        | inl same ↦
            let right = stored ∙ ap some (sym ((eq_iff _ _).0 same)) in
            ap (λ x. user_of p c r email (verify_all email gs x.1))
              (verify_email_right p c r now email guess s u found fresh right)
            ∙ verify_all_again email gs (after_verifying p c r u email s) (verified p c r u)
                (user_of-after_verifying p c r now email guess s u found) refl
        | inr other ↦
            ap (λ x. user_of p c r email (verify_all email gs x.1))
              (verify_email_wrong p c r now email guess s u found fresh (p.sha256 code) stored
                other)
            ∙ verify_all-has_code email code gs s u found fresh live
                (elim (Bool-cases (str_eq guess code)) [
                  | inl e ↦ absurd (different other (ap p.sha256 ((eq_iff guess code).0 e)))
                  | inr e ↦ rw e at h
                ])
      ]

  live_codes :
      (now : ℕ) (id salt : String) (otp : ℕ) (dto : NewUser) (s : State c r) (d : c.Docs)
      (gs : List (ℕ × String))
      → All (λ g. (now ≤ g.0) × (g.0 < now + 600 * 1000)) gs
      → All
          (λ g.
            RedisService.get_otp r g.0
              (registered p id salt dto).email
              (signed_up p c r now id salt otp dto s d).redis
            ≡ some (p.sha256 (decimal otp)))
          gs
  live_codes now id salt otp dto s d [] h = tt
  live_codes now id salt otp dto s d ((t, guess) ∷ gs) ((early, late), h) = (
    rw
        (
          get_otp-set_otp r now t (registered p id salt dto).email (registered p id salt dto).email
              (p.sha256 (decimal otp)) s.redis early,
          eq_refl (registered p id salt dto).email,
          lt→ltb t (now + 600 * 1000) late,
        )
        refl,
    live_codes now id salt otp dto s d gs h,
  )

  times_in_window :
      (time : ℕ → ℕ) (now from n : ℕ)
      → ((k : ℕ) → (now ≤ time k) × (time k < now + 600 * 1000))
      → All (λ g. (now ≤ g.0) × (g.0 < now + 600 * 1000)) (guesses time from n)
  unfolding guesses
  times_in_window time now from zero h = tt
  times_in_window time now from (suc n) h = (h from, times_in_window time now (from + 1) n h)

  -- Whoever knows the address that was just signed up can verify it without the mail: a code is a number
  -- of six digits below 999999, and of the 899999 that there are, tried within ten minutes, the right one
  -- is accepted, whatever was tried before.
  pub sing_up-verify_all :
      (now : ℕ) (id salt : String) (otp : ℕ) (dto : NewUser) (s : State c r) (time : ℕ → ℕ)
      → user_of p c r dto.email s ≡ none
      → 100000 ≤ otp
      → otp < 999999
      → ((k : ℕ) → (now ≤ time k) × (time k < now + 600 * 1000))
      → user_of p c r dto.email (
          verify_all dto.email (guesses time 100000 899999) (sing_up p c r now id salt otp dto s).1)
        ≡ some (verified p c r (registered p id salt dto))
  sing_up-verify_all now id salt otp dto s time free low high window =
      let (d, grown, up) = sing_up_new p c r now id salt otp dto s free in
      let u = registered p id salt dto in
      let gs = guesses time 100000 899999 in
      let s1 = signed_up p c r now id salt otp dto s d in
      let found = user_of-signed_up p c r now id salt otp dto s d free grown in
      ap (λ x. user_of p c r dto.email (verify_all dto.email gs x.1)) up
      ∙ verify_all-has_code dto.email (decimal otp) gs s1 u found refl
          (live_codes now id salt otp dto s d gs (times_in_window time now 100000 899999 window))
          (has_code-guesses time 100000 899999 otp low high)
