-- ===== src/Iam/Authentication/Signing.antt =====
-- Signing up, verifying the address and signing in.
use text.Mathlib.TextPositions.{eq_refl}
use eventify.Common.{
  ℕ, ◌+◌, ◌*◌, ◌≤◌, ◌<◌, ◌≡◌, ◌↔◌, refl, ap, ◌∙◌, true, false, [], ◌∷◌, ◌++◌, Option, none, some,
  String, eq_iff, arith, Option-cases, inl, inr, lt→ltb,
}
use eventify.Common.Exec.{ok, throw}
use eventify.Common.Number.{decimal}
use eventify.Http.Exception.{conflict}
use eventify.Stores.Collection.{Collection, first, first-append, first-update_first, first_holds}
use eventify.Stores.Strings.{Strings}
use eventify.Iam.Platform.{Platform}
use eventify.Iam.Users
use eventify.Iam.Users.{User, NewUser, user_key, has_email}
use eventify.Iam.RedisService
use eventify.Iam.RedisService.Laws.{get_otp-set_otp}
use eventify.Iam.Authentication.{
  Tokens, Mail, tokens_for, State, email_verified, sing_up, verify_email, sing_in, generate_tokens,
}

-- The document that a sign-up makes.
abbrev pub registered : Platform → String → String → NewUser → User
registered p id salt dto = Users.new_user p id (record dto { password = p.hash salt dto.password })

module _ (p : Platform) (c : Collection User user_key) (r : Strings) where
  open c use {all, find_one_lem, save_taken, save_free, all-update_one, save}

  -- The user of an address, as the source finds it: the first document with the normalised address.
  abbrev pub user_of : String → State c r → Option User
  user_of email s = first (has_email (p.normalize_email email)) (all s.users)

  pub found_by_email :
      (email : String) (s : State c r) → Users.find_by_email p c email s.users ≡ user_of email s
  unfolding Users.find_by_email
  found_by_email email s = find_one_lem _ s.users

  module _ (now : ℕ) (token_id email password : String) (s : State c r) where
    pub sing_in_as :
        (u : User)
        → user_of email s ≡ some u
        → p.compare password u.password ≡ true
        → u.is_email_verified ≡ true
        → sing_in p c r now token_id email password s ≡ generate_tokens p c r now token_id u s
    unfolding sing_in
    sing_in_as u found right verified = ground (arith, found_by_email email s)

    sing_in_only :
        (t : Tokens)
        → (sing_in p c r now token_id email password s).0 ≡ ok t
        → (u : User) × (user_of email s ≡ some u)
          × (p.compare password u.password ≡ true)
          × (u.is_email_verified ≡ true)
    unfolding sing_in
    sing_in_only t h = elim (Option-cases (user_of email s)) [
      | inl e ↦ absurd (ground (arith, found_by_email email s))
      | inr (u, e) ↦
          (u, e, ground (arith, found_by_email email s), ground (arith, found_by_email email s))
    ]

    -- Signing in succeeds exactly for a user whose password is right and whose address is verified.
    pub sing_in_ok_iff :
        ((t : Tokens) × ((sing_in p c r now token_id email password s).0 ≡ ok t)) ↔ (
          (u : User) × (user_of email s ≡ some u)
          × (p.compare password u.password ≡ true)
          × (u.is_email_verified ≡ true))
    unfolding generate_tokens
    sing_in_ok_iff = (
      λ (t, h). sing_in_only t h,
      λ (u, e, right, verified).
          (tokens_for p now token_id u, ap (λ x. x.0) (sing_in_as u e right verified)),
    )

  module _ (now : ℕ) (id salt : String) (otp : ℕ) (dto : NewUser) (s : State c r) where
    -- An address that is taken is refused, and nothing changes.
    pub sing_up_taken :
        (u : User)
        → user_of dto.email s ≡ some u
        → sing_up p c r now id salt otp dto s ≡ (throw (conflict "Email already exists"), s)
    unfolding sing_up
    sing_up_taken u h = ground (arith, found_by_email dto.email s)

    abbrev pub signed_up : c.Docs → State c r
    signed_up d = record {
      users = d;
      redis =
          RedisService.set_otp r now (registered p id salt dto).email (p.sha256 (decimal otp))
            s.redis;
      mails =
          s.mails
          ++ record {
            to = (registered p id salt dto).email;
            user_name = dto.name;
            otp = decimal otp;
          }
            ∷ [];
    }

    -- A new address gets an unverified user, a code in Redis under the stored address, and the mail
    -- with the same code.
    pub sing_up_new :
        user_of dto.email s ≡ none
        → (d : c.Docs) × (all d ≡ all s.users ++ (registered p id salt dto) ∷ [])
          × (sing_up p c r now id salt otp dto s ≡ (ok (registered p id salt dto), signed_up d))
    unfolding sing_up
    sing_up_new h =
        let (d, written, grown) = save_free (registered p id salt dto) s.users h in
        (d, grown, ground (arith, found_by_email dto.email s))

    pub user_of-signed_up :
        (d : c.Docs)
        → user_of dto.email s ≡ none
        → all d ≡ all s.users ++ registered p id salt dto ∷ []
        → user_of dto.email (signed_up d) ≡ some (registered p id salt dto)
    user_of-signed_up d free grown = rw grown (
        first-append (has_email (p.normalize_email dto.email)) (all s.users)
          (registered p id salt dto ∷ []) free
        ∙ rw (eq_refl (p.normalize_email dto.email)) refl)

  -- The record of a user whose address was verified.
  abbrev pub verified : User → User
  verified u = record u { is_email_verified = true }

  abbrev pub after_verifying : User → String → State c r → State c r
  after_verifying u email s = record s {
    redis = RedisService.invalidate_otp r email s.redis;
    users = Users.update_email_verification_status p c u.email true s.users;
  }

  module _ (now : ℕ) (email otp : String) (s : State c r) (u : User)
      (found : user_of email s ≡ some u) where
    -- The stored address is the normalised one.
    pub stored_address : p.normalize_email u.email ≡ p.normalize_email email
    stored_address =
        ap p.normalize_email ((eq_iff u.email _).0 (first_holds _ (all s.users) u found))
        ∙ p.normalize_email_idem email

    -- With the stored code the address becomes verified.
    pub verify_email_right :
        u.is_email_verified ≡ false
        → RedisService.get_otp r now u.email s.redis ≡ some (p.sha256 otp)
        → verify_email p c r now email otp s ≡ (ok email_verified, after_verifying u email s)
    unfolding verify_email
    verify_email_right fresh stored = ground (arith, found_by_email email s, eq_refl (p.sha256 otp))

    pub user_of-after_verifying : user_of email (after_verifying u email s) ≡ some (verified u)
    unfolding Users.update_email_verification_status
    user_of-after_verifying =
        rw (all-update_one, stored_address)
          (first-update_first (has_email (p.normalize_email email)) verified (all s.users) found
            (first_holds _ (all s.users) u found))

  -- The whole way in: sign up with a new address, enter the code of the mail that goes to it within
  -- ten minutes, sign in with the password. Every step succeeds, the mail is the one that is sent, and
  -- the tokens are those of the new user.
  pub sign_up-verify-sign_in :
      (now later last : ℕ) (id salt token_id : String) (otp : ℕ) (dto : NewUser) (s : State c r)
      → user_of dto.email s ≡ none
      → now ≤ later
      → later < now + 600 * 1000
      → let u = registered p id salt dto in
        let s1 = (sing_up p c r now id salt otp dto s).1 in
        ((sing_up p c r now id salt otp dto s).0 ≡ ok u)
        × ((mail : Mail) × (s1.mails ≡ s.mails ++ mail ∷ [])
            × (mail.to ≡ u.email)
            × ((verify_email p c r later dto.email mail.otp s1).0 ≡ ok email_verified)
            × ((sing_in p c r last token_id dto.email dto.password
                  (verify_email p c r later dto.email mail.otp s1).1).0
                ≡ ok (tokens_for p last token_id (verified u))))
  unfolding generate_tokens
  sign_up-verify-sign_in now later last id salt token_id otp dto s free early late =
      let (d, grown, up) = sing_up_new now id salt otp dto s free in
      let u = registered p id salt dto in
      let s1 = signed_up now id salt otp dto s d in
      let found = user_of-signed_up now id salt otp dto s d free grown in
      let stored : RedisService.get_otp r later u.email s1.redis ≡ some (p.sha256 (decimal otp)) =
        rw
          (
            get_otp-set_otp r now later u.email u.email (p.sha256 (decimal otp)) s.redis early,
            eq_refl u.email,
            lt→ltb later (now + 600 * 1000) late,
          )
          refl in
      let verify = verify_email_right later dto.email (decimal otp) s1 u found refl stored in
      let inside =
        sing_in_as last token_id dto.email dto.password (after_verifying u dto.email s1)
          (verified u) (user_of-after_verifying later dto.email (decimal otp) s1 u found)
          (p.compare-hash salt dto.password) refl in
      let mail : Mail = record { to = u.email; user_name = dto.name; otp = decimal otp } in
      rw up (refl, (mail, refl, refl, ap (λ x. x.0) verify, rw verify (ap (λ x. x.0) inside)))
