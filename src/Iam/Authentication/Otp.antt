-- ===== src/Iam/Authentication/Otp.antt =====
-- The verification codes: which one verifies, for how long, and what `resendOtp` does to the old one.
use text.Mathlib.TextPositions.{eq_refl}
use eventify.Common.{
  ℕ, ◌+◌, ◌*◌, ◌≤◌, ◌≡◌, ◌↔◌, ◌≢◌, ◌⊎◌, refl, sym, ap, ◌∙◌, false, [], ◌∷◌, ◌++◌, none, some,
  String, str_eq, eq_iff, arith, Bool-cases, Option-cases, inl, inr, if◌then◌else◌, ltb,
}
use eventify.Common.Exec.{ok, throw}
use eventify.Common.Number.{decimal}
use eventify.Http.Exception.{unauthorized}
use eventify.Stores.Collection.{Collection}
use eventify.Stores.Strings.{Strings}
use eventify.Iam.Platform.{Platform}
use eventify.Iam.Users.{User, user_key}
use eventify.Iam.RedisService
use eventify.Iam.RedisService.Laws.{get_otp-set_otp, get_otp-invalidate_otp}
use eventify.Iam.Authentication.{
  is_some, State, code_sent, email_verified, verify_email, resend_otp,
}
use eventify.Iam.Authentication.Signing.{
  user_of, verified, verify_email_right, user_of-after_verifying, found_by_email,
}

module _ (p : Platform) (c : Collection User user_key) (r : Strings) where
  module _ (now : ℕ) (email otp : String) (s : State c r) (u : User)
      (found : user_of p c r email s ≡ some u) (fresh : u.is_email_verified ≡ false) where
    verify_email-none :
        RedisService.get_otp r now u.email s.redis ≡ none
        → verify_email p c r now email otp s
          ≡ (throw (unauthorized "Verification code has expired. Please request a new one"), s)
    unfolding verify_email
    verify_email-none e = ground (arith, found_by_email p c r email s)

    pub verify_email_wrong :
        (hashed : String)
        → RedisService.get_otp r now u.email s.redis ≡ some hashed
        → str_eq (p.sha256 otp) hashed ≡ false
        → verify_email p c r now email otp s
          ≡ (throw (unauthorized "Invalid verification code. Please check and try again"), s)
    unfolding verify_email
    verify_email_wrong hashed e w = ground (arith, found_by_email p c r email s)

    -- The answer is that the address is verified exactly for a text whose hash is the stored code.
    verify_email_accepts_iff :
        ((verify_email p c r now email otp s).0 ≡ ok email_verified)
        ↔ (RedisService.get_otp r now u.email s.redis ≡ some (p.sha256 otp))
    verify_email_accepts_iff = (
      only,
      λ stored. ap (λ x. x.0) (verify_email_right p c r now email otp s u found fresh stored),
    )
      where
        only :
            (verify_email p c r now email otp s).0 ≡ ok email_verified
            → RedisService.get_otp r now u.email s.redis ≡ some (p.sha256 otp)
        only h = elim (Option-cases (RedisService.get_otp r now u.email s.redis)) [
          | inl e ↦ absurd (ground (arith, verify_email-none e))
          | inr (hashed, e) ↦ elim (Bool-cases (str_eq (p.sha256 otp) hashed)) [
            | inl same ↦ e ∙ ap some (sym ((eq_iff _ _).0 same))
            | inr other ↦ absurd (ground (arith, verify_email_wrong hashed e other))
          ]
        ]

    -- Any other text, and any text after the code has run out, is refused as unauthorized, and
    -- changes nothing.
    pub verify_email_refused :
        RedisService.get_otp r now u.email s.redis ≢ some (p.sha256 otp)
        → (m : String) × (verify_email p c r now email otp s ≡ (throw (unauthorized m), s))
    verify_email_refused h = elim (Option-cases (RedisService.get_otp r now u.email s.redis)) [
      | inl e ↦ ("Verification code has expired. Please request a new one", verify_email-none e)
      | inr (hashed, e) ↦ elim (Bool-cases (str_eq (p.sha256 otp) hashed)) [
        | inl same ↦ absurd (h (e ∙ ap some (sym ((eq_iff _ _).0 same))))
        | inr other ↦ (
          "Invalid verification code. Please check and try again",
          verify_email_wrong hashed e other,
        )
      ]
    ]

    stored_cases :
        (RedisService.get_otp r now u.email s.redis ≡ some (p.sha256 otp))
        ⊎ (RedisService.get_otp r now u.email s.redis ≢ some (p.sha256 otp))
    stored_cases = elim (Option-cases (RedisService.get_otp r now u.email s.redis)) [
      | inl e ↦ inr (λ h. absurd (ground (arith, sym e ∙ h)))
      | inr (hashed, e) ↦ elim (Bool-cases (str_eq (p.sha256 otp) hashed)) [
        | inl same ↦ inl (e ∙ ap some (sym ((eq_iff _ _).0 same)))
        | inr other ↦ inr (λ h. absurd (ground (arith, eq_iff (p.sha256 otp) hashed, sym e ∙ h)))
      ]
    ]

    -- A user who is not verified is answered that the address is verified, and is found as a verified
    -- user afterwards, both exactly for a text whose hash is the stored code of the address at that
    -- time; whoever is not found as such afterwards is found as before.
    pub verify_email_ok_iff :
        let answer = verify_email p c r now email otp s in
        let stored = RedisService.get_otp r now u.email s.redis ≡ some (p.sha256 otp) in
        ((answer.0 ≡ ok email_verified) ↔ stored)
        × ((user_of p c r email answer.1 ≡ some (verified p c r u)) ↔ stored)
        × ((user_of p c r email answer.1 ≡ some (verified p c r u))
            ⊎ (user_of p c r email answer.1 ≡ some u))
    verify_email_ok_iff = (verify_email_accepts_iff, (only, with_code), either)
      where
        with_code :
            RedisService.get_otp r now u.email s.redis ≡ some (p.sha256 otp)
            → user_of p c r email (verify_email p c r now email otp s).1 ≡ some (verified p c r u)
        with_code stored =
            rw (verify_email_right p c r now email otp s u found fresh stored)
              (user_of-after_verifying p c r now email otp s u found)

        without_code :
            RedisService.get_otp r now u.email s.redis ≢ some (p.sha256 otp)
            → user_of p c r email (verify_email p c r now email otp s).1 ≡ some u
        without_code other = let (m, e) = verify_email_refused other in rw e found

        either :
            (user_of p c r email (verify_email p c r now email otp s).1 ≡ some (verified p c r u))
            ⊎ (user_of p c r email (verify_email p c r now email otp s).1 ≡ some u)
        either = elim (stored_cases) [
          | inl stored ↦ inl (with_code stored)
          | inr other ↦ inr (without_code other)
        ]

        only :
            user_of p c r email (verify_email p c r now email otp s).1 ≡ some (verified p c r u)
            → RedisService.get_otp r now u.email s.redis ≡ some (p.sha256 otp)
        only h = elim (stored_cases) [
          | inl stored ↦ stored
          | inr other ↦ absurd (ground (arith, sym (without_code other) ∙ h))
        ]

    -- Where the used code is: it is gone if the address came as it is stored, and otherwise it stays,
    -- since it is looked up under the stored address and deleted under the one that came.
    pub verify_email-get_otp :
        (later : ℕ)
        → RedisService.get_otp r now u.email s.redis ≡ some (p.sha256 otp)
        → RedisService.get_otp r later u.email (verify_email p c r now email otp s).1.redis
          ≡ (if str_eq email u.email then none else RedisService.get_otp r later u.email s.redis)
    verify_email-get_otp later stored =
        rw (verify_email_right p c r now email otp s u found fresh stored)
          (get_otp-invalidate_otp r later email u.email s.redis)

  module _ (now otp : ℕ) (email : String) (s : State c r) (u : User)
      (found : user_of p c r email s ≡ some u) (fresh : u.is_email_verified ≡ false) where
    resent_store : r.Store
    resent_store =
        (if is_some (RedisService.get_otp r now email s.redis)
            then RedisService.invalidate_otp r email
            else λ x. x)
          s.redis

    resend_otp_lem : resend_otp p c r now otp email s ≡ (
      ok (code_sent u.email),
      record s {
        redis = RedisService.set_otp r now u.email (p.sha256 (decimal otp)) resent_store;
        mails = s.mails ++ record { to = u.email; user_name = u.name; otp = decimal otp } ∷ [];
      },
    )
    unfolding resend_otp resent_store
    resend_otp_lem = ground (arith, found_by_email p c r email s)

    -- A resend mails a new code, and from then on for ten minutes that code and no other is stored
    -- for the address, so whatever was sent before no longer verifies; the users stay as they are.
    resend_otp_replaces :
        (later : ℕ)
        → now ≤ later
        → let after = (resend_otp p c r now otp email s).1 in
          ((resend_otp p c r now otp email s).0 ≡ ok (code_sent u.email))
          × (after.users ≡ s.users)
          × (after.mails
              ≡ s.mails ++ record { to = u.email; user_name = u.name; otp = decimal otp } ∷ [])
          × (RedisService.get_otp r later u.email after.redis
              ≡ (if ltb later (now + 600 * 1000) then some (p.sha256 (decimal otp)) else none))
    resend_otp_replaces later h = rw resend_otp_lem (
      refl,
      refl,
      refl,
      get_otp-set_otp r now later u.email u.email _ _ h ∙ rw (eq_refl u.email) refl,
    )
