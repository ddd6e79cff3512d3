-- ===== src/Iam/Authentication/Refresh/Race.antt =====
-- Two refreshes at once: `refreshToken` of src/iam/authentication/authentication.service.ts in the two
-- phases between which another request may run, up to the check of the token and from there on.
use text.Mathlib.TextPositions.{eq_refl}
use eventify.Common.{
  ℕ, ◌≡◌, refl, ap, ◌∙◌, true, false, Option, none, some, String, str_eq, if◌then◌else◌, arith,
}
use eventify.Common.Exec.{Exec, Outcome, ok, throw}
use eventify.Http.Exception.{Exception, bad_request}
use eventify.Stores.Collection.{Collection}
use eventify.Stores.Strings.{Strings}
use eventify.Iam.Platform.{Platform, Payload}
use eventify.Iam.Users
use eventify.Iam.Users.{User, user_key}
use eventify.Iam.RedisService
use eventify.Iam.Authentication.{
  State, Tokens, tokens_for, generate_tokens, checked_user, refresh_token,
}
use eventify.Iam.Authentication.Refresh.{
  user_with, InTime, found_by_id, refresh_current, refresh_stale, token, opened,
  validate-generate_tokens,
}

module _ (p : Platform) (c : Collection User user_key) (r : Strings) where
  abbrev pub valid_user : ℕ → Option String → Option User → State c r → Outcome Exception User
  valid_user now held none s = throw (bad_request "we can not find a user with this refresh token")
  valid_user now held (some user) s =
      if RedisService.validate r now user.id held s.redis
      then ok user
      else throw (bad_request "Refresh token is invalid")

  abbrev pub opened_user : ℕ → Outcome String Payload → State c r → Outcome Exception User
  opened_user now (throw text) s = throw (bad_request text)
  opened_user now (ok payload) s =
      valid_user now payload.refresh_token_id (Users.find_by_id p c payload.sub s.users) s

  -- What is read before the token counts as valid. An error is a bad request already.
  unfoldable pub refresh_begin : ℕ → String → State c r → Outcome Exception User
  unfolding Users.find_by_id RedisService.validate
  refresh_begin now t s = opened_user now (p.verify now t) s

  -- What is written after that.
  unfoldable pub refresh_finish : ℕ → String → User → Exec (State c r) Exception Tokens
  unfolding generate_tokens RedisService.in_validate
  refresh_finish now id user s =
      generate_tokens p c r now id user
        (record s { redis = RedisService.in_validate r user.id s.redis })

  abbrev pub finished : ℕ → String → Outcome Exception User → Exec (State c r) Exception Tokens
  finished now id (throw e) s = (throw e, s)
  finished now id (ok user) s = refresh_finish now id user s

  -- With no other request between them, the phases are the method.
  pub refresh_begin-finish :
      (now : ℕ) (id t : String) (s : State c r)
      → refresh_token p c r now id t s ≡ finished now id (refresh_begin now t s) s
  unfolding refresh_token checked_user refresh_begin refresh_finish
  refresh_begin-finish now id t s = ground arith

  begin_current :
      (now t : ℕ) (held : String) (u : User) (s : State c r)
      → user_with p c r u.id s ≡ some u
      → InTime p c r t now
      → RedisService.validate r now u.id (some held) s.redis ≡ true
      → refresh_begin now (tokens_for p t held u).refresh_token s ≡ ok u
  unfolding refresh_begin token
  begin_current now t held u s known (after, live) valid =
      rw (opened p c r now t held held u s known after live, found_by_id p c r u.id s, known, valid)
        refl

  -- Two requests with the same current token that both begin before either has finished: both get
  -- tokens. Of these, the ones that were given out first are refused afterwards, and the others work.
  pub refresh_begin_twice :
      (t0 t1 t2 t3 : ℕ) (id0 id1 id2 id3 : String) (u : User) (s : State c r)
      → user_with p c r u.id s ≡ some u
      → InTime p c r t0 t1
      → InTime p c r t0 t2
      → InTime p c r t1 t3
      → InTime p c r t2 t3
      → str_eq id2 id1 ≡ false
      → let s0 = (generate_tokens p c r t0 id0 u s).1 in
        let shared = (tokens_for p t0 id0 u).refresh_token in
        let s1 = (refresh_finish t1 id1 u s0).1 in
        let s2 = (refresh_finish t2 id2 u s1).1 in
        (refresh_begin t1 shared s0 ≡ ok u)
        × (refresh_begin t2 shared s0 ≡ ok u)
        × ((refresh_finish t1 id1 u s0).0 ≡ ok (tokens_for p t1 id1 u))
        × ((refresh_finish t2 id2 u s1).0 ≡ ok (tokens_for p t2 id2 u))
        × (refresh_token p c r t3 id3 (tokens_for p t1 id1 u).refresh_token s2
            ≡ (throw (bad_request "Refresh token is invalid"), s2))
        × ((refresh_token p c r t3 id3 (tokens_for p t2 id2 u).refresh_token s2).0
            ≡ ok (tokens_for p t3 id3 u))
  unfolding refresh_finish generate_tokens token
  refresh_begin_twice t0 t1 t2 t3 id0 id1 id2 id3 u s known i01 i02 i13 i23 differ =
      let s0 = (generate_tokens p c r t0 id0 u s).1 in
      let s1 = (refresh_finish t1 id1 u s0).1 in
      let s2 = (refresh_finish t2 id2 u s1).1 in
      (
        begin_current t1 t0 id0 u s0 known i01
            (validate-generate_tokens p c r t1 t0 id0 id0 u s ∙ eq_refl id0),
        begin_current t2 t0 id0 u s0 known i02
            (validate-generate_tokens p c r t2 t0 id0 id0 u s ∙ eq_refl id0),
        refl,
        refl,
        refresh_stale p c r t3 t1 id3 id1 u s2 known i13.0 i13.1 (
            validate-generate_tokens p c r t3 t2 id2 id1 u
              (record s1 { redis = RedisService.in_validate r u.id s1.redis })
            ∙ differ),
        ap (λ x. x.0)
            (refresh_current p c r t3 t2 id3 id2 u s2 known i23.0 i23.1 (
              validate-generate_tokens p c r t3 t2 id2 id2 u
                (record s1 { redis = RedisService.in_validate r u.id s1.redis })
              ∙ eq_refl id2)),
      )
