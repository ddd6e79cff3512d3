-- ===== src/Iam/Authentication/Refresh.antt =====
-- Refresh tokens: rotation, and what a refusal looks like.
pub mod Race
use text.Mathlib.TextPositions.{eq_refl}
use eventify.Common.{
  ℕ, ◌+◌, ◌/◌, ◌≤◌, ◌<◌, ◌≡◌, refl, ap, ◌∙◌, true, false, Option, some, String, str_eq, arith,
}
use eventify.Common.Exec.{ok, throw}
use eventify.Http.Exception.{Exception, bad_request, message}
use eventify.Stores.Collection.{Collection, first}
use eventify.Stores.Strings.{Strings}
use eventify.Iam.Platform.{Platform}
use eventify.Iam.Users
use eventify.Iam.Users.{User, user_key, has_id}
use eventify.Iam.RedisService
use eventify.Iam.RedisService.{is_same}
use eventify.Iam.RedisService.Laws.{validate-insert}
use eventify.Iam.Authentication.{State, tokens_for, refresh_payload, generate_tokens, refresh_token}

module _ (p : Platform) (c : Collection User user_key) (r : Strings) where
  open c use {all, find_one_lem}

  abbrev pub user_with : String → State c r → Option User
  user_with id s = first (has_id id) (all s.users)

  found_by_id : (id : String) (s : State c r) → Users.find_by_id p c id s.users ≡ user_with id s
  unfolding Users.find_by_id
  found_by_id id s = find_one_lem _ s.users

  -- A refresh that fails, for whatever reason, fails as a bad request and changes nothing.
  pub refresh_token_refused :
      (now : ℕ) (token_id token : String) (s : State c r) (e : Exception)
      → (refresh_token p c r now token_id token s).0 ≡ throw e
      → (refresh_token p c r now token_id token s ≡ (throw (bad_request (message e)), s))
  unfolding refresh_token
  refresh_token_refused now token_id token s e h = ground arith

  -- What a token that this service signed for a user does, when it is still in time.
  module _ (now t : ℕ) (id held : String) (u : User) (s : State c r)
      (known : user_with u.id s ≡ some u) (after : t ≤ now)
      (live : now / 1000 < t / 1000 + p.refresh_token_ttl) where
    token : String
    token = (tokens_for p t held u).refresh_token

    opened : p.verify now token ≡ ok (refresh_payload held u)
    unfolding token
    opened = p.verify-sign t now p.refresh_token_ttl (refresh_payload held u) after live

    rotated : State c r
    rotated =
        (generate_tokens p c r now id u
          (record s { redis = RedisService.in_validate r u.id s.redis })).1

    refresh_current :
        RedisService.validate r now u.id (some held) s.redis ≡ true
        → refresh_token p c r now id token s ≡ (ok (tokens_for p now id u), rotated)
    unfolding refresh_token rotated
    refresh_current v = ground (arith, opened, found_by_id u.id s)

    refresh_stale :
        RedisService.validate r now u.id (some held) s.redis ≡ false
        → refresh_token p c r now id token s ≡ (throw (bad_request "Refresh token is invalid"), s)
    unfolding refresh_token
    refresh_stale v = ground (arith, opened, found_by_id u.id s)

  abbrev pub InTime : ℕ → ℕ → Type 0
  InTime t now = (t ≤ now) × (now / 1000 < t / 1000 + p.refresh_token_ttl)

  -- The session of a user is the id that was given out last.
  validate-generate_tokens :
      (now t : ℕ) (id held : String) (u : User) (s : State c r)
      → RedisService.validate r now u.id (some held) (generate_tokens p c r t id u s).1.redis
        ≡ str_eq id held
  unfolding generate_tokens
  validate-generate_tokens now t id held u s = rw (validate-insert, eq_refl u.id) refl

  generate_tokens-users :
      (t : ℕ) (id : String) (u : User) (s : State c r)
      → (generate_tokens p c r t id u s).1.users ≡ s.users
  unfolding generate_tokens
  generate_tokens-users t id u s = refl

  -- Rotation: if a user is found by id, the uses are all in time for the tokens that they use, and the
  -- new token has another id than the old one, then the refresh token that the user was given last
  -- works: it gives new tokens; used again one call after the other, it is refused, without harm to
  -- the session, and the new one works.
  pub refresh_token_rotates :
      (t0 t1 t2 : ℕ) (id0 id1 id2 : String) (u : User) (s : State c r)
      → user_with u.id s ≡ some u
      → InTime t0 t1
      → InTime t0 t2
      → InTime t1 t2
      → str_eq id1 id0 ≡ false
      → let s0 = (generate_tokens p c r t0 id0 u s).1 in
        let old = (tokens_for p t0 id0 u).refresh_token in
        let s1 = (refresh_token p c r t1 id1 old s0).1 in
        let new = (tokens_for p t1 id1 u).refresh_token in
        ((refresh_token p c r t1 id1 old s0).0 ≡ ok (tokens_for p t1 id1 u))
        × (refresh_token p c r t2 id2 old s1 ≡ (throw (bad_request "Refresh token is invalid"), s1))
        × ((refresh_token p c r t2 id2 new s1).0 ≡ ok (tokens_for p t2 id2 u))
  unfolding token rotated
  refresh_token_rotates t0 t1 t2 id0 id1 id2 u s known (le01, lt01) (le02, lt02) (le12, lt12)
        differ =
      let s0 = (generate_tokens p c r t0 id0 u s).1 in
      let known0 : user_with u.id s0 ≡ some u = rw generate_tokens-users known in
      let s1 = rotated t1 t0 id1 id0 u s0 known0 le01 lt01 in
      let known1 : user_with u.id s1 ≡ some u = rw generate_tokens-users known0 in
      let first_use =
        refresh_current t1 t0 id1 id0 u s0 known0 le01 lt01
          (validate-generate_tokens t1 t0 id0 id0 u s ∙ eq_refl id0) in
      let reuse =
        refresh_stale t2 t0 id2 id0 u s1 known1 le02 lt02
          (validate-generate_tokens t2 t1 id1 id0 u _ ∙ differ) in
      let next =
        refresh_current t2 t1 id2 id1 u s1 known1 le12 lt12
          (validate-generate_tokens t2 t1 id1 id1 u _ ∙ eq_refl id1) in
      rw first_use (refl, reuse, ap (λ x. x.0) next)
