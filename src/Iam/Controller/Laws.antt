-- ===== src/Iam/Controller/Laws.antt =====
-- A session over HTTP: signing in, and the cookies that follow.
use eventify.Common.{
  ℕ, ◌≡◌, refl, ap, ◌∙◌, true, false, List, [], ◌∷◌, Option, none, some, String, str_eq, arith,
  if◌then◌else◌,
}
use eventify.Common.Exec.{ok, throw}
use eventify.Http.Exception.{Exception, bad_request}
use eventify.Stores.Collection.{Collection}
use eventify.Stores.Strings.{Strings}
use eventify.Iam.Platform.{Platform, Payload}
use eventify.Iam.Users.{User, user_key}
use eventify.Iam.Authentication.{State, Tokens, tokens_for, refresh_payload, generate_tokens}
use eventify.Iam.Authentication
use eventify.Iam.Authentication.Signing.{user_of, sing_in_as}
use eventify.Iam.Authentication.Refresh.{user_with, InTime, refresh_token_rotates}
use eventify.Iam.Controller.{
  Cookie, Response, both_tokens, only_access_token, refresh_cookie, sign_in, refresh_with,
  refresh_token,
}

-- What a browser sends back after an answer: the value of its first cookie `refreshToken`.
abbrev pub sent_back : List Cookie → Option String
sent_back [] = none
sent_back (cookie ∷ cookies) =
    if str_eq cookie.name "refreshToken" then some cookie.value else sent_back cookies

module _ (p : Platform) where
  -- The answers to a sign-in and to a refresh that succeed.
  abbrev pub signed_in : ℕ → String → User → Response
  signed_in t id u = record {
    status = 200;
    cookies = refresh_cookie (tokens_for p t id u).refresh_token ∷ [];
    body = both_tokens (tokens_for p t id u);
  }

  abbrev pub refreshed : ℕ → String → User → Response
  refreshed t id u = record {
    status = 200;
    cookies = refresh_cookie (tokens_for p t id u).refresh_token ∷ [];
    body = only_access_token (tokens_for p t id u).access_token;
  }

module _ (p : Platform) (c : Collection User user_key) (r : Strings)
    (filled : (now ttl : ℕ) (payload : Payload) → str_eq (p.sign now ttl payload) "" ≡ false) where
  module _ (now : ℕ) (id : String) (t : ℕ) (held : String) (u : User) (s : State c r) where
    token : String
    token = (tokens_for p t held u).refresh_token

    refresh_used : refresh_token p c r now id (some token) s ≡ refresh_with p c r now id token s
    unfolding refresh_token token
    refresh_used = rw (filled t p.refresh_token_ttl (refresh_payload held u)) refl

    refresh_ok :
        (v : User)
        → (Authentication.refresh_token p c r now id token s).0 ≡ ok (tokens_for p now id v)
        → refresh_token p c r now id (some token) s
          ≡ (ok (refreshed p now id v), (Authentication.refresh_token p c r now id token s).1)
    refresh_ok v h = refresh_used ∙ ground (arith, h)

    refresh_refused :
        (e : Exception) (after : State c r)
        → Authentication.refresh_token p c r now id token s ≡ (throw e, after)
        → refresh_token p c r now id (some token) s ≡ (throw e, after)
    refresh_refused e after h = refresh_used ∙ rw h refl

  sign_in_ok :
      (t : ℕ) (id email password : String) (s : State c r) (u : User)
      → user_of p c r email s ≡ some u
      → p.compare password u.password ≡ true
      → u.is_email_verified ≡ true
      → sign_in p c r t id email password s
        ≡ (ok (signed_in p t id u), (generate_tokens p c r t id u s).1)
  unfolding sign_in generate_tokens
  sign_in_ok t id email password s u found right verified =
      rw (sing_in_as p c r t id email password s u found right verified) refl

  -- If signed tokens are not empty: a user who can sign in, and is found by id, gets a cookie that
  -- refreshes the session once while it is in time, with a new cookie. The first cookie is refused
  -- after that, without a change, and the new one works, if the two ids of refresh tokens differ.
  pub sign_in-refresh_token :
      (t0 t1 t2 : ℕ) (id0 id1 id2 email password : String) (u : User) (s : State c r)
      → user_of p c r email s ≡ some u
      → user_with p c r u.id s ≡ some u
      → p.compare password u.password ≡ true
      → u.is_email_verified ≡ true
      → InTime p c r t0 t1
      → InTime p c r t0 t2
      → InTime p c r t1 t2
      → str_eq id1 id0 ≡ false
      → let signed = sign_in p c r t0 id0 email password s in
        let first = sent_back (signed_in p t0 id0 u).cookies in
        let second = sent_back (refreshed p t1 id1 u).cookies in
        let once = refresh_token p c r t1 id1 first signed.1 in
        (signed.0 ≡ ok (signed_in p t0 id0 u))
        × (once.0 ≡ ok (refreshed p t1 id1 u))
        × (refresh_token p c r t2 id2 first once.1
            ≡ (throw (bad_request "Refresh token is invalid"), once.1))
        × ((refresh_token p c r t2 id2 second once.1).0 ≡ ok (refreshed p t2 id2 u))
  unfolding refresh_cookie token
  sign_in-refresh_token t0 t1 t2 id0 id1 id2 email password u s found known right verified i01 i02
        i12 differ =
      let signed = sign_in_ok t0 id0 email password s u found right verified in
      let (a, b, d) =
        refresh_token_rotates p c r t0 t1 t2 id0 id1 id2 u s known i01 i02 i12 differ in
      let s0 = (generate_tokens p c r t0 id0 u s).1 in
      let s1 =
        (Authentication.refresh_token p c r t1 id1 (tokens_for p t0 id0 u).refresh_token s0).1 in
      let once = refresh_ok t1 id1 t0 id0 u s0 u a in
      let again =
        refresh_refused t2 id2 t0 id0 u s1 (bad_request "Refresh token is invalid") s1 b in
      let next = refresh_ok t2 id2 t1 id1 u s1 u d in
      rw (signed, once) (refl, refl, again, ap (λ x. x.0) next)
