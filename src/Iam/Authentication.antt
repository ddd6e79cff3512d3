-- ===== src/Iam/Authentication.antt =====
-- src/iam/authentication/authentication.service.ts. The random numbers, ids and salts of a call, and
-- its time, are arguments; a call is one step, as if no other ran between its awaits.
pub mod Signing
pub mod Otp
pub mod Guessing
pub mod Refresh
use eventify.Common.{
  ℕ, Bool, true, false, not, ◌||◌, List, [], ◌∷◌, ◌++◌, Option, none, some, String, str_eq,
  if◌then◌else◌,
}
use eventify.Common.Exec.{
  Exec, Outcome, ok, throw, follow, ◌>>=◌, ◌>>◌, return, fail, reads, modify,
}
use eventify.Common.Number.{decimal}
use eventify.Http.Exception.{
  Exception, bad_request, unauthorized, not_found, conflict, error, message,
}
use eventify.Stores.Collection.{Collection}
use eventify.Stores.Strings.{Strings}
use eventify.Iam.Platform.{Platform, Payload}
use eventify.Iam.Users
use eventify.Iam.Users.{User, NewUser, user_key}
use eventify.Iam.RedisService

-- The data of a `SEND_NOTIFICATION` job: the address, and what the template is made from.
pub record Mail : Type 0 where
  pub to : String
  pub user_name : String
  pub otp : String

pub record Tokens : Type 0 where
  pub access_token : String
  pub refresh_token : String

-- The answers of `resendOtp` and `verifyEmail`.
pub data Reply : Type 0 where
  already_verified : Reply
  code_sent : String → Reply
  email_verified : Reply

abbrev pub stop_if : {S : Type 0} → Bool → Exception → Exec S Exception (Unit {0})
stop_if true e s = (throw e, s)
stop_if false e s = (ok tt, s)

abbrev pub is_some : {A : Type 0} → Option A → Bool
is_some none = false
is_some (some a) = true

-- The users, Redis, and the jobs of the notification queue, oldest first.
pub record State (c : Collection User user_key) (r : Strings) : Type 0 where
  pub users : c.Docs
  pub redis : r.Store
  pub mails : List Mail

-- The two calls of `signToken` in `generateTokens`.
abbrev pub refresh_payload : String → User → Payload
refresh_payload refresh_token_id user = record {
  sub = user.id;
  email = none;
  role = none;
  refresh_token_id = some refresh_token_id;
}

abbrev pub access_payload : User → Payload
access_payload user = record {
  sub = user.id;
  email = some user.email;
  role = some (if str_eq user.role "" then "user" else user.role);
  refresh_token_id = none;
}

abbrev pub tokens_for : Platform → ℕ → String → User → Tokens
tokens_for p now refresh_token_id user = record {
  access_token = p.sign now p.access_token_ttl (access_payload user);
  refresh_token = p.sign now p.refresh_token_ttl (refresh_payload refresh_token_id user);
}

module _ (p : Platform) (c : Collection User user_key) (r : Strings) where
  abbrev M : Type 0 → Type 0
  M A = Exec (State c r) Exception A

  abbrev on_redis : (r.Store → r.Store) → M (Unit {0})
  on_redis f s = (ok tt, record s { redis = f s.redis })

  abbrev pub found_or : {A : Type 0} → Option A → Exception → M A
  found_or none e s = (throw e, s)
  found_or (some a) e s = (ok a, s)

  abbrev pub saved : Option c.Docs → M (Unit {0})
  saved none s = (throw (error "E11000 duplicate key error"), s)
  saved (some d) s = (ok tt, record s { users = d })

  abbrev send_mail : Mail → M (Unit {0})
  send_mail m s = (ok tt, record s { mails = s.mails ++ m ∷ [] })

  unfoldable pub sing_up : ℕ → String → String → ℕ → NewUser → M User
  unfolding Users.find_by_email Users.create_user RedisService.set_otp
  sing_up now id salt otp dto = do
    existing_user ← reads (λ s. Users.find_by_email p c dto.email s.users)
    stop_if (is_some existing_user) (conflict "Email already exists")
    let hashed = record dto { password = p.hash salt dto.password }
    users ← reads (λ s. s.users)
    saved (Users.create_user p c id hashed users)
    let user = Users.new_user p id hashed
    on_redis (RedisService.set_otp r now user.email (p.sha256 (decimal otp)))
    send_mail (record { to = user.email; user_name = user.name; otp = decimal otp })
    return user

  unfoldable pub resend_otp : ℕ → ℕ → String → M Reply
  unfolding Users.find_by_email RedisService.get_otp RedisService.invalidate_otp
      RedisService.set_otp
  resend_otp now otp email = do
    found ← reads (λ s. Users.find_by_email p c email s.users)
    user ← found_or found (not_found "No account found with this email address")
    if user.is_email_verified then return already_verified else do
      have_valid_otp ← reads (λ s. RedisService.get_otp r now email s.redis)
      on_redis (if is_some have_valid_otp then RedisService.invalidate_otp r email else λ s. s)
      on_redis (RedisService.set_otp r now user.email (p.sha256 (decimal otp)))
      send_mail (record { to = user.email; user_name = user.name; otp = decimal otp })
      return (code_sent user.email)

  unfoldable pub verify_email : ℕ → String → String → M Reply
  unfolding Users.find_by_email Users.update_email_verification_status RedisService.get_otp
      RedisService.invalidate_otp
  verify_email now email otp = do
    found ← reads (λ s. Users.find_by_email p c email s.users)
    user ← found_or found (not_found "No account found with this email address")
    if user.is_email_verified then return already_verified else do
      stored ← reads (λ s. RedisService.get_otp r now user.email s.redis)
      stored_hashed_otp ←
          found_or stored (unauthorized "Verification code has expired. Please request a new one")
      stop_if (not (str_eq (p.sha256 otp) stored_hashed_otp))
          (unauthorized "Invalid verification code. Please check and try again")
      on_redis (RedisService.invalidate_otp r email)
      modify (λ s. record s {
        users = Users.update_email_verification_status p c user.email true s.users;
      })
      return email_verified

  -- The id of the new refresh token replaces the one that was there.
  unfoldable pub generate_tokens : ℕ → String → User → M Tokens
  unfolding RedisService.insert
  generate_tokens now refresh_token_id user = do
    on_redis (RedisService.insert r user.id refresh_token_id)
    return (tokens_for p now refresh_token_id user)

  abbrev accepts : String → Option User → Bool
  accepts password none = false
  accepts password (some user) = p.compare password user.password

  unfoldable pub sing_in : ℕ → String → String → String → M Tokens
  unfolding Users.find_by_email generate_tokens
  sing_in now refresh_token_id email password = do
    existing_user ← reads (λ s. Users.find_by_email p c email s.users)
    stop_if (not (accepts password existing_user)) (conflict "Invalid email or password")
    user ← found_or existing_user (conflict "Invalid email or password")
    stop_if (not user.is_email_verified) (
        unauthorized
          "Email verification required. Please check your email and enter the verification code to access your account.")
    generate_tokens now refresh_token_id user

  abbrev verified_payload : Outcome String Payload → M Payload
  verified_payload (ok payload) s = (ok payload, s)
  verified_payload (throw text) s = (throw (error text), s)

  -- The body of the `try` block, up to the tokens.
  unfoldable pub checked_user : ℕ → String → M User
  unfolding Users.find_by_id RedisService.validate RedisService.in_validate
  checked_user now token = do
    payload ← verified_payload (p.verify now token)
    found ← reads (λ s. Users.find_by_id p c payload.sub s.users)
    user ← found_or found (bad_request "we can not find a user with this refresh token")
    is_valid ← reads (λ s. RedisService.validate r now user.id payload.refresh_token_id s.redis)
    stop_if (not is_valid) (unauthorized "Refresh token is invalid")
    on_redis (RedisService.in_validate r user.id)
    return user

  -- `catch`: every error becomes a bad request with the same message.
  abbrev pub caught :
      {A : Type 0} → Outcome Exception A × State c r → Outcome Exception A × State c r
  caught (ok a, s) = (ok a, s)
  caught (throw e, s) = (throw (bad_request (message e)), s)

  unfoldable pub refresh_token : ℕ → String → String → M Tokens
  unfolding checked_user generate_tokens
  refresh_token now refresh_token_id token = do
    user ← (λ s. caught (checked_user now token s))
    generate_tokens now refresh_token_id user
