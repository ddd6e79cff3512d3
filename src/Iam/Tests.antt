-- ===== src/Iam/Tests.antt =====
-- Accounts and sessions at concrete values: a list for the users, a table for Redis, and a platform
-- that hides nothing.
use eventify.Common.{
  ◌≡◌, ◌↔◌, ◌⊎◌, refl, true, false, [], ◌∷◌, none, some, str_eq, if◌then◌else◌, arith,
}
use eventify.Common.Exec.{ok, throw}
use eventify.Http.Exception.{bad_request}
use eventify.Stores.Collection.{Collection}
use eventify.Stores.InMemory.{list_collection}
use eventify.Stores.Memory.{table_strings}
use eventify.Iam.Platform.Plain
use eventify.Iam.Platform.Plain.{plain}
use eventify.Iam.Users.{User, NewUser, user_key}
use eventify.Iam.Guards.{Request}
use eventify.Iam.RedisService
use eventify.Iam.Authentication.Refresh.Race.{refresh_begin, refresh_finish, refresh_begin_twice}
use eventify.Iam.Controller
use eventify.Iam.Controller.{sign_in}
use eventify.Iam.Controller.Laws.{sent_back, signed_in, refreshed, sign_in-refresh_token}
use eventify.Iam.Authentication.{
  State, Mail, tokens_for, email_verified, sing_up, verify_email, sing_in, generate_tokens,
  refresh_token,
}
use eventify.Iam.Authentication.Signing.{user_of, registered, verified, sign_up-verify-sign_in}
use eventify.Iam.Authentication.Guessing.{guesses, verify_all, sing_up-verify_all}
use eventify.Iam.Authentication.Otp.{verify_email_ok_iff, verify_email-get_otp}
use eventify.Iam.Authentication.Refresh.{refresh_token_rotates}

abbrev users : Collection User user_key
users = list_collection user_key

abbrev Session : Type 0
Session = State users table_strings

abbrev ann : User
ann = record {
  id = "u1";
  name = "Ann";
  email = "ann@example.org";
  password = "secret";
  is_email_verified = false;
  role = "user";
}

abbrev dto : NewUser
dto = record { name = "Ann"; email = "ann@example.org"; password = "secret" }

abbrev empty : Session
empty = record { users = []; redis = λ k. none; mails = [] }

abbrev signed : Session
signed = record { users = ann ∷ []; redis = λ k. none; mails = [] }

-- Ann, with a code that holds for the first ten minutes.
abbrev waiting : Session
waiting = record {
  users = ann ∷ [];
  redis = RedisService.set_otp table_strings 0 "ann@example.org" "123456" (λ k. none);
  mails = [];
}

sign_up-verify-sign_in_example :
    let p = plain in
    let u = registered p "u1" "salt" dto in
    let s1 = (sing_up p users table_strings 0 "u1" "salt" 123456 dto empty).1 in
    ((sing_up p users table_strings 0 "u1" "salt" 123456 dto empty).0 ≡ ok u)
    × ((mail : Mail) × (s1.mails ≡ mail ∷ [])
        × (mail.to ≡ u.email)
        × ((verify_email p users table_strings 1000 "ann@example.org" mail.otp s1).0
            ≡ ok email_verified)
        × ((sing_in p users table_strings 2000 "t1" "ann@example.org" "secret"
              (verify_email p users table_strings 1000 "ann@example.org" mail.otp s1).1).0
            ≡ ok (tokens_for p 2000 "t1" (verified p users table_strings u))))
sign_up-verify-sign_in_example =
    sign_up-verify-sign_in plain users table_strings 0 1000 2000 "u1" "salt" "t1" 123456 dto empty
      refl (omega arith) (omega arith)

verify_email_ok_iff_example :
    let answer = verify_email plain users table_strings 1000 "ann@example.org" "123456" waiting in
    let stored =
      RedisService.get_otp table_strings 1000 "ann@example.org" waiting.redis ≡ some "123456" in
    let found = user_of plain users table_strings "ann@example.org" answer.1 in
    ((answer.0 ≡ ok email_verified) ↔ stored)
    × ((found ≡ some (verified plain users table_strings ann)) ↔ stored)
    × ((found ≡ some (verified plain users table_strings ann)) ⊎ (found ≡ some ann))
verify_email_ok_iff_example =
    verify_email_ok_iff plain users table_strings 1000 "ann@example.org" "123456" waiting ann refl
      refl

verify_email-get_otp_example :
    RedisService.get_otp table_strings 2000 "ann@example.org"
      (verify_email plain users table_strings 1000 "ann@example.org" "123456" waiting).1.redis
    ≡ (if str_eq "ann@example.org" "ann@example.org"
        then none
        else RedisService.get_otp table_strings 2000 "ann@example.org" waiting.redis)
unfolding RedisService.get_otp RedisService.set_otp RedisService.otp_key
verify_email-get_otp_example =
    verify_email-get_otp plain users table_strings 1000 "ann@example.org" "123456" waiting ann refl
      refl 2000 refl

refresh_token_rotates_example :
    let s0 = (generate_tokens plain users table_strings 0 "t0" ann signed).1 in
    let old = (tokens_for plain 0 "t0" ann).refresh_token in
    let s1 = (refresh_token plain users table_strings 1000 "t1" old s0).1 in
    let new = (tokens_for plain 1000 "t1" ann).refresh_token in
    ((refresh_token plain users table_strings 1000 "t1" old s0).0
      ≡ ok (tokens_for plain 1000 "t1" ann))
    × (refresh_token plain users table_strings 2000 "t2" old s1
        ≡ (throw (bad_request "Refresh token is invalid"), s1))
    × ((refresh_token plain users table_strings 2000 "t2" new s1).0
        ≡ ok (tokens_for plain 2000 "t2" ann))
refresh_token_rotates_example =
    refresh_token_rotates plain users table_strings 0 1000 2000 "t0" "t1" "t2" ann signed refl
      (omega arith, omega arith) (omega arith, omega arith) (omega arith, omega arith) refl

abbrev request : Request
request = record { authorization = some "Bearer b"; user = none }

abbrev ready : User
ready = record ann { is_email_verified = true }

abbrev members : Session
members = record { users = ready ∷ []; redis = λ k. none; mails = [] }

sign_in-refresh_token_example :
    let answer = sign_in plain users table_strings 0 "t0" "ann@example.org" "secret" members in
    let first = sent_back (signed_in plain 0 "t0" ready).cookies in
    let second = sent_back (refreshed plain 1000 "t1" ready).cookies in
    let once = Controller.refresh_token plain users table_strings 1000 "t1" first answer.1 in
    (answer.0 ≡ ok (signed_in plain 0 "t0" ready))
    × (once.0 ≡ ok (refreshed plain 1000 "t1" ready))
    × (Controller.refresh_token plain users table_strings 2000 "t2" first once.1
        ≡ (throw (bad_request "Refresh token is invalid"), once.1))
    × ((Controller.refresh_token plain users table_strings 2000 "t2" second once.1).0
        ≡ ok (refreshed plain 2000 "t2" ready))
sign_in-refresh_token_example =
    sign_in-refresh_token plain users table_strings Plain.sign_filled 0 1000 2000 "t0" "t1" "t2"
      "ann@example.org" "secret" ready members refl refl refl refl (omega arith, omega arith)
      (omega arith, omega arith) (omega arith, omega arith) refl

refresh_begin_twice_example :
    let s0 = (generate_tokens plain users table_strings 0 "t0" ann signed).1 in
    let shared = (tokens_for plain 0 "t0" ann).refresh_token in
    let s1 = (refresh_finish plain users table_strings 1000 "t1" ann s0).1 in
    let s2 = (refresh_finish plain users table_strings 1001 "t2" ann s1).1 in
    (refresh_begin plain users table_strings 1000 shared s0 ≡ ok ann)
    × (refresh_begin plain users table_strings 1001 shared s0 ≡ ok ann)
    × ((refresh_finish plain users table_strings 1000 "t1" ann s0).0
        ≡ ok (tokens_for plain 1000 "t1" ann))
    × ((refresh_finish plain users table_strings 1001 "t2" ann s1).0
        ≡ ok (tokens_for plain 1001 "t2" ann))
    × (refresh_token plain users table_strings 2000 "t3"
          (tokens_for plain 1000 "t1" ann).refresh_token
          s2
        ≡ (throw (bad_request "Refresh token is invalid"), s2))
    × ((refresh_token plain users table_strings 2000 "t3"
          (tokens_for plain 1001 "t2" ann).refresh_token
          s2).0
        ≡ ok (tokens_for plain 2000 "t3" ann))
refresh_begin_twice_example =
    refresh_begin_twice plain users table_strings 0 1000 1001 2000 "t0" "t1" "t2" "t3" ann signed
      refl (omega arith, omega arith) (omega arith, omega arith) (omega arith, omega arith)
      (omega arith, omega arith) refl

sing_up-verify_all_example :
    user_of plain users table_strings "ann@example.org" (
      verify_all plain users table_strings "ann@example.org"
        (guesses (λ k. 1000) 100000 899999)
        (sing_up plain users table_strings 0 "u1" "salt" 123456 dto empty).1)
    ≡ some (verified plain users table_strings (registered plain "u1" "salt" dto))
sing_up-verify_all_example =
    sing_up-verify_all plain users table_strings 0 "u1" "salt" 123456 dto empty (λ k. 1000) refl
      (omega arith) (omega arith) (λ k. (omega arith, omega arith))
