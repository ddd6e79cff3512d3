-- ===== src/Iam/Controller.antt =====
-- src/iam/authentication/authentication.controller.ts: the five routes, with the status and the cookies
-- of their answers. An exception is answered by the exception filter. The bodies have passed the
-- validation of their DTOs.
pub mod Laws
use eventify.Common.{
  ℕ, ◌*◌, Bool, true, List, [], ◌∷◌, Option, none, some, String, str_eq, if◌then◌else◌,
}
use eventify.Common.Exec.{Exec, ◌>>=◌, ◌>>◌, return, fail}
use eventify.Http.Exception.{Exception, bad_request}
use eventify.Stores.Collection.{Collection}
use eventify.Stores.Strings.{Strings}
use eventify.Iam.Platform.{Platform}
use eventify.Iam.Users.{User, NewUser, user_key}
use eventify.Iam.Authentication.{State, Tokens, Reply}
use eventify.Iam.Authentication

pub record Cookie : Type 0 where
  pub name : String
  pub value : String
  pub http_only : Bool
  pub secure : Bool
  pub same_site : String
  pub domain : String
  pub max_age : ℕ

pub data Body : Type 0 where
  account : User → Body
  both_tokens : Tokens → Body
  only_access_token : String → Body
  reply : Reply → Body

pub record Response : Type 0 where
  pub status : ℕ
  pub cookies : List Cookie
  pub body : Body

unfoldable pub refresh_cookie : String → Cookie
refresh_cookie token = record {
  name = "refreshToken";
  value = token;
  http_only = true;
  secure = true;
  same_site = "none";
  domain = ".evntfy.tech";
  max_age = 7 * 24 * 60 * 60 * 1000;
}

module _ (p : Platform) (c : Collection User user_key) (r : Strings) where
  abbrev M : Type 0
  M = Exec (State c r) Exception Response

  unfoldable pub sign_up : ℕ → String → String → ℕ → NewUser → M
  sign_up now id salt otp dto = do
    user ← Authentication.sing_up p c r now id salt otp dto
    return (record { status = 201; cookies = []; body = account user })

  unfoldable pub sign_in : ℕ → String → String → String → M
  unfolding refresh_cookie
  sign_in now refresh_token_id email password = do
    tokens ← Authentication.sing_in p c r now refresh_token_id email password
    return (record {
      status = 200;
      cookies = refresh_cookie tokens.refresh_token ∷ [];
      body = both_tokens tokens;
    })

  abbrev pub refresh_with : ℕ → String → String → M
  refresh_with now refresh_token_id token = do
    result ← Authentication.refresh_token p c r now refresh_token_id token
    return (record {
      status = 200;
      cookies = refresh_cookie result.refresh_token ∷ [];
      body = only_access_token result.access_token;
    })

  -- The last argument is the cookie `refreshToken` of the request.
  unfoldable pub refresh_token : ℕ → String → Option String → M
  unfolding refresh_cookie
  refresh_token now refresh_token_id none = fail (bad_request "Refresh token not found")
  refresh_token now refresh_token_id (some token) =
      if str_eq token ""
      then fail (bad_request "Refresh token not found")
      else refresh_with now refresh_token_id token

  unfoldable pub verify_email : ℕ → String → String → M
  verify_email now email otp = do
    answer ← Authentication.verify_email p c r now email otp
    return (record { status = 200; cookies = []; body = reply answer })

  unfoldable pub resend_otp : ℕ → ℕ → String → M
  resend_otp now otp email = do
    answer ← Authentication.resend_otp p c r now otp email
    return (record { status = 200; cookies = []; body = reply answer })
