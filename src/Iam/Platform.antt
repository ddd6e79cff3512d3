-- ===== src/Iam/Platform.antt =====
-- What authentication takes from libraries: bcrypt behind `HashingService`, SHA-256, the signing and
-- checking of tokens by `JwtService` under the application's secret, audience and issuer, and the
-- setters `lowercase` and `trim` that Mongoose applies to an address on writing and in queries.
-- Times are milliseconds; a token's times are whole seconds, as `exp` and `iat` are.
pub mod Plain
use eventify.Common.{ℕ, ◌+◌, ◌/◌, ◌<◌, ◌≤◌, ◌≡◌, Bool, true, Option, String}
use eventify.Common.Exec.{Outcome, ok}

-- What a token carries: `sub`, and what `signToken` is given beside it.
pub record Payload : Type 0 where
  pub sub : String
  pub email : Option String
  pub role : Option String
  pub refresh_token_id : Option String

pub record Platform : Type 0 where
  -- A salt and the data.
  pub hash : String → String → String
  pub compare : String → String → Bool
  pub sha256 : String → String
  pub normalize_email : String → String
  pub access_token_ttl : ℕ
  pub refresh_token_ttl : ℕ
  -- The time, the seconds to live and the payload.
  pub sign : ℕ → ℕ → Payload → String
  -- The payload, or the message of the error.
  pub verify : ℕ → String → Outcome String Payload
  pub compare-hash : (salt text : String) → compare text (hash salt text) ≡ true
  pub normalize_email_idem : (e : String) → normalize_email (normalize_email e) ≡ normalize_email e
  pub verify-sign :
      (t now ttl : ℕ) (p : Payload)
      → t ≤ now
      → now / 1000 < t / 1000 + ttl
      → verify now (sign t ttl p) ≡ ok p
