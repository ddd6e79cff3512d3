-- ===== src/Server/Logging.antt =====
-- src/common/interceptors/error-logging.interceptor.ts: one entry for each request. The duration is the
-- time between the two readings of the clock.
use eventify.Common.{ℕ, zero, suc, ◌-◌, List, [], ◌∷◌, ◌++◌, Option, none, some, String}
use eventify.Common.Exec.{Outcome, ok, throw}
use eventify.Http.Json.{filled}

pub record Request : Type 0 where
  pub method : String
  pub url : String
  pub user_sub : Option String
  pub user_agent : Option String
  pub forwarded_for : Option String
  pub remote_address : String

pub record Failure : Type 0 where
  pub message : String
  pub stack : String

pub record ErrorEntry : Type 0 where
  pub error : String
  pub stack : String
  pub status_code : ℕ
  pub user_id : String
  pub user_agent : Option String
  pub ip : String

pub data Entry : Type 0 where
  success : String → String → ℕ → Entry
  failed : String → String → ℕ → ErrorEntry → Entry

abbrev pub or_other : Option String → String → String
or_other none other = other
or_other (some t) other = t

-- `response.statusCode || 500`.
abbrev pub status_or_500 : ℕ → ℕ
status_or_500 zero = 500
status_or_500 (suc n) = suc n

unfoldable pub intercept :
    {A : Type 0}
    → ℕ
    → ℕ
    → Request
    → ℕ
    → Outcome Failure A
    → List Entry
    → Outcome Failure A × List Entry
unfolding filled
intercept start now request status_code (ok a) log =
    (ok a, log ++ success request.method request.url (now - start) ∷ [])
intercept start now request status_code (throw e) log = (
  throw e,
  log
      ++ failed request.method request.url (now - start) (record {
        error = e.message;
        stack = e.stack;
        status_code = status_or_500 status_code;
        user_id = or_other (filled request.user_sub) "anonymous";
        user_agent = request.user_agent;
        ip = or_other (filled request.forwarded_for) request.remote_address;
      })
        ∷ [],
)
