-- ===== src/Http/Filter.antt =====
-- src/common/filters/global-exception.filter.ts: the answer to a request that failed, and what is
-- logged of it. Whether the environment is production, and the time, are arguments. The body is the
-- one that the JSON middleware gives, an object or nothing.
pub mod Laws
use eventify.Common.{
  ℕ, Bool, true, false, not, ◌||◌, List, [], ◌∷◌, Option, none, some, String, str_eq, if◌then◌else◌,
  leb, ◌==◌,
}
use eventify.Common.Dict
use eventify.Http.Json.{Json, text, null, truthy, or_json, filled}

-- What `getResponse` gives: the `message`, `error` and `details` of an object, or a text.
pub data Response : Type 0 where
  fields : Option Json → Option Json → Option Json → Response
  plain : String → Response

-- An `HttpException` (its status, response, message and stack), any other `Error` (its message, stack
-- and name), and whatever else may be thrown, as `String` shows it.
pub data Thrown : Type 0 where
  http_exception : ℕ → Response → String → String → Thrown
  failure : String → String → String → Thrown
  unknown : String → Thrown

pub record Request : Type 0 where
  pub method : String
  pub url : String
  pub user_agent : Option String
  pub forwarded_for : Option String
  pub remote_address : String
  pub request_id : Option String
  pub query : String
  pub body : Option (List (String × Json))
  pub user_sub : Option String

pub data Details : Type 0 where
  given : Json → Details
  trace : String → String → Details

pub record ErrorResponse : Type 0 where
  pub status_code : ℕ
  pub timestamp : String
  pub path : String
  pub method : String
  pub error : Json
  pub message : Json
  pub details : Option Details
  pub request_id : Option String

unfoldable pub get_error_name : ℕ → String
get_error_name status =
    if status == 400
    then "Bad Request"
    else if status == 401
    then "Unauthorized"
    else if status == 403
    then "Forbidden"
    else if status == 404
    then "Not Found"
    else if status == 409
    then "Conflict"
    else if status == 422
    then "Unprocessable Entity"
    else if status == 429
    then "Too Many Requests"
    else if status == 500
    then "Internal Server Error"
    else if status == 502
    then "Bad Gateway"
    else if status == 503
    then "Service Unavailable"
    else "Error"

-- The fields whose values are not logged.
unfoldable pub is_sensitive : String → Bool
is_sensitive field =
    (((str_eq "password" field || str_eq "token" field) || str_eq "apiKey" field)
      || str_eq "secret" field)
    || str_eq "authorization" field

abbrev pub redacted : Json
redacted = text "[REDACTED]"

-- One round of the loop over the sensitive fields.
unfoldable pub redact : String → List (String × Json) → List (String × Json)
redact field m = elim (Dict.get field m) [
  | none ↦ m
  | some v ↦ if truthy v then Dict.put field redacted m else m
]

unfoldable pub sanitize_body : Option (List (String × Json)) → Option (List (String × Json))
unfolding redact
sanitize_body none = none
sanitize_body (some m) = some (
    redact "authorization"
      (redact "secret" (redact "apiKey" (redact "token" (redact "password" m)))))

abbrev pub or_text : Option String → String → String
or_text o other = elim (filled o) [ none ↦ other | some t ↦ t ]

-- The status, error, message and details that an exception gives.
abbrev answer : Bool → Thrown → ℕ × (Json × (Json × Option Details))
answer production (http_exception status (fields message error details) text_of stack) = (
  status,
  (
    or_json error (text "Bad Request"),
    (
      or_json message (text text_of),
      elim details [ none ↦ none | some d ↦ if truthy d then some (given d) else none ],
    ),
  ),
)
answer production (http_exception status (plain response) text_of stack) =
    (status, (text (get_error_name status), (text text_of, none)))
answer production (failure message stack name) = (
  500,
  (
    text "Internal Server Error",
    (
      text (if production then "Internal server error" else message),
      if production then none else some (trace stack name),
    ),
  ),
)
answer production (unknown shown) =
    (500, (text "Internal Server Error", (text "An unexpected error occurred", none)))

abbrev pub status_of : Thrown → ℕ
status_of e = (answer true e).0

unfoldable pub error_response : Bool → String → Request → Thrown → ErrorResponse
unfolding truthy or_json get_error_name filled
error_response production timestamp request thrown = record {
  status_code = (answer production thrown).0;
  timestamp = timestamp;
  path = request.url;
  method = request.method;
  error = (answer production thrown).1.0;
  message = (answer production thrown).1.1.0;
  details = (answer production thrown).1.1.1;
  request_id = if production then none else some (or_text request.request_id "unknown");
}

pub record LogContext : Type 0 where
  pub method : String
  pub url : String
  pub status_code : ℕ
  pub user_agent : String
  pub ip : String
  pub query : String
  pub body : Option (List (String × Json))
  pub user_id : String

pub data Logged : Type 0 where
  error : String → LogContext → Logged
  warn : String → LogContext → Logged

abbrev stack_or_text : Thrown → String
stack_or_text (http_exception status response message stack) = stack
stack_or_text (failure message stack name) = stack
stack_or_text (unknown shown) = shown

abbrev message_or_text : Thrown → String
message_or_text (http_exception status response message stack) = message
message_or_text (failure message stack name) = message
message_or_text (unknown shown) = shown

abbrev pub log_context : Request → ℕ → LogContext
log_context request status = record {
  method = request.method;
  url = request.url;
  status_code = status;
  user_agent = or_text request.user_agent "";
  ip = or_text request.forwarded_for request.remote_address;
  query = request.query;
  body = sanitize_body request.body;
  user_id = or_text request.user_sub "anonymous";
}

unfoldable pub log_error : Thrown → Request → ℕ → Option Logged
unfolding sanitize_body filled
log_error thrown request status =
    if leb 500 status
    then some (error (stack_or_text thrown) (log_context request status))
    else if leb 400 status
    then some (warn (message_or_text thrown) (log_context request status))
    else none

-- `catch`: the entry of the log, and the answer.
unfoldable pub catch : Bool → String → Request → Thrown → Option Logged × ErrorResponse
unfolding log_error error_response
catch production timestamp request thrown = (
  log_error thrown request (status_of thrown),
  error_response production timestamp request thrown,
)
