-- ===== src/Iam/Guards.antt =====
-- src/iam/authentication/guards: which requests reach a handler. A guard reads a request, may set the
-- user of it, and answers or throws.
pub mod Laws
use Prim.Native.Char.{char}
use Prim.Native.String
use eventify.Common.{
  ℕ, Bool, true, false, List, [], ◌∷◌, ◌++◌, Option, none, some, String, str_eq, if◌then◌else◌,
}
use eventify.Common.Exec.{Exec, Outcome, ok, throw}
use eventify.Http.Exception.{Exception, unauthorized}
use eventify.Iam.Platform.{Platform, Payload}

pub data AuthType : Type 0 where
  bearer : AuthType
  nothing : AuthType

-- The authorization header, and the user that a guard puts on the request.
pub record Request : Type 0 where
  pub authorization : Option String
  pub user : Option Payload

-- What decorators put on a handler and on its class: one type, or several.
pub data Declared : Type 0 where
  one : AuthType → Declared
  several : List AuthType → Declared

abbrev pub Guard : Type 0
Guard = Exec Request Exception Bool

-- The text up to the next space, and what follows the first space, if there is one.
unfoldable pub word : String → String
word String.[] = ""
word (String.◌∷◌ c s) =
    let rest = word s in if str_eq (String.◌∷◌ c "") " " then "" else String.◌∷◌ c rest

unfoldable pub after_space : String → Option String
after_space String.[] = none
after_space (String.◌∷◌ c s) =
    let rest = after_space s in if str_eq (String.◌∷◌ c "") " " then some s else rest

-- `const [_, token] = authorization?.split(' ') ?? []`.
unfoldable pub extract_token_from_header : Request → Option String
unfolding word after_space
extract_token_from_header request = elim request.authorization [
  | none ↦ none
  | some header ↦ elim (after_space header) [ none ↦ none | some rest ↦ some (word rest) ]
]

module _ (p : Platform) where
  open p use {verify}

  abbrev checked_token : Outcome String Payload → Guard
  checked_token (ok payload) request =
      (ok true, record { authorization = request.authorization; user = some payload })
  checked_token (throw m) request =
      (throw (unauthorized (String.◌++◌ "Invalid token: " m)), request)

  abbrev given_token : ℕ → Option String → Guard
  given_token now none request =
      (throw (unauthorized "Authentication token is missing. Please log in to continue"), request)
  given_token now (some token) request =
      if str_eq token ""
      then (
        throw (unauthorized "Authentication token is missing. Please log in to continue"),
        request,
      )
      else checked_token (verify now token) request

  -- `AccessTokenGuard.canActivate`.
  unfoldable pub access_token_guard : ℕ → Guard
  unfolding extract_token_from_header
  access_token_guard now request = given_token now (extract_token_from_header request) request

  -- `authTypeGuardMap`.
  unfoldable pub auth_type_guard_map : ℕ → AuthType → Guard
  auth_type_guard_map now bearer request = access_token_guard now request
  auth_type_guard_map now nothing request = (ok true, request)

  -- The loop over the guards: the first that lets the request through decides, and the last error
  -- is kept.
  unfoldable pub run_guards : ℕ → List AuthType → Exception → Guard
  unfolding auth_type_guard_map
  run_guards now [] last_error request = (throw last_error, request)
  run_guards now (t ∷ ts) last_error request =
      let (answer, changed) = auth_type_guard_map now t request in
      elim answer [
        | ok allowed ↦ if allowed then (ok true, changed) else run_guards now ts last_error changed
        | throw e ↦ run_guards now ts e changed
      ]

  abbrev pub types_of : Option Declared → Option Declared → List AuthType
  types_of none none = bearer ∷ []
  types_of none (some (one t)) = t ∷ []
  types_of none (some (several ts)) = ts
  types_of (some (one t)) c = t ∷ []
  types_of (some (several ts)) c = ts

  -- `AuthenticationGuard.canActivate`: what the handler declares goes before what its class declares.
  unfoldable pub can_activate : ℕ → Option Declared → Option Declared → Guard
  unfolding run_guards
  can_activate now handler class request =
      run_guards now (types_of handler class) (unauthorized "Unauthorized") request
