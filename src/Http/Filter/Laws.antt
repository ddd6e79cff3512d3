-- ===== src/Http/Filter/Laws.antt =====
-- What the log keeps of a body.
use eventify.Common.{
  ◌≡◌, refl, Bool, true, false, ◌||◌, List, Option, none, some, String, str_eq, if◌then◌else◌,
  arith, inl, inr, eq_iff, Bool-cases, Option-cases,
}
use eventify.Common.Dict
use eventify.Common.Dict.{get-put}
use eventify.Http.Json.{Json, truthy}
use eventify.Http.Filter.{redacted, redact, sanitize_body, is_sensitive}

-- A value, hidden if it is true.
abbrev pub hidden : Option Json → Option Json
hidden none = none
hidden (some v) = if truthy v then some redacted else some v

get-redact :
    (field k : String) (m : List (String × Json))
    → Dict.get k (redact field m) ≡ (if str_eq field k then hidden (Dict.get k m) else Dict.get k m)
unfolding redact
get-redact field k m = elim (Option-cases (Dict.get field m)) [
  | inl e ↦ elim (Bool-cases (str_eq field k)) [
    | inl h ↦ ground (arith, eq_iff field k)
    | inr h ↦ rw (e, redact) ground arith
  ]
  | inr (v, e) ↦ elim (Bool-cases (truthy v)) [
    | inl t ↦ rw (redact, e, t, get-put field k redacted m) ground (arith, eq_iff field k)
    | inr t ↦ rw (redact, e, t) ground (arith, eq_iff field k)
  ]
]

hidden-hidden : (o : Option Json) → hidden (hidden o) ≡ hidden o
unfolding truthy
hidden-hidden none = refl
hidden-hidden (some v) = elim (Bool-cases (truthy v)) [ inl t ↦ rw t refl | inr t ↦ rw (t, t) refl ]

hidden-twice :
    (a b : Bool) (o : Option Json)
    → (if b then hidden (if a then hidden o else o) else (if a then hidden o else o))
      ≡ (if a || b then hidden o else o)
hidden-twice true true o = hidden-hidden o
hidden-twice true false o = refl
hidden-twice false true o = refl
hidden-twice false false o = refl

-- Of a body with fields, each field is logged as it is, but for the five sensitive ones, which are
-- logged as `[REDACTED]` if they hold a true value.
pub get-sanitize_body :
    (k : String) (m : List (String × Json))
    → (elim (sanitize_body (some m)) [ none ↦ none | some n ↦ Dict.get k n ])
      ≡ (if is_sensitive k then hidden (Dict.get k m) else Dict.get k m)
unfolding sanitize_body is_sensitive
get-sanitize_body k m =
    let first = str_eq "password" k in
    let second = first || str_eq "token" k in
    let third = second || str_eq "apiKey" k in
    rw
      (
        get-redact "authorization" k
            (redact "secret" (redact "apiKey" (redact "token" (redact "password" m)))),
        get-redact "secret" k (redact "apiKey" (redact "token" (redact "password" m))),
        get-redact "apiKey" k (redact "token" (redact "password" m)),
        get-redact "token" k (redact "password" m),
        get-redact "password" k m,
        hidden-twice first (str_eq "token" k) (Dict.get k m),
        hidden-twice second (str_eq "apiKey" k) (Dict.get k m),
        hidden-twice third (str_eq "secret" k) (Dict.get k m),
        hidden-twice (third || str_eq "secret" k) (str_eq "authorization" k) (Dict.get k m),
      )
      refl
