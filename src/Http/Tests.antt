-- ===== src/Http/Tests.antt =====
-- The filter on one request body.
use eventify.Common.{◌≡◌, [], ◌∷◌, List, none, some, String}
use eventify.Common.Dict
use eventify.Http.Json.{Json, text, truthy}
use eventify.Http.Filter.{sanitize_body, redacted, is_sensitive}
use eventify.Http.Filter.Laws.{get-sanitize_body}

abbrev body : List (String × Json)
body = ("email", text "ann@example.org") ∷ ("password", text "secret") ∷ []

get-sanitize_body_example :
    (elim (sanitize_body (some body)) [ none ↦ none | some n ↦ Dict.get "password" n ])
    ≡ some redacted
unfolding is_sensitive truthy
get-sanitize_body_example = get-sanitize_body "password" body
