-- ===== src/Http/Json.antt =====
-- JSON values as far as JavaScript tells true ones from false ones. An object or an array is kept as
-- its JSON text; both are true.
use eventify.Common.{
  ℕ, zero, suc, Bool, true, false, not, Option, none, some, String, str_eq, if◌then◌else◌,
}

pub data Json : Type 0 where
  null : Json
  boolean : Bool → Json
  number : ℕ → Json
  text : String → Json
  object : String → Json

unfoldable pub truthy : Json → Bool
truthy null = false
truthy (boolean b) = b
truthy (number zero) = false
truthy (number (suc n)) = true
truthy (text t) = not (str_eq t "")
truthy (object o) = true

-- `value || other`, where the value may be missing.
unfoldable pub or_json : Option Json → Json → Json
unfolding truthy
or_json none other = other
or_json (some v) other = if truthy v then v else other

-- `value || null`, with nothing for null.
unfoldable pub filled : Option String → Option String
filled none = none
filled (some t) = if str_eq t "" then none else some t
