-- ===== src/Metrics/Merge.antt =====
-- `mergeRedisDataInPlace` of src/metrics/metrics-aggregation.service.ts: counts of several hashes in
-- one object, a plain `{}` at first.
pub mod Laws
use eventify.Common.{
  Bool, true, false, List, [], ◌∷◌, Option, none, some, String, str_eq, if◌then◌else◌,
}
use eventify.Common.Dict
use eventify.Common.Number.{add_number, parse_int, to_string}

-- What an object holds at a key after a value was merged in: a missing or an empty text gives way.
unfoldable pub merged_value : Option String → String → String
unfolding parse_int to_string
merged_value none value = value
merged_value (some t) value =
    if str_eq t "" then value else to_string (add_number (parse_int t) (parse_int value))

-- The names that `{}` inherits from `Object.prototype`. What it has there is true, and no number.
abbrev pub inherited_names : List String
inherited_names =
    "constructor" ∷ "__defineGetter__" ∷ "__defineSetter__" ∷ "hasOwnProperty" ∷ "__lookupGetter__"
    ∷ "__lookupSetter__" ∷ "isPrototypeOf" ∷ "propertyIsEnumerable" ∷ "toString" ∷ "valueOf"
    ∷ "__proto__" ∷ "toLocaleString" ∷ []

abbrev is_among : List String → String → Bool
is_among [] key = false
is_among (x ∷ xs) key = if str_eq x key then true else is_among xs key

unfoldable pub is_inherited : String → Bool
is_inherited key = is_among inherited_names key

-- `target[key]`, a value that is inherited as a text that is no number.
abbrev pub or_inherited : String → Option String → Option String
or_inherited key (some t) = some t
or_inherited key none = if is_inherited key then some "function" else none

abbrev pub property : String → List (String × String) → Option String
property key target = or_inherited key (Dict.get key target)

-- `target[key] = value`: a text that is assigned to `__proto__` is dropped.
abbrev pub assign : String → String → List (String × String) → List (String × String)
assign key value target = if str_eq key "__proto__" then target else Dict.put key value target

unfoldable pub merge_redis_data_in_place :
    List (String × String) → List (String × String) → List (String × String)
unfolding merged_value
merge_redis_data_in_place target [] = target
merge_redis_data_in_place target ((key, value) ∷ source) =
    merge_redis_data_in_place (assign key (merged_value (property key target) value) target) source
