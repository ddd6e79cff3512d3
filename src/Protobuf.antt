-- ===== src/Protobuf.antt =====
-- src/generated/google/protobuf/struct.ts: JavaScript values as protobuf messages and back. A number is
-- of any type, since nothing computes with it. An array has no holes. An object has distinct keys, so
-- that an assignment to a key adds a field; one to the key `__proto__` sets the prototype and adds none.
pub mod RoundTrip
pub mod Tests
use Prim.Native.String
use eventify.Common.{Bool, Option, none, some, String, str_eq, if◌then◌else◌}
use eventify.Common.Exec.{Outcome, ok, throw}

pub data NullValue : Type 0 where
  null_value : NullValue
  unrecognized : NullValue

module _ (N : Type 0) where
  mutual
    -- A value, by what `typeof` and `Array.isArray` tell of it. `object` is a plain object, with its own
    -- entries; `instance_of_class` is one with another prototype, as a Date, a Map or an object of a class is,
    -- and has the own entries that `Object.keys` lists. `other` has the type of a function, a symbol
    -- or a bigint.
    pub data Any : Type 0 where
      undefined : Any
      null : Any
      boolean : Bool → Any
      number : N → Any
      string : String → Any
      array : Items → Any
      object : Entries → Any
      instance_of_class : Entries → Any
      other : String → Any

    pub data Items : Type 0 where
      no_items : Items
      item : Any → Items → Items

    pub data Entries : Type 0 where
      no_entries : Entries
      entry : String → Any → Entries → Entries

  mutual
    -- The message `Value`: its fields that are set, in the order in which `unwrap` asks for them.
    pub data Value : Type 0 where
      value : Option String → Option N → Option Bool → Struct → ListValue → Option NullValue → Value

    -- The messages `Struct` and `ListValue`, or none.
    pub data Struct : Type 0 where
      no_struct : Struct
      struct : Fields → Struct

    pub data ListValue : Type 0 where
      no_list : ListValue
      list : Values → ListValue

    pub data Fields : Type 0 where
      no_fields : Fields
      field : String → Value → Fields → Fields

    pub data Values : Type 0 where
      no_values : Values
      element : Value → Values → Values

  -- What a step that may throw is followed by.
  abbrev pub follow : {A B : Type 0} → Outcome String A → (A → Outcome String B) → Outcome String B
  follow (ok a) f = f a
  follow (throw e) f = throw e

  -- `createBaseValue`, and a message with one field.
  abbrev pub create_base_value : Value
  create_base_value = value none none none no_struct no_list none

  abbrev pub is_proto : String → Bool
  is_proto key = str_eq key "__proto__"

  unfoldable mutual
    pub wrap : Any → Outcome String Value
    wrap undefined = ok create_base_value
    wrap null = ok (value none none none no_struct no_list (some null_value))
    wrap (boolean b) = ok (value none none (some b) no_struct no_list none)
    wrap (number n) = ok (value none (some n) none no_struct no_list none)
    wrap (string s) = ok (value (some s) none none no_struct no_list none)
    wrap (array xs) =
        follow (wrap_items xs) (λ vs. ok (value none none none no_struct (list vs) none))
    wrap (object es) =
        follow (wrap_entries es) (λ fs. ok (value none none none (struct fs) no_list none))
    wrap (instance_of_class es) =
        follow (wrap_entries es) (λ fs. ok (value none none none (struct fs) no_list none))
    wrap (other type) = throw (String.◌++◌ "Unsupported any value type: " type)

    pub wrap_items : Items → Outcome String Values
    wrap_items no_items = ok no_values
    wrap_items (item x xs) = follow (wrap x) (λ v. follow (wrap_items xs) (λ vs. ok (element v vs)))

    pub wrap_entries : Entries → Outcome String Fields
    wrap_entries no_entries = ok no_fields
    wrap_entries (entry key x es) =
        follow (wrap x)
          (λ v. follow (wrap_entries es) (λ fs. ok (if is_proto key then fs else field key v fs)))

  -- The first field that is set counts.
  unfoldable mutual
    pub unwrap : Value → Any
    unwrap (value (some s) n b m l z) = string s
    unwrap (value none (some n) b m l z) = number n
    unwrap (value none none (some b) m l z) = boolean b
    unwrap (value none none none (struct fs) l z) = object (unwrap_fields fs)
    unwrap (value none none none no_struct (list vs) z) = array (unwrap_values vs)
    unwrap (value none none none no_struct no_list (some z)) = null
    unwrap (value none none none no_struct no_list none) = undefined

    pub unwrap_fields : Fields → Entries
    unwrap_fields no_fields = no_entries
    unwrap_fields (field key v fs) =
        let rest = unwrap_fields fs in if is_proto key then rest else entry key (unwrap v) rest

    pub unwrap_values : Values → Items
    unwrap_values no_values = no_items
    unwrap_values (element v vs) = item (unwrap v) (unwrap_values vs)

  -- `Struct.wrap` and `ListValue.wrap`, of a value or `undefined`.
  unfoldable pub wrap_struct : Option Entries → Outcome String Fields
  unfolding wrap
  wrap_struct none = ok no_fields
  wrap_struct (some es) = wrap_entries es

  unfoldable pub wrap_list : Option Items → Outcome String Values
  unfolding wrap
  wrap_list none = ok no_values
  wrap_list (some xs) = wrap_items xs
