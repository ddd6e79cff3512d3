-- ===== src/Protobuf/Tests.antt =====
-- An object with an array and a missing value.
use eventify.Common.{ℕ, ◌≡◌, refl, true, none, some}
use eventify.Common.Exec.{ok, throw}
use eventify.Protobuf.{
  Any, undefined, null, number, array, object, other, no_items, item, no_entries, entry, Value,
  value, struct, no_list, no_fields, wrap, unwrap,
}
use eventify.Protobuf.RoundTrip.{IsPlain, unwrap-wrap}

abbrev plain_object : Any ℕ
plain_object =
    object
      (entry "a" (array (item (number 1) (item null no_items))) (entry "b" undefined no_entries))

unwrap-wrap_example : (v : Value ℕ) × (wrap ℕ plain_object ≡ ok v) × (unwrap ℕ v ≡ plain_object)
unfolding IsPlain
unwrap-wrap_example = unwrap-wrap ℕ plain_object (refl, (tt, (tt, tt)), (refl, tt, tt))

-- The first field that is set counts, and a function has no message.
unwrap_several :
    unwrap ℕ (value none (some 1) (some true) (struct no_fields) no_list none) ≡ number 1
unfolding unwrap
unwrap_several = refl

wrap_function :
    wrap ℕ (array (item (other "function") no_items)) ≡ throw "Unsupported any value type: function"
unfolding wrap
wrap_function = refl
