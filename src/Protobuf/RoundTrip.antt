-- ===== src/Protobuf/RoundTrip.antt =====
-- What is left of a value that went through a message.
use eventify.Common.{◌≡◌, refl, ap, false, none}
use eventify.Common.Exec.{ok}
use eventify.Protobuf.{
  Any, undefined, null, boolean, number, string, array, object, instance_of_class, other, Items,
  no_items, item, Entries, no_entries, entry, Value, value, no_struct, struct, no_list, list,
  Fields, field, Values, element, is_proto, wrap, wrap_items, wrap_entries, unwrap, unwrap_values,
  unwrap_fields,
}

module _ (N : Type 0) where
  -- Plain data: undefined, null, booleans, numbers, texts, and arrays and plain objects of plain data,
  -- with no key `__proto__`.
  unfoldable mutual
    pub IsPlain : Any N → Type 0
    IsPlain (array xs) = ArePlain xs
    IsPlain (object es) = HasPlain es
    IsPlain (instance_of_class es) = ⊥
    IsPlain (other type) = ⊥
    IsPlain _ = Unit {0}

    pub ArePlain : Items N → Type 0
    ArePlain no_items = Unit {0}
    ArePlain (item x xs) = IsPlain x × ArePlain xs

    pub HasPlain : Entries N → Type 0
    HasPlain no_entries = Unit {0}
    HasPlain (entry key x es) = (is_proto N key ≡ false) × IsPlain x × HasPlain es

  mutual
    unfolding wrap unwrap IsPlain

    unwrap-wrap' : (x : Any N) → IsPlain x → (v : Value N) × (wrap N x ≡ ok v) × (unwrap N v ≡ x)
    unwrap-wrap' undefined h = (_, refl, refl)
    unwrap-wrap' null h = (_, refl, refl)
    unwrap-wrap' (boolean b) h = (_, refl, refl)
    unwrap-wrap' (number n) h = (_, refl, refl)
    unwrap-wrap' (string s) h = (_, refl, refl)
    unwrap-wrap' (array xs) h =
        let (vs, e, back) = unwrap_values-wrap_items xs h in
        (value none none none no_struct (list vs) none, rw e refl, ap array back)
    unwrap-wrap' (object es) h =
        let (fs, e, back) = unwrap_fields-wrap_entries es h in
        (value none none none (struct fs) no_list none, rw e refl, ap object back)
    unwrap-wrap' (instance_of_class es) h = absurd h
    unwrap-wrap' (other type) h = absurd h

    unwrap_values-wrap_items :
        (xs : Items N)
        → ArePlain xs
        → (vs : Values N) × (wrap_items N xs ≡ ok vs) × (unwrap_values N vs ≡ xs)
    unwrap_values-wrap_items no_items h = (_, refl, refl)
    unwrap_values-wrap_items (item x xs) (h, hs) =
        let (v, e, back) = unwrap-wrap' x h in
        let (vs, es, backs) = unwrap_values-wrap_items xs hs in
        (element v vs, rw (e, es) refl, rw (back, backs) refl)

    unwrap_fields-wrap_entries :
        (xs : Entries N)
        → HasPlain xs
        → (fs : Fields N) × (wrap_entries N xs ≡ ok fs) × (unwrap_fields N fs ≡ xs)
    unwrap_fields-wrap_entries no_entries h = (_, refl, refl)
    unwrap_fields-wrap_entries (entry key x xs) (own, h, hs) =
        let (v, e, back) = unwrap-wrap' x h in
        let (fs, es, backs) = unwrap_fields-wrap_entries xs hs in
        (field key v fs, rw (e, es, own) refl, rw (own, back, backs) refl)

  -- Plain data, which is undefined, null, booleans, numbers, strings, and arrays without holes and
  -- plain objects of plain data with no key `__proto__`, is wrapped into a message, and unwrapped it
  -- is what it was.
  pub unwrap-wrap : (x : Any N) → IsPlain x → (v : Value N) × (wrap N x ≡ ok v) × (unwrap N v ≡ x)
  unwrap-wrap = unwrap-wrap'
