-- ===== src/ApiKey/Usage/Apart.antt =====
-- What is read of one key after an operation on another.
use eventify.Common.{
  ◌≡◌, refl, ap, ◌∙◌, Bool, true, false, List, [], ◌∷◌, String, str_eq, if◌then◌else◌,
}
use eventify.Stores.Collection.{Collection}
use eventify.Stores.Hashes.{Hashes}
use eventify.ApiKey.Repository.{ApiKey, api_key_key}
use eventify.ApiKey.Usage.{
  Status, State, key_name, status_fields, is_empty, initialize_api_key_usage, register_api_key,
  get_usage, reset_usage, delete_api_key_usage, increment_usage,
}
use eventify.ApiKey.Usage.Laws.{key_name_eq}

module _ (h : Hashes) where
  open h use {
    Store, hgetall, hset, del, hincrby, get-hset, hgetall-hset_ne, hgetall-del, get-hincrby,
    hincrby_value, hgetall-hincrby_ne,
  }

  get_usage-cong :
      (j : String) (s s' : Store)
      → hgetall (key_name j) s' ≡ hgetall (key_name j) s
      → get_usage h j s' ≡ get_usage h j s
  unfolding get_usage
  get_usage-cong j s s' e = rw (e, get_usage) refl

  module _ (id j : String) (status : Status) (s : Store) (differ : str_eq id j ≡ false) where
    names_differ : str_eq (key_name id) (key_name j) ≡ false
    names_differ = key_name_eq id j ∙ differ

    cleared_ne :
        (b : Bool)
        → hgetall (key_name j) (if b then s else del (key_name id) s) ≡ hgetall (key_name j) s
    cleared_ne true = refl
    cleared_ne false = rw (hgetall-del, names_differ) refl

    hset_ne :
        (fs : List (String × String)) (t : Store)
        → hgetall (key_name j) t ≡ hgetall (key_name j) s
        → hgetall (key_name j) (hset (key_name id) fs t) ≡ hgetall (key_name j) s
    hset_ne fs t e = hgetall-hset_ne (key_name id) (key_name j) fs t names_differ ∙ e

    initialized_ne :
        (b : Bool) (fs : List (String × String))
        → hgetall (key_name j) (if b then hset (key_name id) fs s else s) ≡ hgetall (key_name j) s
    initialized_ne true fs = hset_ne fs s refl
    initialized_ne false fs = refl

    -- An operation on one key changes nothing of what is read for another.
    pub get_usage_ne :
        (get_usage h j (register_api_key h id status s) ≡ get_usage h j s)
        × (get_usage h j (initialize_api_key_usage h id status s) ≡ get_usage h j s)
        × (get_usage h j (reset_usage h id s) ≡ get_usage h j s)
        × (get_usage h j (delete_api_key_usage h id s) ≡ get_usage h j s)
    unfolding register_api_key initialize_api_key_usage reset_usage delete_api_key_usage
    get_usage_ne = (
      get_usage-cong j s _
          (hset_ne (status_fields status) _ (cleared_ne (is_empty (hgetall (key_name id) s)))),
      get_usage-cong j s _
          (initialized_ne (is_empty (hgetall (key_name id) s)) (status_fields status)),
      get_usage-cong j s _ (hset_ne (("usageCount", "0") ∷ []) s refl),
      get_usage-cong j s _ (cleared_ne false),
    )

    pub get_usage-increment_usage_ne :
        (c : Collection ApiKey api_key_key) (st : State h c)
        → st.redis ≡ s
        → get_usage h j (increment_usage h c id st).1.redis ≡ get_usage h j s
    unfolding increment_usage
    get_usage-increment_usage_ne c st e = get_usage-cong j s _ (
        hgetall-hincrby_ne (key_name id) "usageCount" (key_name j) st.redis names_differ
        ∙ ap (hgetall (key_name j)) e)
