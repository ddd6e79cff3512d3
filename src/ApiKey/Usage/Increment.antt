-- ===== src/ApiKey/Usage/Increment.antt =====
-- What one counted call does to the three counts of a key, in Redis, in the service and in MongoDB.
use text.Mathlib.TextPositions.{eq_refl}
use mathlib.Core.Option
use eventify.Common.{
  ℕ, suc, ◌+◌, ◌%◌, ◌≡◌, refl, Bool, false, ◌&&◌, Option, some, String, str_eq, eq_iff, arith,
  Bool-cases, Option-cases, inl, inr, if◌then◌else◌, ◌==◌,
}
use eventify.Common.Dict
use eventify.Common.Dict.{get-put}
use eventify.Common.Number.{pos, Number, decimal}
use eventify.Stores.Collection.{
  Collection, first, first_holds, first-update_first, first-update_first_ne,
}
use eventify.Stores.Hashes.{Hashes}
use eventify.ApiKey.Repository
use eventify.ApiKey.Repository.{ApiKey, api_key_key, has_key}
use eventify.ApiKey.Usage.{State, key_name, field, count_or_zero, increment_usage}
use eventify.ApiKey.Usage.Laws.{key_name_eq, parse_int-number}

abbrev pub count_set : Number → ApiKey → ApiKey
count_set n a = record a { usage_count = n }

module _ (h : Hashes) (c : Collection ApiKey api_key_key) where
  open h use {Store, hincrby, get-hincrby, hincrby_value}
  open c use {Docs, all, all-update_one}

  -- The hash of a key is there: it has its own key and a decimal count.
  abbrev pub Registered : String → Store → Type 0
  Registered id s =
      (n : ℕ) × (field h id "usageCount" s ≡ some (decimal n)) × (field h id "key" s ≡ some id)

  -- The count that MongoDB has for a key.
  abbrev pub stored : String → Docs → Option Number
  stored k d = Option.map (λ (a : ApiKey). a.usage_count) (first (has_key k) (all d))

  abbrev pub counter : String → State h c → ℕ
  counter k st = count_or_zero (Dict.get k st.sync_counter)

  pub field-increment :
      (id k f : String) (st : State h c) (n : ℕ)
      → field h id "usageCount" st.redis ≡ some (decimal n)
      → field h k f (increment_usage h c id st).1.redis ≡ (
          if str_eq id k && str_eq "usageCount" f
          then some (decimal (suc n))
          else field h k f st.redis)
  unfolding increment_usage
  field-increment id k f st n e =
      rw (get-hincrby (key_name id) "usageCount" (key_name k) f n st.redis e, key_name_eq) refl

  pub increment-Registered :
      (id k : String) (st : State h c)
      → Registered id st.redis
      → Registered k st.redis
      → Registered k (increment_usage h c id st).1.redis
  increment-Registered id k st (n, e, named) (m, e', named') = elim (Bool-cases (str_eq id k)) [
    | inl q ↦ (
      suc n,
      rw (field-increment id k "usageCount" st n e, q) refl,
      rw (field-increment id k "key" st n e, q) named',
    )
    | inr q ↦ (
      m,
      rw (field-increment id k "usageCount" st n e, q) e',
      rw (field-increment id k "key" st n e, q) named',
    )
  ]

  pub stored-update_ne :
      (id k : String) (n : Number) (d : Docs)
      → str_eq id k ≡ false
      → stored k (Repository.update_api_key_usage c id n d) ≡ stored k d
  unfolding Repository.update_api_key_usage
  stored-update_ne id k n d q =
      rw
        (
          all-update_one,
          first-update_first_ne (has_key k) (has_key id) (count_set n) (all d)
              (λ a e. ground (arith, eq_iff a.key id, eq_iff a.key k, eq_iff id k)) (λ a. refl),
        )
        refl

  pub stored-update :
      (k : String) (n : Number) (d : Docs) {m : Number}
      → stored k d ≡ some m
      → stored k (Repository.update_api_key_usage c k n d) ≡ some n
  unfolding Repository.update_api_key_usage
  stored-update k n d e = elim (Option-cases (first (has_key k) (all d))) [
    | inl z ↦ absurd (ground arith)
    | inr (a, z) ↦
        rw
          (
            all-update_one,
            first-update_first (has_key k) (count_set n) (all d) z
                (first_holds (has_key k) (all d) a z),
          )
          refl
  ]

  abbrev pub is_due : String → State h c → Bool
  is_due id st = (counter id st + 1) % 1000 == 0

  pub counter-increment :
      (id k : String) (st : State h c)
      → counter k (increment_usage h c id st).1
        ≡ (if str_eq id k then (if is_due id st then 0 else counter id st + 1) else counter k st)
  unfolding increment_usage
  counter-increment id k st = ground (
    arith,
    get-put id k (counter id st + 1) st.sync_counter,
    get-put id k 0 (Dict.put id (counter id st + 1) st.sync_counter),
  )

  pub api_keys-increment :
      (id : String) (st : State h c) (n : ℕ)
      → field h id "usageCount" st.redis ≡ some (decimal n)
      → field h id "key" st.redis ≡ some id
      → (increment_usage h c id st).1.api_keys ≡ (
          if is_due id st
          then Repository.update_api_key_usage c id (some (pos (suc n))) st.api_keys
          else st.api_keys)
  unfolding increment_usage
  api_keys-increment id st n e named = simp (
    get-hincrby (key_name id) "usageCount" (key_name id) "key" n st.redis e,
    eq_refl,
    named,
    hincrby_value (key_name id) "usageCount" n st.redis e,
    parse_int-number,
  )
