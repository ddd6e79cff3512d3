-- ===== src/ApiKey/Usage/Sync.antt =====
-- How far the usage count in MongoDB may lag behind the one in Redis.
use text.Mathlib.TextPositions.{eq_refl}
use native.Mathlib.Nat.{add-zero, zero-add}
use eventify.Common.{
  ℕ, suc, ◌+◌, ◌-◌, ◌%◌, ◌≡◌, refl, ap, ◌∙◌, Bool, true, false, List, [], ◌∷◌, none, some, String,
  str_eq, eq_iff, arith, Bool-cases, inl, inr, if◌then◌else◌, All, ltb,
}
use eventify.Common.Dict
use eventify.Common.Dict.{get-put}
use eventify.Common.Number.{pos, Number, decimal}
use eventify.Stores.Collection.{Collection}
use eventify.Stores.Hashes.{Hashes}
use eventify.ApiKey.Repository
use eventify.ApiKey.Repository.{ApiKey, api_key_key, has_key}
use eventify.ApiKey.Usage.{State, field, increment_usage, increment_all}
use eventify.ApiKey.Usage.Increment.{
  Registered, stored, counter, field-increment, increment-Registered, stored-update_ne,
  stored-update, is_due, counter-increment, api_keys-increment,
}

-- The calls for one key in a history of calls.
abbrev pub calls : String → List String → ℕ
calls k [] = 0
calls k (id ∷ ids) = (if str_eq id k then 1 else 0) + calls k ids

module _ (h : Hashes) (c : Collection ApiKey api_key_key) where
  open h use {Store}

  -- Where the three counts of a key stand after `n` calls, from the counts `u` in Redis and `m` in
  -- MongoDB, and no call counted by the service.
  pub record IsSynced (k : String) (u : ℕ) (m : Number) (n : ℕ) (st : State h c) : Type 0 where
    pub in_redis : field h k "usageCount" st.redis ≡ some (decimal (u + n))
    pub named : field h k "key" st.redis ≡ some k
    pub in_memory : counter h c k st ≡ n % 1000
    pub in_mongo :
        stored h c k st.api_keys ≡ some (if ltb n 1000 then m else some (pos (u + n - n % 1000)))

  module _ (k : String) (u : ℕ) (m : Number) (n : ℕ) (st : State h c)
      (v : IsSynced k u m n st) where
    -- A call for another key that is registered.
    increment_ne :
        (id : String)
        → str_eq id k ≡ false
        → Registered h c id st.redis
        → IsSynced k u m n (increment_usage h c id st).1
    increment_ne id q (i, e, named) = record {
      in_redis = rw (field-increment h c id k "usageCount" st i e, q) v.in_redis;
      named = rw (field-increment h c id k "key" st i e, q) v.named;
      in_memory = rw (counter-increment h c id k st, q) v.in_memory;
      in_mongo =
          rw (api_keys-increment h c id st i e named)
            (kept (is_due h c id st) (some (pos (suc i))) ∙ v.in_mongo);
    }
      where
        kept :
            (b : Bool) (a : Number)
            → stored h c k
                (if b then Repository.update_api_key_usage c id a st.api_keys else st.api_keys)
              ≡ stored h c k st.api_keys
        kept true a = stored-update_ne h c id k a st.api_keys q
        kept false a = refl

    -- A call for the key itself.
    increment_self : IsSynced k u m (suc n) (increment_usage h c k st).1
    increment_self = record {
      in_redis =
          rw (field-increment h c k k "usageCount" st (u + n) v.in_redis, eq_refl)
            (ap (λ x. some (decimal x)) (omega arith));
      named = rw (field-increment h c k k "key" st (u + n) v.in_redis, eq_refl) v.named;
      in_memory = rw (counter-increment h c k k st, eq_refl) (ground (arith, v.in_memory));
      in_mongo =
          rw (api_keys-increment h c k st (u + n) v.in_redis v.named)
            (elim (Bool-cases (is_due h c k st)) [
              | inl z ↦ rw z (
                  stored-update h c k (some (pos (suc (u + n)))) st.api_keys v.in_mongo
                  ∙ ground (arith, v.in_memory))
              | inr z ↦ rw z (v.in_mongo ∙ ground (arith, v.in_memory))
            ]);
    }

  Registered-step :
      (id : String) (ids : List String) (st : State h c)
      → Registered h c id st.redis
      → All (λ j. Registered h c j st.redis) ids
      → All (λ j. Registered h c j (increment_usage h c id st).1.redis) ids
  Registered-step id [] st r rs = tt
  Registered-step id (j ∷ ids) st r (q, rs) =
      (increment-Registered h c id j st r q, Registered-step id ids st r rs)

  increment_all-IsSynced' :
      (k : String) (u : ℕ) (m : Number) (n : ℕ) (ids : List String) (st : State h c)
      → All (λ j. Registered h c j st.redis) ids
      → IsSynced k u m n st
      → IsSynced k u m (n + calls k ids) (increment_all h c ids st)
  unfolding increment_all
  increment_all-IsSynced' k u m n [] st rs v = rw add-zero v
  increment_all-IsSynced' k u m n (id ∷ ids) st (r, rs) v = elim (Bool-cases (str_eq id k)) [
    | inl q ↦
        let e : n + calls k (id ∷ ids) ≡ suc n + calls k ids = rw q (omega arith) in
        rw e (
          increment_all-IsSynced' k u m (suc n) ids _ (Registered-step id ids st r rs)
            (rw ((eq_iff id k).0 q) (increment_self k u m n st v)))
    | inr q ↦
        let e : n + calls k (id ∷ ids) ≡ n + calls k ids = rw q (omega arith) in
        rw e (
          increment_all-IsSynced' k u m n ids _ (Registered-step id ids st r rs)
            (increment_ne k u m n st v id q r))
  ]

  -- Take a key whose document is in MongoDB, whose hash in Redis has its own key and a decimal count,
  -- and of which the service has no counter yet. Over any history of calls, counted one after the
  -- other, of keys whose hashes have their own key and a decimal count, with `n` calls for the key:
  -- Redis has the old count and all `n`, the service holds `n` modulo 1000, and MongoDB has its old
  -- count below 1000 calls, and then the count in Redis at the last multiple of 1000 calls.
  pub increment_all-IsSynced :
      (k : String) (u : ℕ) (m : Number) (ids : List String) (st : State h c)
      → All (λ j. Registered h c j st.redis) ids
      → field h k "usageCount" st.redis ≡ some (decimal u)
      → field h k "key" st.redis ≡ some k
      → Dict.get k st.sync_counter ≡ none
      → stored h c k st.api_keys ≡ some m
      → IsSynced k u m (calls k ids) (increment_all h c ids st)
  increment_all-IsSynced k u m ids st rs redis named unseen mongo = rw zero-add at (
      increment_all-IsSynced' k u m 0 ids st rs (record {
        in_redis = redis ∙ ap (λ x. some (decimal x)) (omega arith);
        named = named;
        in_memory = rw unseen refl;
        in_mongo = mongo;
      }))
