-- ===== src/ApiKey/Usage/Metered.antt =====
-- The counts of a key from its creation on, and what counted calls for it make of them.
use text.Mathlib.TextPositions.{eq_refl}
use native.Mathlib.Nat.{add-zero}
use eventify.Common.{
  ℕ, suc, ◌+◌, ◌-◌, ◌%◌, ◌≡◌, ◌⊎◌, refl, ap, ◌∙◌, true, List, [], ◌∷◌, some, String, arith,
  Bool-cases, inl, inr, length, map,
}
use eventify.Common.Number.{pos, decimal}
use eventify.Stores.Collection.{Collection, first, first-update_first}
use eventify.Stores.Hashes.{Hashes}
use eventify.ApiKey.Repository
use eventify.ApiKey.Repository.{ApiKey, api_key_key, has_key}
use eventify.ApiKey.Usage.{State, key_name, field, is_empty, increment_usage, increment_all}
use eventify.ApiKey.Usage.Increment.{
  count_set, counter, is_due, field-increment, counter-increment, api_keys-increment,
}

module _ (h : Hashes) (c : Collection ApiKey api_key_key) where
  open h use {Store, hgetall}
  open c use {Docs, all, all-update_one}

  -- The hash of a key has the key and a count.
  abbrev pub Counts : String → ℕ → Store → Type 0
  Counts key n s =
      (field h key "usageCount" s ≡ some (decimal n)) × (field h key "key" s ≡ some key)

  -- After `n` counted calls of a key: the service holds `n` modulo 1000, MongoDB has the document with
  -- the last multiple of 1000, and Redis has the count, or no hash yet where no call was counted.
  pub record IsMetered (k : ApiKey) (n : ℕ) (st : State h c) : Type 0 where
    pub in_redis :
        ((is_empty (hgetall (key_name k.key) st.redis) ≡ true) × (n ≡ 0)) ⊎ Counts k.key n st.redis
    pub in_memory : counter h c k.key st ≡ n % 1000
    pub in_mongo :
        first (has_key k.key) (all st.api_keys) ≡ some (count_set (some (pos (n - n % 1000))) k)

  update-found :
      (k : ApiKey) (a b : ℕ) (d : Docs)
      → first (has_key k.key) (all d) ≡ some (count_set (some (pos a)) k)
      → first (has_key k.key) (all (Repository.update_api_key_usage c k.key (some (pos b)) d))
        ≡ some (count_set (some (pos b)) k)
  unfolding Repository.update_api_key_usage
  update-found k a b d found =
      rw all-update_one (
        first-update_first (has_key k.key) (count_set (some (pos b))) (all d) found (eq_refl k.key))

  increment-Counts :
      (k : ApiKey) (n : ℕ) (st : State h c)
      → Counts k.key n st.redis
      → Counts k.key (suc n) (increment_usage h c k.key st).1.redis
  increment-Counts k n st (count, named) = (
    rw (field-increment h c k.key k.key "usageCount" st n count, eq_refl) refl,
    rw (field-increment h c k.key k.key "key" st n count, eq_refl) named,
  )

  increment-IsMetered :
      (k : ApiKey) (n : ℕ) (st : State h c)
      → IsMetered k n st
      → Counts k.key n st.redis
      → IsMetered k (suc n) (increment_usage h c k.key st).1
  increment-IsMetered k n st v (count, named) = record {
    in_redis = inr (increment-Counts k n st (count, named));
    in_memory = rw (counter-increment h c k.key k.key st, eq_refl) (ground (arith, v.in_memory));
    in_mongo =
        rw (api_keys-increment h c k.key st n count named)
          (elim (Bool-cases (is_due h c k.key st)) [
            | inl z ↦ rw z (
                update-found k (n - n % 1000) (suc n) st.api_keys v.in_mongo
                ∙ ap (λ m. some (count_set (some (pos m)) k)) (ground (arith, v.in_memory)))
            | inr z ↦ rw z (
                v.in_mongo
                ∙ ap (λ m. some (count_set (some (pos m)) k)) (ground (arith, v.in_memory)))
          ]);
  }

  -- A call counted for each element of a list.
  pub increment_all-IsMetered {ℓ} :
      {A : Type ℓ} (k : ApiKey) (n : ℕ) (xs : List A) (st : State h c)
      → IsMetered k n st
      → Counts k.key n st.redis
      → IsMetered k (n + length xs) (increment_all h c (map (λ x. k.key) xs) st)
  unfolding increment_all
  increment_all-IsMetered k n [] st v counts = rw add-zero v
  increment_all-IsMetered k n (x ∷ xs) st v counts =
      let grown : n + length (x ∷ xs) ≡ suc n + length xs = omega arith in
      rw grown (
        increment_all-IsMetered k (suc n) xs _ (increment-IsMetered k n st v counts)
          (increment-Counts k n st counts))
