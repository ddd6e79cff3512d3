-- ===== src/ApiKey/Usage/Race.antt =====
-- `initializeApiKeyUsage` in its two phases, up to the answer of Redis to `EXISTS` and from there on: the
-- interceptor does not wait for it, so that calls may be counted between them.
use text.Mathlib.TextPositions.{eq_refl}
use native.Mathlib.Nat.{zero-add}
use eventify.Common.{
  ℕ, suc, ◌+◌, ◌%◌, ◌≡◌, refl, ap, ◌∙◌, Bool, true, not, List, [], ◌∷◌, none, String, arith, length,
  map, if◌then◌else◌,
}
use eventify.Common.Dict
use eventify.Stores.Collection.{Collection}
use eventify.Stores.Hashes.{Hashes}
use eventify.ApiKey.Repository.{ApiKey, api_key_key}
use eventify.ApiKey.Usage.{
  State, Status, key_name, status_fields, is_empty, initialize_api_key_usage, increment_usage,
  increment_all,
}
use eventify.ApiKey.Usage.Increment.{counter, counter-increment}
use eventify.ApiKey.Usage.Laws.{Holds, hset-Holds}

module _ (h : Hashes) where
  open h use {Store, hgetall, hset}

  -- `exists`.
  unfoldable pub initialize_begin : String → Store → Bool
  initialize_begin id s = not (is_empty (hgetall (key_name id) s))

  unfoldable pub initialize_finish : Bool → String → Status → Store → Store
  initialize_finish exists id status s =
      if exists then s else hset (key_name id) (status_fields status) s

  -- With nothing in between the phases are the whole.
  initialize_finish-begin :
      (id : String) (status : Status) (s : Store)
      → initialize_finish (initialize_begin id s) id status s
        ≡ initialize_api_key_usage h id status s
  unfolding initialize_begin initialize_finish initialize_api_key_usage
  initialize_finish-begin id status s = ground arith

  module _ (c : Collection ApiKey api_key_key) where
    counter-increment_all {ℓ} :
        {A : Type ℓ} (id : String) (n : ℕ) (xs : List A) (st : State h c)
        → counter h c id st ≡ n % 1000
        → counter h c id (increment_all h c (map (λ x. id) xs) st) ≡ (n + length xs) % 1000
    unfolding increment_all
    counter-increment_all id n [] st e = e ∙ omega arith
    counter-increment_all id n (x ∷ xs) st e =
        let grown : (suc n + length xs) % 1000 ≡ (n + length (x ∷ xs)) % 1000 = omega arith in
        counter-increment_all id (suc n) xs (increment_usage h c id st).1
          (rw (counter-increment h c id id st, eq_refl) (ground arith))
        ∙ grown

    -- Two phases of the initialisation of a key that has no hash, and any number of calls counted for the
    -- key between them: the service has counted the calls, and Redis has not, where the count is the one
    -- that the document had before.
    pub initialize_finish-increment_all {ℓ} :
        {A : Type ℓ} (id : String) (status : Status) (xs : List A) (st : State h c)
        → is_empty (hgetall (key_name id) st.redis) ≡ true
        → Dict.get id st.sync_counter ≡ none
        → let counted = increment_all h c (map (λ x. id) xs) st in
          (counter h c id counted ≡ length xs % 1000)
          × Holds h id status
              (initialize_finish (initialize_begin id st.redis) id status counted.redis)
    unfolding initialize_begin initialize_finish
    initialize_finish-increment_all id status xs st empty unseen = (
      counter-increment_all id 0 xs st (rw unseen refl) ∙ ap (λ n. n % 1000) (zero-add (length xs)),
      rw empty (hset-Holds h id status _),
    )
