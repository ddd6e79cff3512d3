-- ===== src/Events/Sessions/Laws.antt =====
-- How many events a key can send.
use Prim.Native.Char.{char}
use text.Mathlib.TextLemmas.{cons-append, cons-ne-nil}
use eventify.Common.{
  ℕ, ◌+◌, ◌-◌, ◌%◌, ◌≡◌, ◌⊎◌, refl, ap, sym, eq_iff, ◌∙◌, Bool, true, not, false, List, [], ◌∷◌,
  none, some, String, str_eq, arith, Bool-cases, inl, inr, length, map, ltb, if◌then◌else◌,
}
use eventify.Common.Dict
use eventify.Common.Exec.{Outcome, ok, throw}
use eventify.Common.Number.{pos, decimal, to_string, ge_number}
use eventify.Stores.Collection.{Collection}
use eventify.Stores.Hashes.{Hashes}
use eventify.ApiKey.Repository.{ApiKey, api_key_key}
use eventify.ApiKey.Service.{generate_api_key, create_api_key}
use eventify.ApiKey.Service.Laws.{
  document, create_inv, validate_used_up, validate_api_key_ok_iff, validate-create,
}
use eventify.ApiKey.Usage.{key_name, is_empty, initialize_api_key_usage}
use eventify.ApiKey.Usage.Increment.{count_set}
use eventify.ApiKey.Usage.Laws.{Holds, not_empty, initialize_api_key_usage_lem}
use eventify.ApiKey.Usage.Metered.{Counts, IsMetered, increment_all-IsMetered}
use eventify.Events.Request.{EventRequest}
use eventify.Events.Service.{Ingestion, Entry, intercept, event_stream, status_of}
use eventify.Events.Service.Laws.{event_stream_lem, intercept_accepted}
use eventify.Events.Sessions.{entry_of, with_entry, open_stream, open_streams}

abbrev pub is_let_in : {A : Type 0} → Outcome String A → Bool
is_let_in (ok _) = true
is_let_in (throw _) = false

-- The events counted of streams of the given lengths, from `n` on: a stream is let in while the last
-- multiple of 1000 is below the limit, and then counts as a whole.
abbrev pub quota : ℕ → ℕ → List ℕ → ℕ
quota limit n [] = n
quota limit n (m ∷ ms) = quota limit (if ltb (n - n % 1000) limit then n + m else n) ms

generate_api_key_filled : (owner bytes : String) → str_eq (generate_api_key owner bytes) "" ≡ false
unfolding generate_api_key
generate_api_key_filled owner bytes = elim (Bool-cases (str_eq (generate_api_key owner bytes) "")) [
  | inl e ↦
      absurd (
        cons-ne-nil (char 101 tt) _ (sym (cons-append (char 101 tt) "vntfy_" _) ∙ (eq_iff _ _).0 e))
  | inr e ↦ e
]

whole_thousands : (n : ℕ) → ltb (n - n % 1000) 5000 ≡ ltb n 5000
whole_thousands n = ground arith

module _ (h : Hashes) (c : Collection ApiKey api_key_key) where
  open h use {hgetall}

  -- An active key with a limit, after `n` counted events.
  pub record IsRunning (k : ApiKey) (limit n : ℕ) (s : Ingestion h c) : Type 0 where
    pub filled : str_eq k.key "" ≡ false
    pub active : k.active ≡ true
    pub limited : k.usage_limit ≡ some (pos limit)
    pub metered : IsMetered h c k n s.usage

  abbrev current : ApiKey → ℕ → ApiKey
  current k n = count_set (some (pos (n - n % 1000))) k

  abbrev pub registered : ApiKey → ℕ → Ingestion h c → Entry h c
  registered k n s = record {
    api_keys = s.usage.api_keys;
    redis = initialize_api_key_usage h k.key (status_of h c (current k n)) s.usage.redis;
  }

  limit_test :
      (k : ApiKey) (limit m : ℕ)
      → k.usage_limit ≡ some (pos limit)
      → (b : Bool) → ltb m limit ≡ not b
      → ge_number (some (pos m)) k.usage_limit ≡ b
  limit_test k limit m e true t = rw e (ground arith)
  limit_test k limit m e false t = rw e (ground arith)

  module _ (k : ApiKey) (limit n : ℕ) (s : Ingestion h c) (v : IsRunning k limit n s) where
    intercept_below :
        ltb (n - n % 1000) limit ≡ true
        → intercept h c (some k.key) (entry_of h c s) ≡ (ok (k.owner_id, k.key), registered k n s)
    intercept_below below =
        intercept_accepted h c k.key (entry_of h c s) (current k n) v.filled v.metered.in_mongo
          v.active (limit_test k limit _ v.limited false below)

    intercept_above :
        ltb (n - n % 1000) limit ≡ false
        → intercept h c (some k.key) (entry_of h c s) ≡ (
          throw
              "API key usage limit reached. Please upgrade your plan to continue using the service.",
          entry_of h c s,
        )
    unfolding intercept
    intercept_above above =
        rw
          (
            v.filled,
            validate_used_up c k.key s.usage.api_keys (current k n) v.metered.in_mongo v.active
                (limit_test k limit _ v.limited true above),
          )
          refl

    -- The hash of the key is there once a stream is let in.
    registered-Counts : Counts h c k.key n (registered k n s).redis
    unfolding to_string
    registered-Counts =
        both v.metered.in_redis
          (initialize_api_key_usage_lem h k.key (status_of h c (current k n)) s.usage.redis)
      where
        both :
            ((is_empty (hgetall (key_name k.key) s.usage.redis) ≡ true) × (n ≡ 0))
              ⊎ Counts h c k.key n s.usage.redis
            → ((is_empty (hgetall (key_name k.key) s.usage.redis) ≡ true)
                × Holds h k.key (status_of h c (current k n)) (registered k n s).redis)
              ⊎ ((is_empty (hgetall (key_name k.key) s.usage.redis) ≡ false)
                  × ((registered k n s).redis ≡ s.usage.redis))
            → Counts h c k.key n (registered k n s).redis
        both (inl (empty, fresh)) (inl (_, held)) = (
          let whole : n - n % 1000 ≡ n = omega (arith, fresh) in
              held.count_field ∙ ap (λ m. some (decimal m)) whole,
          held.key_field,
        )
        both (inl (empty, fresh)) (inr (there, _)) = absurd (ground arith)
        both (inr counts) (inl (empty, _)) =
            absurd
              (ground (arith, not_empty h (key_name k.key) "usageCount" s.usage.redis counts.0))
        both (inr counts) (inr (_, same)) = rw same counts

    streamed-IsRunning :
        (events : List (ℕ × EventRequest))
        → IsRunning k limit
            (n + length events)
            (event_stream h c k.key k.owner_id events (with_entry h c (registered k n s) s))
    streamed-IsRunning events =
        let usage =
          (event_stream_lem h c k.key k.owner_id events (with_entry h c (registered k n s) s)).0 in
        record {
          filled = v.filled;
          active = v.active;
          limited = v.limited;
          metered = rw usage (
              increment_all-IsMetered h c k n events _
                (record {
                  in_redis = inr registered-Counts;
                  in_memory = v.metered.in_memory;
                  in_mongo = v.metered.in_mongo;
                })
                registered-Counts);
        }

    -- What opening a stream makes of the counts.
    open_stream-IsRunning :
        (events : List (ℕ × EventRequest))
        → IsRunning k limit
            (if ltb (n - n % 1000) limit then n + length events else n)
            (open_stream h c (some k.key) events s).1
    unfolding open_stream
    open_stream-IsRunning events = elim (Bool-cases (ltb (n - n % 1000) limit)) [
      | inl below ↦ rw (below, open_stream, intercept_below below) (streamed-IsRunning events)
      | inr above ↦ rw (above, open_stream, intercept_above above) v
    ]

    is_let_in-open_stream :
        (events : List (ℕ × EventRequest))
        → is_let_in (open_stream h c (some k.key) events s).0 ≡ ltb (n - n % 1000) limit
    unfolding open_stream
    is_let_in-open_stream events = elim (Bool-cases (ltb (n - n % 1000) limit)) [
      | inl below ↦ rw (below, open_stream, intercept_below below) refl
      | inr above ↦ rw (above, open_stream, intercept_above above) refl
    ]

  open_streams-IsRunning :
      (k : ApiKey) (limit n : ℕ) (streams : List (List (ℕ × EventRequest))) (s : Ingestion h c)
      → IsRunning k limit n s
      → IsRunning k limit (quota limit n (map length streams)) (open_streams h c k.key streams s)
  unfolding open_streams
  open_streams-IsRunning k limit n [] s v = v
  open_streams-IsRunning k limit n (events ∷ rest) s v =
      open_streams-IsRunning k limit (if ltb (n - n % 1000) limit then n + length events else n)
        rest (open_stream h c (some k.key) events s).1 (open_stream-IsRunning k limit n s v events)

  -- A key that was just created, for which no call was counted by this service or in Redis: after any
  -- streams with it, one after the other, the counts are those of the quota of 5000, and the next stream
  -- is let in exactly if fewer than 5000 events were counted. A stream that is let in counts as a whole,
  -- beyond the quota as well.
  pub create_api_key-open_streams :
      (owner name bytes key : String) (d : c.Docs) (streams : List (List (ℕ × EventRequest)))
      (events : List (ℕ × EventRequest)) (s : Ingestion h c)
      → create_api_key c owner name bytes d ≡ (ok key, s.usage.api_keys)
      → is_empty (hgetall (key_name key) s.usage.redis) ≡ true
      → Dict.get key s.usage.sync_counter ≡ none
      → let n = quota 5000 0 (map length streams) in
        let after = open_streams h c key streams s in
        IsMetered h c (document c owner name key) n after.usage
        × (is_let_in (open_stream h c (some key) events after).0 ≡ ltb n 5000)
  create_api_key-open_streams owner name bytes key d streams events s created empty unseen =
      let k = document c owner name key in
      let n = quota 5000 0 (map length streams) in
      let found =
        ((validate_api_key_ok_iff c key s.usage.api_keys k).0
          (validate-create c owner name bytes d s.usage.api_keys key created)).0 in
      let after : IsRunning k 5000 n (open_streams h c key streams s) =
        open_streams-IsRunning k 5000 0 streams s (record {
          filled =
              rw (create_inv c owner name bytes d s.usage.api_keys key created).0
                (generate_api_key_filled owner bytes);
          active = refl;
          limited = refl;
          metered = record {
            in_redis = inl (empty, refl);
            in_memory = rw unseen refl;
            in_mongo = found;
          };
        }) in
      (
        after.metered,
        is_let_in-open_stream k 5000 n (open_streams h c key streams s) after events
            ∙ whole_thousands n,
      )
