-- ===== src/Events/Service/Laws.antt =====
-- Where the events of a stream go.
use eventify.Common.{
  ℕ, ◌≡◌, ◌↔◌, refl, ◌∙◌, sym, List, [], ◌∷◌, ◌++◌, map, String, str_eq, true, false, some,
  Option-cases, inl, inr, arith,
}
use eventify.Common.Exec.{ok}
use eventify.Common.Number.{ge_number}
use mathlib.Core.List.{append-nil, append_assoc}
use eventify.Stores.Collection.{Collection, first}
use eventify.Stores.Hashes.{Hashes}
use eventify.ApiKey.Repository.{ApiKey, api_key_key, has_key}
use eventify.ApiKey.Service
use eventify.ApiKey.Service.Laws.{validate_api_key_ok_iff}
use eventify.ApiKey.Usage.{increment_all, initialize_api_key_usage}
use eventify.Events.Request.{EventRequest}
use eventify.Events.Batcher
use eventify.Events.WebSocketBatcher
use eventify.Events.Service.{
  OwnedEvent, Ingestion, Entry, received, next, event_stream, status_of, intercept,
}

module _ (h : Hashes) (c : Collection ApiKey api_key_key) (id owner : String) where
  abbrev pub owned : ℕ × EventRequest → OwnedEvent
  owned (now, event) = record { owner_id = owner; event = event }

  abbrev pub stream_actions : List (ℕ × EventRequest) → List (Batcher.Action OwnedEvent)
  stream_actions = map (λ x. Batcher.Action.add x.0 (owned x))

  abbrev pub socket_actions : List (ℕ × EventRequest) → List (WebSocketBatcher.Action EventRequest)
  socket_actions = map (λ x. WebSocketBatcher.Action.add owner x.1)

  -- A stream of events counts one call of its key for each of them, gives each to the batcher of the
  -- database writer and to the batcher of its owner's sockets, queues each for the metrics, and answers
  -- each as received, all in the order in which they came, and whatever the usage limit.
  pub event_stream_lem :
      (es : List (ℕ × EventRequest)) (s : Ingestion h c)
      → let after = event_stream h c id owner es s in
        (after.usage ≡ increment_all h c (map (λ x. id) es) s.usage)
        × (after.stream_event_batcher ≡ Batcher.run s.stream_event_batcher (stream_actions es))
        × (after.stream_web_socket_batcher
            ≡ WebSocketBatcher.run s.stream_web_socket_batcher (socket_actions es))
        × (after.metrics_jobs ≡ s.metrics_jobs ++ map owned es)
        × (after.responses ≡ s.responses ++ map (λ x. received) es)
  unfolding event_stream next increment_all Batcher.run Batcher.step WebSocketBatcher.run
      WebSocketBatcher.step
  event_stream_lem [] s = (refl, refl, refl, sym (append-nil _), sym (append-nil _))
  event_stream_lem ((now, event) ∷ es) s =
      let (usage, stream, sockets, jobs, responses) =
        event_stream_lem es (next h c id owner now event s) in
      (
        usage,
        stream,
        sockets,
        jobs ∙ append_assoc s.metrics_jobs (owned (now, event) ∷ []) (map owned es),
        responses ∙ append_assoc s.responses (received ∷ []) (map (λ x. received) es),
      )

module _ (h : Hashes) (c : Collection ApiKey api_key_key) (key : String) (s : Entry h c) where
  open c use {all, find_one_lem}

  -- The key is not empty, and is that of a stored key that is active and below its limit.
  abbrev pub IsAccepted : ApiKey → Type 0
  IsAccepted k =
      (str_eq key "" ≡ false)
      × (first (has_key key) (all s.api_keys) ≡ some k)
      × (k.active ≡ true)
      × (ge_number k.usage_count k.usage_limit ≡ false)

  pub intercept_accepted :
      (k : ApiKey)
      → str_eq key "" ≡ false
      → first (has_key key) (all s.api_keys) ≡ some k
      → k.active ≡ true
      → ge_number k.usage_count k.usage_limit ≡ false
      → intercept h c (some key) s ≡ (
        ok (k.owner_id, k.key),
        record {
          api_keys = s.api_keys;
          redis = initialize_api_key_usage h k.key (status_of h c k) s.redis;
        },
      )
  unfolding intercept
  intercept_accepted k filled f active below =
      let accepted = (validate_api_key_ok_iff c key s.api_keys k).1 (f, active, below) in
      rw (filled, accepted) refl

  -- A stream is let in exactly for a key that is stored, active and below its limit; the handler is
  -- given the key's owner and the key, and its hash is there from then on.
  intercept_iff :
      (owner id : String) (after : Entry h c)
      → (intercept h c (some key) s ≡ (ok (owner, id), after)) ↔ (
          (k : ApiKey) × (IsAccepted k
            × (owner ≡ k.owner_id)
            × (id ≡ k.key)
            × (after ≡ record {
              api_keys = s.api_keys;
              redis = initialize_api_key_usage h k.key (status_of h c k) s.redis;
            })))
  unfolding intercept Service.validate_api_key
  intercept_iff owner id after = (there, back)
    where
      there :
          intercept h c (some key) s ≡ (ok (owner, id), after)
          → (k : ApiKey) × (IsAccepted k
              × (owner ≡ k.owner_id)
              × (id ≡ k.key)
              × (after ≡ record {
                api_keys = s.api_keys;
                redis = initialize_api_key_usage h k.key (status_of h c k) s.redis;
              }))
      there e = elim (Option-cases (first (has_key key) (all s.api_keys))) [
        | inl f ↦ absurd (ground (arith, find_one_lem (has_key key) s.api_keys))
        | inr (k, f) ↦ (
          k,
          (
            (
              ground (arith, find_one_lem (has_key key) s.api_keys),
              f,
              ground (arith, find_one_lem (has_key key) s.api_keys),
              ground (arith, find_one_lem (has_key key) s.api_keys),
            ),
            ground (arith, find_one_lem (has_key key) s.api_keys),
            ground (arith, find_one_lem (has_key key) s.api_keys),
            ground (arith, find_one_lem (has_key key) s.api_keys),
          ),
        )
      ]

      back :
          (k : ApiKey) × (IsAccepted k
              × (owner ≡ k.owner_id)
              × (id ≡ k.key)
              × (after ≡ record {
                api_keys = s.api_keys;
                redis = initialize_api_key_usage h k.key (status_of h c k) s.redis;
              }))
          → intercept h c (some key) s ≡ (ok (owner, id), after)
      back (k, ((filled, f, active, below), o, i, a)) =
          rw (o, i, a) (intercept_accepted k filled f active below)
