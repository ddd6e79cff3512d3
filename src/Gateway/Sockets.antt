-- ===== src/Gateway/Sockets.antt =====
-- Which sockets the gateway holds, and where each of them is.
use eventify.Common.{
  ℕ, ◌≡◌, refl, ◌∙◌, Bool, false, not, ◌&&◌, List, [], ◌∷◌, keep, keep-append, Option, none, some,
  String, str_eq, eq_iff, arith, Bool-cases, inl, inr,
}
use mathlib.Core.List.{append-nil}
use mathlib.Core.Path.{subst}
use text.Mathlib.TextPositions.{eq_refl}
use eventify.Common.Dict
use eventify.Common.Dict.{get-put, get-remove}
use eventify.Iam.Platform.{Platform, Payload}
use eventify.Gateway.{
  Gateway, Handshake, Emitted, to_client, user_room, include, exclude, leave, joined, emit,
  after_init, disconnect, handle_disconnect, handle_connection,
}
use eventify.Gateway.Laws.{
  rooms_of, keep_dropped, keep_nothing, connection_cases, rooms_of-disconnect, rooms_of-joined,
  rooms_of-disconnect_self,
}

pub keep-exclude_ne :
    (id j : String) (ids : List String)
    → str_eq id j ≡ false
    → keep (λ x. str_eq x j) (exclude id ids) ≡ keep (λ x. str_eq x j) ids
keep-exclude_ne id j ids differ =
    keep_dropped (λ x. not (str_eq x id)) (λ x. str_eq x j)
      (λ x h. ground (arith, eq_iff x j, eq_iff x id, eq_iff id j)) ids

keep-exclude_self :
    (id : String) (ids : List String) → keep (λ x. str_eq x id) (exclude id ids) ≡ []
keep-exclude_self id =
    keep_nothing (λ x. not (str_eq x id)) (λ x. str_eq x id) (λ x h. ground (arith, h))

pub places-include_ne :
    (id j : String) (ids : List String)
    → str_eq id j ≡ false
    → keep (λ x. str_eq x j) (include id ids) ≡ keep (λ x. str_eq x j) ids
places-include_ne id j ids differ =
    keep-append (λ x. str_eq x j) (exclude id ids) (id ∷ [])
    ∙ rw differ (append-nil _ ∙ keep-exclude_ne id j ids differ)

pub places-include_self :
    (id : String) (ids : List String) → keep (λ x. str_eq x id) (include id ids) ≡ id ∷ []
places-include_self id ids =
    keep-append (λ x. str_eq x id) (exclude id ids) (id ∷ [])
    ∙ rw (keep-exclude_self id ids, eq_refl) refl

keep_none : {A : Type 0} (p q : A → Bool) (xs : List A) → keep q xs ≡ [] → keep q (keep p xs) ≡ []
keep_none p q [] h = refl
keep_none p q (x ∷ xs) h = ground (arith, keep_none p q xs)

module _ {D : Type 0} where
  -- A socket among the connected ones: the list of its places there.
  abbrev pub places : String → Gateway D → List String
  places j s = keep (λ x. str_eq x j) s.connected_clients

  -- Where a socket with or without a user is: nowhere, or in the set and in the room of its user alone.
  abbrev pub IsAt : String → Gateway D → Option Payload → Type 0
  IsAt j s none = (places j s ≡ []) × (rooms_of j s ≡ [])
  IsAt j s (some payload) = (places j s ≡ j ∷ []) × (rooms_of j s ≡ (j, user_room payload.sub) ∷ [])

  abbrev pub IsTidy : Gateway D → Type 0
  IsTidy s = (j : String) → IsAt j s (Dict.get j s.users)

  IsAt-moved :
      (j : String) (s t : Gateway D) (o : Option Payload)
      → places j t ≡ places j s
      → rooms_of j t ≡ rooms_of j s
      → IsAt j s o
      → IsAt j t o
  IsAt-moved j s t none p r (places', rooms') = (p ∙ places', r ∙ rooms')
  IsAt-moved j s t (some payload) p r (places', rooms') = (p ∙ places', r ∙ rooms')

  disconnect-IsTidy : (id : String) (s : Gateway D) → IsTidy s → IsTidy (disconnect id s)
  unfolding disconnect handle_disconnect
  disconnect-IsTidy id s tidy j = elim (Bool-cases (str_eq id j)) [
    | inl q ↦
        rw (← (eq_iff id j).0 q, get-remove, eq_refl)
          (keep-exclude_self id s.connected_clients, rooms_of-disconnect_self id s)
    | inr q ↦
        rw (get-remove, q)
          (IsAt-moved j s (disconnect id s) (Dict.get j s.users)
            (keep-exclude_ne id j s.connected_clients q) (rooms_of-disconnect id j q s) (tidy j))
  ]

  -- A socket that has no user yet gets one.
  joined-IsTidy :
      (id : String) (payload : Payload) (s : Gateway D)
      → Dict.get id s.users ≡ none
      → IsTidy s
      → IsTidy (joined id payload s)
  joined-IsTidy id payload s fresh tidy j = elim (Bool-cases (str_eq id j)) [
    | inl q ↦
        rw (← (eq_iff id j).0 q, get-put, eq_refl)
          (
            places-include_self id s.connected_clients,
            keep-append (λ r. str_eq r.0 id) (leave id (user_room payload.sub) s.rooms)
                  ((id, user_room payload.sub) ∷ [])
                ∙ rw (nowhere, eq_refl) refl,
          )
    | inr q ↦
        rw (get-put, q)
          (IsAt-moved j s (joined id payload s) (Dict.get j s.users)
            (places-include_ne id j s.connected_clients q) (rooms_of-joined id j q payload s)
            (tidy j))
  ]
    where
      nowhere : keep (λ r. str_eq r.0 id) (leave id (user_room payload.sub) s.rooms) ≡ []
      nowhere =
          keep_none (λ r. not (str_eq r.0 id && str_eq r.1 (user_room payload.sub)))
            (λ r. str_eq r.0 id) s.rooms (subst (IsAt id s) fresh (tidy id)).1

  abbrev pub init : Gateway D
  init = record {
    connected_clients = [];
    users = [];
    rooms = [];
    is_initialized = false;
    emitted = [];
  }

  module _ (p : Platform) where
    -- What happens to the gateway: the server is up, a socket that is new connects or one goes, or
    -- something is sent.
    pub data Step : Gateway D → Gateway D → Type 0 where
      up : (s : Gateway D) → Step s (after_init s)
      connected :
          (now : ℕ) (id : String) (client : Handshake) (s : Gateway D)
          → Dict.get id s.users ≡ none
          → Step s (handle_connection p now id client s)
      disconnected : (id : String) (s : Gateway D) → Step s (disconnect id s)
      sent : (m : Emitted D) (s : Gateway D) → Step s (emit m s)

    pub data Reaches (s : Gateway D) : Gateway D → Type 0 where
      here : Reaches s s
      next : {t u : Gateway D} → Reaches s t → Step t u → Reaches s u

    connection-IsTidy :
        (now : ℕ) (id : String) (client : Handshake) (s : Gateway D)
        → Dict.get id s.users ≡ none
        → IsTidy s
        → IsTidy (handle_connection p now id client s)
    unfolding emit
    connection-IsTidy now id client s fresh tidy = elim (connection_cases p now id client s) [
      | inl (payload, (_, e)) ↦ rw e (joined-IsTidy id payload s fresh tidy)
      | inr (m, e) ↦ rw e (disconnect-IsTidy id (emit (to_client id m) s) tidy)
    ]

    Step-IsTidy : {s t : Gateway D} → Step s t → IsTidy s → IsTidy t
    unfolding emit after_init
    Step-IsTidy (up s) tidy = tidy
    Step-IsTidy (connected now id client s fresh) tidy =
        connection-IsTidy now id client s fresh tidy
    Step-IsTidy (disconnected id s) tidy = disconnect-IsTidy id s tidy
    Step-IsTidy (sent m s) tidy = tidy

    Reaches-IsTidy' : {s t : Gateway D} → Reaches s t → IsTidy s → IsTidy t
    Reaches-IsTidy' here tidy = tidy
    Reaches-IsTidy' (next r st) tidy = Step-IsTidy st (Reaches-IsTidy' r tidy)

    -- However sockets come and go, each with an id of its own: a socket that carries a user is among the
    -- connected ones, once, and in the room of its user and no other; any other socket is nowhere.
    pub Reaches-IsTidy : (s : Gateway D) → Reaches init s → IsTidy s
    Reaches-IsTidy s r = Reaches-IsTidy' r (λ j. (refl, refl))
