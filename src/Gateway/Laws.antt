-- ===== src/Gateway/Laws.antt =====
-- Who is in the room of a user.
use text.Mathlib.TextLemmas.{append_cancel_left}
use mathlib.Core.List.{append-nil}
use eventify.Common.{
  ℕ, ◌≡◌, ◌⊎◌, refl, sym, ap, ◌∙◌, Bool, true, false, not, ◌&&◌, List, [], ◌∷◌, keep, keep-append,
  none, some, String, str_eq, eq_iff, arith, Bool-cases, Option-cases, inl, inr,
}
use eventify.Common.Dict
use eventify.Common.Exec.{Outcome, ok, throw}
use eventify.Iam.Platform.{Platform, Payload}
use eventify.Gateway.{
  Gateway, Handshake, Message, to_client, error, initial_data, extract_token_from_header, user_room,
  leave, leave_all, joined, emit, disconnect, handle_disconnect, handle_connection,
}

-- Different users have different rooms.
pub user_room_eq : (a b : String) → str_eq (user_room a) (user_room b) ≡ str_eq a b
unfolding user_room
user_room_eq a b = elim (Bool-cases (str_eq a b)) [
  | inl e ↦ (eq_iff (user_room a) (user_room b)).1 (ap user_room ((eq_iff a b).0 e)) ∙ sym e
  | inr e ↦ elim (Bool-cases (str_eq (user_room a) (user_room b))) [
    | inl f ↦ absurd (
        same (
          sym e
          ∙ (eq_iff a b).1
              (append_cancel_left "user_" a b ((eq_iff (user_room a) (user_room b)).0 f))))
    | inr f ↦ f ∙ sym e
  ]
]
  where
    same : false ≡ true → ⊥
    same h = absurd (ground arith)

module _ {A : Type 0} (p q : A → Bool) where
  -- Dropping what the test refuses anyway.
  pub keep_dropped :
      ((x : A) → q x ≡ true → p x ≡ true) → (xs : List A) → keep q (keep p xs) ≡ keep q xs
  keep_dropped h [] = refl
  keep_dropped h (x ∷ xs) = ground (arith, h x, keep_dropped h xs)

  pub keep_nothing : ((x : A) → q x ≡ true → p x ≡ false) → (xs : List A) → keep q (keep p xs) ≡ []
  keep_nothing h [] = refl
  keep_nothing h (x ∷ xs) = ground (arith, h x, keep_nothing h xs)

module _ (id j : String) (differ : str_eq id j ≡ false) where
  keep-leave :
      (room : String) (rs : List (String × String))
      → keep (λ r. str_eq r.0 j) (leave id room rs) ≡ keep (λ r. str_eq r.0 j) rs
  keep-leave room =
      keep_dropped (λ r. not (str_eq r.0 id && str_eq r.1 room)) (λ r. str_eq r.0 j)
        (λ r h. ground (arith, eq_iff r.0 j, eq_iff r.0 id, eq_iff id j))

  keep-leave_all :
      (rs : List (String × String))
      → keep (λ r. str_eq r.0 j) (leave_all id rs) ≡ keep (λ r. str_eq r.0 j) rs
  keep-leave_all =
      keep_dropped (λ r. not (str_eq r.0 id)) (λ r. str_eq r.0 j)
        (λ r h. ground (arith, eq_iff r.0 j, eq_iff r.0 id, eq_iff id j))

module _ {D : Type 0} where
  abbrev pub rooms_of : String → Gateway D → List (String × String)
  rooms_of j s = keep (λ r. str_eq r.0 j) s.rooms

  module _ (id j : String) (differ : str_eq id j ≡ false) where
    rooms_of-handle_disconnect :
        (s : Gateway D) → rooms_of j (handle_disconnect id s) ≡ rooms_of j s
    unfolding handle_disconnect
    rooms_of-handle_disconnect s = elim (Option-cases (Dict.get id s.users)) [
      | inl e ↦ rw (handle_disconnect, e) refl
      | inr (payload, e) ↦
          rw (handle_disconnect, e) (keep-leave id j differ (user_room payload.sub) s.rooms)
    ]

    pub rooms_of-disconnect : (s : Gateway D) → rooms_of j (disconnect id s) ≡ rooms_of j s
    unfolding disconnect
    rooms_of-disconnect s =
        keep-leave_all id j differ (handle_disconnect id s).rooms ∙ rooms_of-handle_disconnect s

    pub rooms_of-joined :
        (payload : Payload) (s : Gateway D) → rooms_of j (joined id payload s) ≡ rooms_of j s
    rooms_of-joined payload s =
        keep-append (λ r. str_eq r.0 j) (leave id (user_room payload.sub) s.rooms)
          ((id, user_room payload.sub) ∷ [])
        ∙ rw differ (append-nil _ ∙ keep-leave id j differ (user_room payload.sub) s.rooms)

  pub rooms_of-disconnect_self : (id : String) (s : Gateway D) → rooms_of id (disconnect id s) ≡ []
  unfolding disconnect
  rooms_of-disconnect_self id s =
      keep_nothing (λ r. not (str_eq r.0 id)) (λ r. str_eq r.0 id) (λ r h. ground (arith, h))
        (handle_disconnect id s).rooms

  module _ (p : Platform) (now : ℕ) (id : String) (client : Handshake) (s : Gateway D) where
    -- The token of a handshake verifies, with a payload.
    abbrev pub Opens : Payload → Type 0
    Opens payload =
        (token : String) × (extract_token_from_header client ≡ some token)
        × (str_eq token "" ≡ false)
        × (p.verify now token ≡ ok payload)

    Outcome-cases :
        (o : Outcome String Payload)
        → ((m : String) × (o ≡ throw m)) ⊎ ((payload : Payload) × (o ≡ ok payload))
    Outcome-cases (ok payload) = inr (payload, refl)
    Outcome-cases (throw m) = inl (m, refl)

    -- A connection joins the room of its user, or is told an error and disconnected.
    pub connection_cases :
        ((payload : Payload) × (Opens payload
            × (handle_connection p now id client s
                ≡ emit (to_client id (initial_data payload.sub)) (joined id payload s))))
        ⊎ ((m : Message D) × (handle_connection p now id client s
              ≡ disconnect id (emit (to_client id m) s)))
    unfolding handle_connection emit
    connection_cases = elim (Option-cases (extract_token_from_header client)) [
      | inl e ↦ inr (error "Authentication token required" none, rw e refl)
      | inr (token, e) ↦ elim (Bool-cases (str_eq token "")) [
        | inl h ↦ inr (error "Authentication token required" none, rw (e, h) refl)
        | inr h ↦ elim (Outcome-cases (p.verify now token)) [
          | inl (m, v) ↦ inr (error "Authentication failed" (some m), rw (e, h, v) refl)
          | inr (payload, v) ↦ inl (payload, ((token, e, h, v), rw (e, h, v) refl))
        ]
      ]
    ]

    -- A connection leaves the rooms of every other socket as they were.
    pub handle_connection-rooms_of :
        (j : String)
        → str_eq id j ≡ false
        → rooms_of j (handle_connection p now id client s) ≡ rooms_of j s
    unfolding emit
    handle_connection-rooms_of j differ = elim connection_cases [
      | inl (payload, (o, e)) ↦ ap (rooms_of j) e ∙ rooms_of-joined id j differ payload s
      | inr (m, e) ↦ ap (rooms_of j) e ∙ rooms_of-disconnect id j differ (emit (to_client id m) s)
    ]

    -- A socket whose handshake has no token that verifies is in no room afterwards.
    pub handle_connection_refused :
        ((payload : Payload) → ¬ Opens payload)
        → rooms_of id (handle_connection p now id client s) ≡ []
    handle_connection_refused h = elim connection_cases [
      | inl (payload, (o, e)) ↦ absurd (h payload o)
      | inr (m, e) ↦ ap (rooms_of id) e ∙ rooms_of-disconnect_self id (emit (to_client id m) s)
    ]
