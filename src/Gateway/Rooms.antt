-- ===== src/Gateway/Rooms.antt =====
-- Who can be in the room that the interval of the metrics sends to.
use eventify.Common.{
  ℕ, ◌≡◌, ◌∙◌, false, String, str_eq, All, All-append, All-keep, Option-cases, inl, inr,
}
use eventify.Common.Dict
use eventify.Iam.Platform.{Platform, Payload}
use eventify.Gateway.{
  Gateway, Handshake, Emitted, user_room, leave, joined, emit, disconnect, handle_disconnect,
  handle_connection, to_client,
}
use eventify.Gateway.Laws.{Opens, connection_cases, user_room_eq}

-- Another room than that of `all`.
abbrev pub Outside : String × String → Type 0
Outside r = str_eq r.1 (user_room "all") ≡ false

-- No socket is in the room `all`.
abbrev pub NobodyIn : {D : Type 0} → Gateway D → Type 0
NobodyIn s = All Outside s.rooms

module _ {D : Type 0} (p : Platform) where
  -- A socket that connects, one that goes, or a message. The user of a token is not called `all`.
  pub data Step : Gateway D → Gateway D → Type 0 where
    connected :
        (now : ℕ) (id : String) (client : Handshake) (s : Gateway D)
        → ((payload : Payload) → Opens p now id client s payload → str_eq payload.sub "all" ≡ false)
        → Step s (handle_connection p now id client s)
    disconnected : (id : String) (s : Gateway D) → Step s (disconnect id s)
    emitted : (m : Emitted D) (s : Gateway D) → Step s (emit m s)

  pub data Reaches : Gateway D → Gateway D → Type 0 where
    here : (s : Gateway D) → Reaches s s
    later : (s t u : Gateway D) → Step s t → Reaches t u → Reaches s u

  handle_disconnect-NobodyIn :
      (id : String) (s : Gateway D) → NobodyIn s → NobodyIn (handle_disconnect id s)
  unfolding handle_disconnect
  handle_disconnect-NobodyIn id s h = elim (Option-cases (Dict.get id s.users)) [
    | inl e ↦ rw (handle_disconnect, e) h
    | inr (payload, e) ↦ rw (handle_disconnect, e) (All-keep Outside _ s.rooms h)
  ]

  disconnect-NobodyIn : (id : String) (s : Gateway D) → NobodyIn s → NobodyIn (disconnect id s)
  unfolding disconnect
  disconnect-NobodyIn id s h =
      All-keep Outside _ (handle_disconnect id s).rooms (handle_disconnect-NobodyIn id s h)

  joined-NobodyIn :
      (id : String) (payload : Payload) (s : Gateway D)
      → str_eq payload.sub "all" ≡ false
      → NobodyIn s
      → NobodyIn (joined id payload s)
  joined-NobodyIn id payload s other h =
      All-append Outside (leave id (user_room payload.sub) s.rooms) _ (All-keep Outside _ s.rooms h)
        (user_room_eq payload.sub "all" ∙ other, tt)

  Step-NobodyIn : (s t : Gateway D) → Step s t → NobodyIn s → NobodyIn t
  unfolding emit
  Step-NobodyIn s _ (connected now id client _ other) h =
      elim (connection_cases p now id client s) [
        | inl (payload, (o, e)) ↦ rw e (joined-NobodyIn id payload s (other payload o) h)
        | inr (m, e) ↦ rw e (disconnect-NobodyIn id (emit (to_client id m) s) h)
      ]
  Step-NobodyIn s _ (disconnected id _) h = disconnect-NobodyIn id s h
  Step-NobodyIn s _ (emitted m _) h = h

  pub Reaches-NobodyIn : (s t : Gateway D) → Reaches s t → NobodyIn s → NobodyIn t
  Reaches-NobodyIn s _ (here _) h = h
  Reaches-NobodyIn s u (later _ t _ step rest) h =
      Reaches-NobodyIn t u rest (Step-NobodyIn s t step h)
