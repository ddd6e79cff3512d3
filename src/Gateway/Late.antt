-- ===== src/Gateway/Late.antt =====
-- A socket that goes while its token is being verified: `handleConnection` of
-- src/websocket/events-websocket.gateway.ts goes on after its `await`.
use eventify.Common.{ℕ, ◌≡◌, refl, ap, ◌∙◌, false, [], ◌∷◌, String, str_eq, inl, inr}
use eventify.Iam.Platform.{Platform, Payload}
use eventify.Gateway.{
  Gateway, Handshake, Emitted, to_client, initial_data, joined, emit, disconnect, handle_disconnect,
  handle_connection,
}
use eventify.Gateway.Laws.{Opens, connection_cases}
use eventify.Gateway.Sockets.{places, keep-exclude_ne, places-include_ne, places-include_self}

module _ {D : Type 0} where
  -- What is left of `handleConnection` once the token has verified.
  unfoldable pub connection_finish : String → Payload → Gateway D → Gateway D
  unfolding emit
  connection_finish id payload s =
      emit (to_client id (initial_data payload.sub)) (joined id payload s)

  places-disconnect_ne :
      (id j : String) (s : Gateway D)
      → str_eq id j ≡ false
      → places j (disconnect id s) ≡ places j s
  unfolding disconnect handle_disconnect
  places-disconnect_ne id j s differ = keep-exclude_ne id j s.connected_clients differ

  module _ (p : Platform) where
    -- With nothing in between, this is all that a handshake with a good token does.
    handle_connection-finish :
        (now : ℕ) (id : String) (client : Handshake) (s : Gateway D) (payload : Payload)
        → Opens p now id client s payload
        → handle_connection p now id client s ≡ connection_finish id payload s
    unfolding connection_finish handle_connection
    handle_connection-finish now id client s payload (token, e, filled, v) = rw (e, filled, v) refl

    -- Whatever the other sockets do.
    pub data OtherStep (id : String) : Gateway D → Gateway D → Type 0 where
      connected :
          (now : ℕ) (other : String) (client : Handshake) (s : Gateway D)
          → str_eq other id ≡ false
          → OtherStep id s (handle_connection p now other client s)
      disconnected :
          (other : String) (s : Gateway D)
          → str_eq other id ≡ false
          → OtherStep id s (disconnect other s)
      sent : (m : Emitted D) (s : Gateway D) → OtherStep id s (emit m s)

    pub data Reaches (id : String) (s : Gateway D) : Gateway D → Type 0 where
      here : Reaches id s s
      next : {t u : Gateway D} → Reaches id s t → OtherStep id t u → Reaches id s u

    places-OtherStep :
        {id : String} {s t : Gateway D} → OtherStep id s t → places id t ≡ places id s
    unfolding emit
    places-OtherStep {id} (connected now other client s differ) =
        elim (connection_cases p now other client s) [
          | inl (payload, (_, e)) ↦
              ap (places id) e ∙ places-include_ne other id s.connected_clients differ
          | inr (m, e) ↦
              ap (places id) e ∙ places-disconnect_ne other id (emit (to_client other m) s) differ
        ]
    places-OtherStep {id} (disconnected other s differ) = places-disconnect_ne other id s differ
    places-OtherStep (sent m s) = refl

    places-Reaches : {id : String} {s t : Gateway D} → Reaches id s t → places id t ≡ places id s
    places-Reaches here = refl
    places-Reaches (next r st) = places-OtherStep st ∙ places-Reaches r

    -- A socket that goes while its token is being verified is counted among the connected ones when the
    -- verification ends, and stays there whatever happens to the others: its own end has passed.
    pub places-connection_finish-disconnect :
        (id : String) (payload : Payload) (s t : Gateway D)
        → Reaches id (connection_finish id payload (disconnect id s)) t
        → places id t ≡ id ∷ []
    unfolding connection_finish
    places-connection_finish-disconnect id payload s t r =
        places-Reaches r ∙ places-include_self id (disconnect id s).connected_clients
