-- ===== src/Gateway/Tests.antt =====
-- Two sockets of a gateway with one user in a room, on a platform that hides nothing.
use eventify.Common.{◌≡◌, refl, some, true, [], ◌∷◌, none, String}
use eventify.Iam.Platform.{Payload}
use eventify.Iam.Platform.Plain.{plain}
use eventify.Gateway.Late
use eventify.Gateway.Late.{connection_finish, places-connection_finish-disconnect}
use eventify.Gateway.Sockets
use eventify.Gateway.Sockets.{IsTidy, init, places, Reaches-IsTidy}
use eventify.Gateway.{disconnect, Gateway, Handshake, handle_connection, user_room}

abbrev ann : Payload
ann = record { sub = "u1"; email = none; role = none; refresh_token_id = none }

abbrev gateway : Gateway String
gateway = record {
  connected_clients = "s1" ∷ [];
  users = ("s1", ann) ∷ [];
  rooms = ("s1", user_room "u1") ∷ [];
  is_initialized = true;
  emitted = [];
}

abbrev handshake : Handshake
handshake = record { query_token = none; authorization = none }

abbrev carried : Handshake
carried = record { query_token = none; authorization = some "Bearer t" }

Reaches-IsTidy_example : IsTidy (handle_connection {D = String} plain 0 "s2" carried init)
Reaches-IsTidy_example =
    Reaches-IsTidy plain _
      (Sockets.Reaches.next Sockets.Reaches.here (Sockets.Step.connected 0 "s2" carried init refl))

places-connection_finish-disconnect_example :
    places "s1" (disconnect "s2" (connection_finish "s1" ann (disconnect "s1" gateway))) ≡ "s1" ∷ []
places-connection_finish-disconnect_example =
    places-connection_finish-disconnect plain "s1" ann gateway _
      (Late.Reaches.next Late.Reaches.here (Late.OtherStep.disconnected "s2" _ refl))
