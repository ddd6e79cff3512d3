-- ===== src/Gateway.antt =====
-- src/websocket/events-websocket.gateway.ts: connections, the rooms of the users, and what is emitted.
-- A socket is known by its id. Messages are lists, oldest first; the time of the first message is left
-- out. Nothing else runs between the awaits of one connection, but in Late.
pub mod Laws
pub mod Rooms
pub mod Sockets
pub mod Late
pub mod Tests
use Prim.Native.String
use eventify.Common.{
  ℕ, Bool, true, false, not, ◌&&◌, List, [], ◌∷◌, ◌++◌, keep, Option, none, some, String, str_eq,
  if◌then◌else◌,
}
use eventify.Common.Dict
use eventify.Common.Exec.{Outcome, ok, throw}
use eventify.Http.Json.{filled}
use eventify.Iam.Guards.{word, after_space}
use eventify.Iam.Platform.{Platform, Payload}

-- What a socket brings along: the `token` of its query, if it is one text, and its header.
pub record Handshake : Type 0 where
  pub query_token : Option String
  pub authorization : Option String

pub data Message (D : Type 0) : Type 0 where
  events : D → Message D
  dashboard_data : D → Message D
  initial_data : String → Message D
  error : String → Option String → Message D

-- What is emitted: to one socket, or to all sockets of a room.
pub data Emitted (D : Type 0) : Type 0 where
  to_client : String → Message D → Emitted D
  to_room : String → Message D → Emitted D

-- The set of connected sockets, the users on the sockets, the rooms, and what was emitted.
pub record Gateway (D : Type 0) : Type 0 where
  pub connected_clients : List String
  pub users : List (String × Payload)
  pub rooms : List (String × String)
  pub is_initialized : Bool
  pub emitted : List (Emitted D)

unfoldable pub user_room : String → String
user_room user_id = String.◌++◌ "user_" user_id

-- `split(' ')` has two parts, and the first is `Bearer`.
abbrev pub bearer_token : String → Option String
bearer_token header = elim (after_space header) [
  | none ↦ none
  | some token ↦ elim (after_space token) [
    | none ↦ if str_eq (word header) "Bearer" then some token else none
    | some rest ↦ none
  ]
]

abbrev pub header_token : Option String → Option String
header_token none = none
header_token (some header) = bearer_token header

unfoldable pub extract_token_from_header : Handshake → Option String
unfolding filled word after_space
extract_token_from_header client = elim (filled client.query_token) [
  | some token ↦ some token
  | none ↦ header_token (filled client.authorization)
]

-- Adding to a set.
abbrev pub include : String → List String → List String
include id ids = keep (λ x. not (str_eq x id)) ids ++ id ∷ []

abbrev pub exclude : String → List String → List String
exclude id ids = keep (λ x. not (str_eq x id)) ids

-- The pairs of a socket and a room without one pair.
abbrev pub leave : String → String → List (String × String) → List (String × String)
leave id room = keep (λ r. not (str_eq r.0 id && str_eq r.1 room))

-- A socket that is disconnected leaves all rooms.
abbrev pub leave_all : String → List (String × String) → List (String × String)
leave_all id = keep (λ r. not (str_eq r.0 id))

module _ {D : Type 0} where
  unfoldable pub after_init : Gateway D → Gateway D
  after_init s = record s { is_initialized = true }

  unfoldable pub handle_disconnect : String → Gateway D → Gateway D
  unfolding user_room
  handle_disconnect id s = record s {
    connected_clients = exclude id s.connected_clients;
    rooms = elim (Dict.get id s.users) [
      | none ↦ s.rooms
      | some payload ↦ leave id (user_room payload.sub) s.rooms
    ];
  }

  -- `client.disconnect(true)`, which runs the handler; what the socket carries goes with it.
  unfoldable pub disconnect : String → Gateway D → Gateway D
  unfolding handle_disconnect
  disconnect id s =
      let after = handle_disconnect id s in
      record after { rooms = leave_all id after.rooms; users = Dict.remove id after.users }

  unfoldable pub emit : Emitted D → Gateway D → Gateway D
  emit m s = record s { emitted = s.emitted ++ m ∷ [] }

  abbrev pub joined : String → Payload → Gateway D → Gateway D
  joined id payload s = record s {
    users = Dict.put id payload s.users;
    connected_clients = include id s.connected_clients;
    rooms = leave id (user_room payload.sub) s.rooms ++ (id, user_room payload.sub) ∷ [];
  }

  unfoldable pub broadcast_to_user : String → D → Gateway D → Gateway D
  unfolding emit user_room
  broadcast_to_user user_id data' = emit (to_room (user_room user_id) (events data'))

  unfoldable pub broadcast_metrics : String → D → Gateway D → Gateway D
  unfolding emit user_room
  broadcast_metrics user_id metrics s =
      if s.is_initialized then emit (to_room (user_room user_id) (dashboard_data metrics)) s else s

  module _ (p : Platform) where
    abbrev pub verified_client : String → Outcome String Payload → Gateway D → Gateway D
    verified_client id (ok payload) s =
        emit (to_client id (initial_data payload.sub)) (joined id payload s)
    verified_client id (throw m) s =
        disconnect id (emit (to_client id (error "Authentication failed" (some m))) s)

    abbrev pub client_with : ℕ → String → Option String → Gateway D → Gateway D
    client_with now id none s =
        disconnect id (emit (to_client id (error "Authentication token required" none)) s)
    client_with now id (some token) s =
        if str_eq token ""
        then disconnect id (emit (to_client id (error "Authentication token required" none)) s)
        else verified_client id (p.verify now token) s

    unfoldable pub handle_connection : ℕ → String → Handshake → Gateway D → Gateway D
    unfolding extract_token_from_header user_room disconnect emit
    handle_connection now id client s = client_with now id (extract_token_from_header client) s
