-- ===== src/Lobby/Model.antt =====
-- The tables of lobby/src/models.py, and the events and broadcasts of lobby/src/service.py. A table is
-- the list of its rows in the order of insertion; a time is a number.
use sonalyze_backend.Prelude.{ℕ, String, Option, List, []}
use sonalyze_backend.Json.{Value, Fields}

pub data LobbyState : Type 0 where
  open_lobby measurement_running closed : LobbyState

pub data ParticipantRole : Type 0 where
  no_role microphone speaker : ParticipantRole

pub data ParticipantStatus : Type 0 where
  joined left : ParticipantStatus

pub record Lobby : Type 0 where
  pub id : String
  pub code : String
  pub creator_device_id : String
  pub state : LobbyState
  pub created_at : ℕ

pub record Participant : Type 0 where
  pub id : String
  pub lobby_id : String
  pub device_id : String
  pub role : ParticipantRole
  pub role_slot_id : Option String
  pub role_slot_label : Option String
  pub status : ParticipantStatus
  pub joined_at : ℕ
  pub left_at : Option ℕ

-- The columns `type` and `payload` of an event: each constructor is a type, with its payload.
pub data EventBody : Type 0 where
  lobby_created : String → String → EventBody
  participant_joined : String → EventBody
  participant_left : String → EventBody
  role_assigned : String → String → ParticipantRole → Option String → Option String → EventBody
  measurement_started : String → EventBody
  room_snapshot : String → EventBody
  step_update : String → Value → EventBody
  profile_update : String → String → EventBody

pub record LobbyEvent : Type 0 where
  pub id : ℕ
  pub lobby_id : String
  pub body : EventBody
  pub created_at : ℕ

-- The database, with the next number of the autoincremented key of the events.
pub record Db : Type 0 where
  pub lobbies : List Lobby
  pub participants : List Participant
  pub events : List LobbyEvent
  pub next_event_id : ℕ

abbrev pub empty_db : Db
empty_db = record { lobbies = []; participants = []; events = []; next_event_id = 1 }

-- The events that the service broadcasts: `lobby.updated`, by the `type` of its data,
-- `lobby.room_snapshot`, `lobby.step_update` and `lobby.profile_update`, with the lobby's id last.
pub data LobbyMessage : Type 0 where
  joined_update : String → String → LobbyMessage
  left_update : String → String → LobbyMessage
  role_update : String → ParticipantRole → Option String → Option String → String → LobbyMessage
  snapshot : Fields → String → ℕ → String → LobbyMessage
  step : Value → String → String → LobbyMessage
  profile : String → String → String → LobbyMessage

pub record LobbyBroadcast : Type 0 where
  pub targets : List String
  pub message : LobbyMessage
