-- ===== src/Lobby/Request.antt =====
-- What lobby/src/gateway_handler.py receives and returns. The data of a client's message is a record
-- of the entries that the handlers read: `none` is an entry that is missing or null, and the entries
-- that the protocol declares as text are texts; a `reason` and an `error_message` are not null.
use sonalyze_backend.Prelude.{
  ℕ, suc, String, Bool, true, Option, none, some, List, [], ◌∷◌, map, ◌==◌, if◌then◌else◌,
}
use sonalyze_backend.Json.{Value}
use sonalyze_backend.Coordinator.Messages.{Reply, SessionError}
use sonalyze_backend.Coordinator.Start.{ClientInfo}
use sonalyze_backend.Coordinator.Table.{World}
use sonalyze_backend.Lobby.Model.{
  LobbyState, ParticipantRole, ParticipantStatus, Lobby, Participant, LobbyEvent,
}
use sonalyze_backend.Lobby.Monad.{DbSession, ServiceError}
use sonalyze_backend.Lobby.Service.{Env}

-- one object of the lists `speakers` and `microphones`
pub record Entry : Type 0 where
  pub device_id : Option String
  pub slot_id : Option String
  pub slot_label : Option String

pub record ClientData : Type 0 where
  pub code : Option String
  pub lobby_id : Option String
  pub target_device_id : Option String
  pub role : Option String
  pub role_slot_id : Option String
  pub role_slot_label : Option String
  pub profile_id : Option String
  pub job_id : Option String
  pub session_id : Option String
  pub audio_hash : Option String
  pub upload_name : Option String
  pub error_message : Option String
  pub error_code : Option String
  pub reason : Option String
  pub room : Option Value
  pub step_index : Option Value
  pub results : Option Value
  pub speakers : List Entry
  pub microphones : List Entry

abbrev pub no_data : ClientData
no_data = record {
  code = none;
  lobby_id = none;
  target_device_id = none;
  role = none;
  role_slot_id = none;
  role_slot_label = none;
  profile_id = none;
  job_id = none;
  session_id = none;
  audio_hash = none;
  upload_name = none;
  error_message = none;
  error_code = none;
  reason = none;
  room = none;
  step_index = none;
  results = none;
  speakers = [];
  microphones = [];
}

-- `not data.get(name)`
abbrev pub is_missing : Option String → Bool
is_missing none = true
is_missing (some t) = t == ""

-- `ParticipantOut`
pub record ParticipantOut : Type 0 where
  pub device_id : String
  pub role : ParticipantRole
  pub role_slot_id : Option String
  pub role_slot_label : Option String
  pub status : ParticipantStatus
  pub joined_at : ℕ
  pub left_at : Option ℕ

unfoldable pub participant_out : Participant → ParticipantOut
participant_out p = record {
  device_id = p.device_id;
  role = p.role;
  role_slot_id = p.role_slot_id;
  role_slot_label = p.role_slot_label;
  status = p.status;
  joined_at = p.joined_at;
  left_at = p.left_at;
}

-- the dict that `lobby.join` and `lobby.get` return
pub record LobbyView : Type 0 where
  pub lobby_id : String
  pub code : String
  pub admin_device_id : String
  pub state : LobbyState
  pub participants : List ParticipantOut

unfoldable pub lobby_view : Lobby → List Participant → LobbyView
unfolding participant_out
lobby_view lobby participants = record {
  lobby_id = lobby.id;
  code = lobby.code;
  admin_device_id = lobby.creator_device_id;
  state = lobby.state;
  participants = map participant_out participants;
}

-- the returned dicts
pub data Body : Type 0 where
  lobby_created : String → String → String → LobbyState → Body
  view : LobbyView → Body
  done : Body
  started : LobbyState → Body
  step_done : Value → Body
  profile_done : String → Body
  session_created : String → String → String → ℕ → ℕ → Body
  coordinator : Reply → Body
  log : String → List LobbyEvent → Body

-- the texts of the HTTP errors
pub data Detail : Type 0 where
  missing : String → Detail
  lobby_not_found : Detail
  invalid_role : String → Detail
  room_not_object : Detail
  no_speaker no_microphone : Detail
  speaker_incomplete microphone_incomplete : ℕ → Detail
  service : ServiceError → Detail
  session : SessionError → Detail
  unknown_event : String → Detail

pub data Response : Type 0 where
  body : Body → Response
  http : ℕ → Detail → Response

-- The state of the service: its database, what it has broadcast, and the session table.
pub record Service : Type 0 where
  pub db : DbSession
  pub coordinator : World

abbrev pub Handler : Type 0
Handler = Env → String → ClientData → Service → Response × Service

abbrev pub fail : ℕ → Detail → Service → Response × Service
fail status detail s = (http status detail, s)

-- `ParticipantRole(role_str)`
unfoldable pub parse_role : String → Option ParticipantRole
parse_role t =
    if t == "none"
    then some ParticipantRole.no_role
    else if t == "microphone"
    then some ParticipantRole.microphone
    else if t == "speaker"
    then some ParticipantRole.speaker
    else none

-- The entries of a list, or the place of the first that lacks a device or a slot.
pub data Checked : Type 0 where
  complete : List ClientInfo → Checked
  incomplete : ℕ → Checked

unfoldable pub add_entry : Option String → Option String → Option String → ℕ → Checked → Checked
add_entry (some d) (some t) label i (complete cs) =
    complete (record { device_id = d; slot_id = t; slot_label = label } ∷ cs)
add_entry (some d) (some t) label i (incomplete j) = incomplete j
add_entry _ _ label i rest = incomplete i

unfoldable pub check_entries : ℕ → List Entry → Checked
unfolding add_entry
check_entries i [] = complete []
check_entries i (e ∷ es) = add_entry e.device_id e.slot_id e.slot_label i (check_entries (suc i) es)
