-- ===== src/Lobby/Operations.antt =====
-- The operations on a lobby of lobby/src/service.py. Each takes the lobby row that the handler has
-- fetched.
use sonalyze_backend.Prelude.{
  ℕ, String, Bool, true, false, not, ◌&&◌, Option, none, some, List, [], ◌∷◌, ◌==◌, ltb, leb,
  if◌then◌else◌, select,
}
use sonalyze_backend.Json.{Value, Fields}
use sonalyze_backend.Lobby.Model.{
  LobbyState, ParticipantRole, ParticipantStatus, Lobby, Participant, EventBody, LobbyEvent, Db,
  LobbyMessage,
}
use sonalyze_backend.Lobby.Monad.{Action, ServiceError, pure, query, ◌>>=◌, ◌>>◌, raise_if, modify}
use sonalyze_backend.Lobby.Service.{
  Env, is_open, is_joined, find_participant, update_first, update_participant, append_event,
  broadcast_lobby_update, broadcast_but, new_participant, insert_participant,
}

abbrev pub rejoin : Participant → Participant
rejoin p = record p { status = ParticipantStatus.joined; left_at = none }

-- a new row for a device that was never there, and the old one for a device that comes back
unfoldable pub enter : Env → String → String → Option Participant → Action (Unit {0})
unfolding update_first
enter env lobby_id device_id none =
    modify (insert_participant (new_participant env lobby_id device_id))
enter env lobby_id device_id (some _) = modify (update_participant lobby_id device_id rejoin)

unfoldable pub join_lobby : Env → Lobby → String → Action (Unit {0})
unfolding enter find_participant append_event broadcast_lobby_update
join_lobby env lobby device_id = do
  raise_if (not (is_open lobby.state)) ServiceError.not_open
  found ← query (find_participant lobby.id device_id)
  enter env lobby.id device_id found
  modify (append_event env lobby.id (EventBody.participant_joined device_id))
  broadcast_lobby_update lobby.id (LobbyMessage.joined_update device_id lobby.id)

abbrev pub depart : Env → Participant → Participant
depart env p = record p { status = ParticipantStatus.left; left_at = some env.now }

-- `leave_lobby` for a device that has a row
unfoldable pub leave_as : Env → Lobby → String → Action (Unit {0})
unfolding update_first append_event broadcast_lobby_update
leave_as env lobby device_id = do
  modify (update_participant lobby.id device_id (depart env))
  modify (append_event env lobby.id (EventBody.participant_left device_id))
  broadcast_lobby_update lobby.id (LobbyMessage.left_update device_id lobby.id)

unfoldable pub leave_lobby : Env → Lobby → String → Action (Unit {0})
unfolding leave_as find_participant
leave_lobby env lobby device_id = query (find_participant lobby.id device_id) >>= λ found.
    elim found [ none ↦ pure tt | some _ ↦ leave_as env lobby device_id ]

-- `_require_admin`
unfoldable pub require_admin : Lobby → String → Action (Unit {0})
require_admin lobby admin_device_id =
    raise_if (not (lobby.creator_device_id == admin_device_id)) ServiceError.not_admin

abbrev pub is_no_role : ParticipantRole → Bool
is_no_role ParticipantRole.no_role = true
is_no_role _ = false

unfoldable pub set_role :
    ParticipantRole → Option String → Option String → Participant → Participant
set_role role slot_id slot_label p = record p {
  role = role;
  role_slot_id = if is_no_role role then none else slot_id;
  role_slot_label = if is_no_role role then none else slot_label;
}

abbrev pub is_present : Option Participant → Bool
is_present none = false
is_present (some p) = is_joined p.status

unfoldable pub assign_role :
    Env
    → Lobby
    → String
    → String
    → ParticipantRole
    → Option String
    → Option String
    → Action (Unit {0})
unfolding require_admin find_participant update_first set_role append_event broadcast_lobby_update
assign_role env lobby admin_device_id target_device_id role slot_id slot_label = do
  require_admin lobby admin_device_id
  found ← query (find_participant lobby.id target_device_id)
  raise_if (not (is_present found)) ServiceError.target_not_found
  modify (update_participant lobby.id target_device_id (set_role role slot_id slot_label))
  let id = if is_no_role role then none else slot_id
  let label = if is_no_role role then none else slot_label
  modify (
      append_event env lobby.id
        (EventBody.role_assigned admin_device_id target_device_id role id label))
  broadcast_lobby_update lobby.id (LobbyMessage.role_update target_device_id role id label lobby.id)

abbrev pub run_measurement : Lobby → Lobby
run_measurement l = record l { state = LobbyState.measurement_running }

abbrev pub update_lobby : String → (Lobby → Lobby) → Db → Db
update_lobby lobby_id f db = record db {
  lobbies = update_first (λ l. l.id == lobby_id) f db.lobbies;
}

unfoldable pub start_measurement : Env → Lobby → String → Action (Unit {0})
unfolding require_admin update_first append_event
start_measurement env lobby admin_device_id = do
  require_admin lobby admin_device_id
  raise_if (not (is_open lobby.state)) ServiceError.not_startable
  modify (update_lobby lobby.id run_measurement)
  modify (append_event env lobby.id (EventBody.measurement_started admin_device_id))

-- the handler has made sure that `room` is an object
unfoldable pub share_room_snapshot : Env → Lobby → String → Fields → Action (Unit {0})
unfolding require_admin append_event broadcast_but
share_room_snapshot env lobby admin_device_id room = do
  require_admin lobby admin_device_id
  modify (append_event env lobby.id (EventBody.room_snapshot admin_device_id))
  broadcast_but admin_device_id lobby.id
      (LobbyMessage.snapshot room admin_device_id env.now lobby.id)

unfoldable pub broadcast_step_update : Env → Lobby → String → Value → Action (Unit {0})
unfolding require_admin append_event broadcast_but
broadcast_step_update env lobby admin_device_id step_index = do
  require_admin lobby admin_device_id
  modify (append_event env lobby.id (EventBody.step_update admin_device_id step_index))
  broadcast_but admin_device_id lobby.id (LobbyMessage.step step_index admin_device_id lobby.id)

unfoldable pub broadcast_profile_update : Env → Lobby → String → String → Action (Unit {0})
unfolding require_admin append_event broadcast_but
broadcast_profile_update env lobby admin_device_id profile_id = do
  require_admin lobby admin_device_id
  modify (append_event env lobby.id (EventBody.profile_update admin_device_id profile_id))
  broadcast_but admin_device_id lobby.id (LobbyMessage.profile profile_id admin_device_id lobby.id)

-- `ORDER BY id ASC`
unfoldable pub insert_by_id : LobbyEvent → List LobbyEvent → List LobbyEvent
insert_by_id e [] = e ∷ []
insert_by_id e (f ∷ es) =
    let rest = insert_by_id e es in if leb e.id f.id then e ∷ f ∷ es else f ∷ rest

unfoldable pub order_by_id : List LobbyEvent → List LobbyEvent
unfolding insert_by_id
order_by_id [] = []
order_by_id (e ∷ es) = insert_by_id e (order_by_id es)

unfoldable pub get_events : String → Option ℕ → Db → List LobbyEvent
unfolding order_by_id
get_events lobby_id none db = order_by_id (select (λ e. e.lobby_id == lobby_id) db.events)
get_events lobby_id (some after_id) db =
    order_by_id (select (λ e. (e.lobby_id == lobby_id) && ltb after_id e.id) db.events)
