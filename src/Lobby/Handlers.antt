-- ===== src/Lobby/Handlers.antt =====
-- The handlers of the `lobby.*` and `role.*` events in lobby/src/gateway_handler.py.
use sonalyze_backend.Prelude.{ℕ, String, ◌||◌, Option, none, some, if◌then◌else◌}
use sonalyze_backend.Json.{Value, Fields}
use sonalyze_backend.Lobby.Model.{LobbyState, ParticipantRole, Lobby}
use sonalyze_backend.Lobby.Monad.{
  ServiceError, Result, ok, err, Action, pure, query, commit, ◌>>=◌, ◌>>◌,
}
use sonalyze_backend.Lobby.Service.{
  Env, get_lobby_by_id, get_lobby_by_code, list_participants, create_lobby,
}
use sonalyze_backend.Lobby.Operations.{
  join_lobby, leave_lobby, assign_role, start_measurement, share_room_snapshot,
  broadcast_step_update, broadcast_profile_update,
}
use sonalyze_backend.Lobby.Request.{
  is_missing, Body, Detail, Response, body, http, Service, Handler, fail, lobby_view, parse_role,
}

-- The status of each exception class in a handler's `except` clauses; what no clause names is the 500
-- of `gateway_handle`.
abbrev pub internal : ServiceError → ℕ
internal e = 500

abbrev pub permission_or_lookup : ServiceError → ℕ
permission_or_lookup ServiceError.not_admin = 403
permission_or_lookup ServiceError.target_not_found = 404
permission_or_lookup _ = 500

abbrev pub permission_or_state : ServiceError → ℕ
permission_or_state ServiceError.not_admin = 403
permission_or_state ServiceError.not_open = 409
permission_or_state ServiceError.not_startable = 409
permission_or_state _ = 500

abbrev pub permission_or_value : ServiceError → ℕ
permission_or_value ServiceError.not_admin = 403
permission_or_value ServiceError.not_open = 400
permission_or_value ServiceError.not_startable = 400
permission_or_value _ = 500

abbrev pub permission_only : ServiceError → ℕ
permission_only ServiceError.not_admin = 403
permission_only _ = 500

abbrev pub answer : (ServiceError → ℕ) → Result Body → Response
answer status (ok b) = body b
answer status (err e) = http (status e) (Detail.service e)

-- The work of a handler on the database, and the answer by what it returns or raises.
unfoldable pub respond : (ServiceError → ℕ) → Action Body → Service → Response × Service
respond status m s = let (r, db) = m s.db in (answer status r, record s { db = db })

-- `lobby = await get_lobby_by_id(...)`, and the 404 where there is none
unfoldable pub with_lobby :
    Option Lobby → (Lobby → Service → Response × Service) → Service → Response × Service
with_lobby none next s = fail 404 Detail.lobby_not_found s
with_lobby (some lobby) next s = next lobby s

abbrev pub by_id : Option String → Service → Option Lobby
by_id none s = none
by_id (some lobby_id) s = get_lobby_by_id lobby_id s.db.working

abbrev pub by_code : Option String → Service → Option Lobby
by_code none s = none
by_code (some code) s = get_lobby_by_code code s.db.working

unfoldable pub create_action : Env → String → Action Body
create_action env client = do
  lobby ← create_lobby env client
  commit
  pure (Body.lobby_created lobby.id lobby.code lobby.creator_device_id lobby.state)

unfoldable pub handle_lobby_create : Handler
unfolding respond create_action create_lobby
handle_lobby_create env client data_in = respond internal (create_action env client)

unfoldable pub join_action : Env → String → Lobby → Action Body
join_action env client lobby = do
  join_lobby env lobby client
  participants ← query (list_participants lobby.id)
  commit
  pure (Body.view (lobby_view lobby participants))

unfoldable pub join_as : Env → String → Lobby → Service → Response × Service
unfolding respond join_action join_lobby list_participants lobby_view
join_as env client lobby = respond internal (join_action env client lobby)

unfoldable pub handle_lobby_join : Handler
unfolding join_as with_lobby get_lobby_by_code
handle_lobby_join env client data_in s =
    if is_missing data_in.code
    then fail 400 (Detail.missing "code") s
    else with_lobby (by_code data_in.code s) (join_as env client) s

unfoldable pub leave_action : Env → String → Lobby → Action Body
leave_action env client lobby = do leave_lobby env lobby client; commit; pure Body.done

unfoldable pub leave_by : Env → String → Lobby → Service → Response × Service
unfolding respond leave_action leave_lobby
leave_by env client lobby = respond internal (leave_action env client lobby)

unfoldable pub handle_lobby_leave : Handler
unfolding leave_by with_lobby get_lobby_by_id
handle_lobby_leave env client data_in s =
    if is_missing data_in.lobby_id
    then fail 400 (Detail.missing "lobby_id") s
    else with_lobby (by_id data_in.lobby_id s) (leave_by env client) s

unfoldable pub view_action : Lobby → Action Body
view_action lobby = do
  participants ← query (list_participants lobby.id)
  pure (Body.view (lobby_view lobby participants))

unfoldable pub view_lobby : Lobby → Service → Response × Service
unfolding respond view_action list_participants lobby_view
view_lobby lobby = respond internal (view_action lobby)

unfoldable pub handle_lobby_get : Handler
unfolding view_lobby with_lobby get_lobby_by_id get_lobby_by_code
handle_lobby_get env client data_in s =
    if is_missing data_in.lobby_id
    then (if is_missing data_in.code
        then fail 400 (Detail.missing "lobby_id or code") s
        else with_lobby (by_code data_in.code s) view_lobby s)
    else with_lobby (by_id data_in.lobby_id s) view_lobby s

unfoldable pub assign_action :
    Env → String → String → ParticipantRole → Option String → Option String → Lobby → Action Body
assign_action env client target role slot_id slot_label lobby = do
  assign_role env lobby client target role slot_id slot_label
  commit
  pure Body.done

unfoldable pub assign_as :
    Env
    → String
    → String
    → ParticipantRole
    → Option String
    → Option String
    → Lobby
    → Service
    → Response × Service
unfolding respond assign_action assign_role
assign_as env client target role slot_id slot_label lobby =
    respond permission_or_lookup (assign_action env client target role slot_id slot_label lobby)

-- the handler once the target and the role's text are there, and the lobby is found
unfoldable pub assign_in :
    Env
    → String
    → Option String
    → Option String
    → Option String
    → Option String
    → Lobby
    → Service
    → Response × Service
unfolding assign_as parse_role
assign_in env client (some target) (some role_text) slot_id slot_label lobby s =
    elim (parse_role role_text) [
      | none ↦ fail 400 (Detail.invalid_role role_text) s
      | some role ↦ assign_as env client target role slot_id slot_label lobby s
    ]
assign_in env client _ _ slot_id slot_label lobby s =
    fail 400 (Detail.missing "lobby_id, target_device_id or role") s

unfoldable pub handle_role_assign : Handler
unfolding assign_in with_lobby get_lobby_by_id
handle_role_assign env client data_in s =
    if is_missing data_in.lobby_id
      || (is_missing data_in.target_device_id || is_missing data_in.role)
    then fail 400 (Detail.missing "lobby_id, target_device_id or role") s
    else with_lobby (by_id data_in.lobby_id s)
        (assign_in env client data_in.target_device_id data_in.role data_in.role_slot_id
          data_in.role_slot_label)
        s

-- After the start the row of the lobby has the new state, which is returned.
unfoldable pub start_action : Env → String → Lobby → Action Body
start_action env client lobby = do
  start_measurement env lobby client
  commit
  pure (Body.started LobbyState.measurement_running)

unfoldable pub start_in : Env → String → Lobby → Service → Response × Service
unfolding respond start_action start_measurement
start_in env client lobby = respond permission_or_state (start_action env client lobby)

unfoldable pub handle_lobby_start : Handler
unfolding start_in with_lobby get_lobby_by_id
handle_lobby_start env client data_in s =
    if is_missing data_in.lobby_id
    then fail 400 (Detail.missing "lobby_id") s
    else with_lobby (by_id data_in.lobby_id s) (start_in env client) s

unfoldable pub share_action : Env → String → Fields → Lobby → Action Body
share_action env client room lobby = do
  share_room_snapshot env lobby client room
  commit
  pure Body.done

unfoldable pub share_in : Env → String → Value → Lobby → Service → Response × Service
unfolding respond share_action share_room_snapshot
share_in env client (Value.object room) lobby s =
    respond permission_or_value (share_action env client room lobby) s
share_in env client _ lobby s = fail 400 Detail.room_not_object s

unfoldable pub handle_lobby_room_snapshot : Handler
unfolding share_in with_lobby get_lobby_by_id
handle_lobby_room_snapshot env client data_in s =
    if is_missing data_in.lobby_id
    then fail 400 (Detail.missing "lobby_id") s
    else elim data_in.room [
      | none ↦ fail 400 (Detail.missing "room") s
      | some room ↦ with_lobby (by_id data_in.lobby_id s) (share_in env client room) s
    ]

-- There is no `session.commit()` in this handler, nor in the next.
unfoldable pub step_action : Env → String → Value → Lobby → Action Body
step_action env client step_index lobby = do
  broadcast_step_update env lobby client step_index
  pure (Body.step_done step_index)

unfoldable pub step_in : Env → String → Value → Lobby → Service → Response × Service
unfolding respond step_action broadcast_step_update
step_in env client step_index lobby =
    respond permission_only (step_action env client step_index lobby)

unfoldable pub handle_lobby_step_update : Handler
unfolding step_in with_lobby get_lobby_by_id
handle_lobby_step_update env client data_in s =
    if is_missing data_in.lobby_id
    then fail 400 (Detail.missing "lobby_id") s
    else elim data_in.step_index [
      | none ↦ fail 400 (Detail.missing "step_index") s
      | some step_index ↦ with_lobby (by_id data_in.lobby_id s) (step_in env client step_index) s
    ]

unfoldable pub profile_action : Env → String → String → Lobby → Action Body
profile_action env client profile_id lobby = do
  broadcast_profile_update env lobby client profile_id
  pure (Body.profile_done profile_id)

unfoldable pub profile_in : Env → String → Option String → Lobby → Service → Response × Service
unfolding respond profile_action broadcast_profile_update
profile_in env client none lobby s = fail 400 (Detail.missing "profile_id") s
profile_in env client (some profile_id) lobby s =
    respond permission_only (profile_action env client profile_id lobby) s

unfoldable pub handle_lobby_profile_update : Handler
unfolding profile_in with_lobby get_lobby_by_id
handle_lobby_profile_update env client data_in s =
    if is_missing data_in.lobby_id
    then fail 400 (Detail.missing "lobby_id") s
    else if is_missing data_in.profile_id
    then fail 400 (Detail.missing "profile_id") s
    else with_lobby (by_id data_in.lobby_id s) (profile_in env client data_in.profile_id) s
