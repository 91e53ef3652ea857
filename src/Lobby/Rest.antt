-- ===== src/Lobby/Rest.antt =====
-- The REST routes of lobby/src/main.py. A request has passed the validation of lobby/src/schemas.py, so
-- its entries are arguments.
use sonalyze_backend.Prelude.{ℕ, String, Option}
use sonalyze_backend.Lobby.Model.{LobbyState, ParticipantRole, Lobby}
use sonalyze_backend.Lobby.Monad.{ServiceError, Action, pure, query, commit, ◌>>=◌, ◌>>◌}
use sonalyze_backend.Lobby.Service.{
  Env, get_lobby_by_id, get_lobby_by_code, list_participants, create_lobby,
}
use sonalyze_backend.Lobby.Operations.{
  join_lobby, leave_lobby, assign_role, start_measurement, get_events,
}
use sonalyze_backend.Lobby.Request.{Body, Response, Service, lobby_view}
use sonalyze_backend.Lobby.Handlers.{respond, with_lobby}
use sonalyze_backend.Lobby.Gateway.{begin}

abbrev pub Route : Type 0
Route = Service → Response × Service

-- What a route leaves: its session is closed, and with it goes what is not committed.
abbrev pub serve : Route → Route
serve route s = let (r, s') = route (begin s) in (r, begin s')

-- The status of each exception in the `except` clauses; one that no clause names is a 500.
abbrev pub any_error : ServiceError → ℕ
any_error e = 500

abbrev pub value_error : ServiceError → ℕ
value_error ServiceError.not_open = 409
value_error ServiceError.not_startable = 409
value_error _ = 500

abbrev pub permission_lookup : ServiceError → ℕ
permission_lookup ServiceError.not_admin = 403
permission_lookup ServiceError.target_not_found = 404
permission_lookup _ = 500

abbrev pub permission_value : ServiceError → ℕ
permission_value ServiceError.not_admin = 403
permission_value ServiceError.not_open = 409
permission_value ServiceError.not_startable = 409
permission_value _ = 500

abbrev pub create_body : Env → String → Action Body
create_body env creator = do
  lobby ← create_lobby env creator
  commit
  pure (Body.lobby_created lobby.id lobby.code lobby.creator_device_id lobby.state)

unfoldable pub create : Env → String → Route
unfolding respond create_lobby
create env creator = serve (respond any_error (create_body env creator))

abbrev pub join_body : Env → String → Lobby → Action Body
join_body env device lobby = do
  join_lobby env lobby device
  participants ← query (list_participants lobby.id)
  commit
  pure (Body.view (lobby_view lobby participants))

unfoldable pub join : Env → String → String → Route
unfolding respond with_lobby get_lobby_by_code join_lobby list_participants lobby_view
join env code device = serve (λ s.
    with_lobby (get_lobby_by_code code s.db.working)
      (λ lobby. respond value_error (join_body env device lobby)) s)

abbrev pub leave_body : Env → String → Lobby → Action Body
leave_body env device lobby = do leave_lobby env lobby device; commit; pure Body.done

unfoldable pub leave : Env → String → String → Route
unfolding respond with_lobby get_lobby_by_id leave_lobby
leave env lobby_id device = serve (λ s.
    with_lobby (get_lobby_by_id lobby_id s.db.working)
      (λ lobby. respond any_error (leave_body env device lobby)) s)

abbrev pub get_body : Lobby → Action Body
get_body lobby = do
  participants ← query (list_participants lobby.id)
  pure (Body.view (lobby_view lobby participants))

unfoldable pub get_lobby : String → Route
unfolding respond with_lobby get_lobby_by_id list_participants lobby_view
get_lobby lobby_id = serve (λ s.
    with_lobby (get_lobby_by_id lobby_id s.db.working) (λ lobby. respond any_error (get_body lobby))
      s)

abbrev pub roles_body :
    Env → String → String → ParticipantRole → Option String → Option String → Lobby → Action Body
roles_body env admin target role slot_id slot_label lobby = do
  assign_role env lobby admin target role slot_id slot_label
  commit
  pure Body.done

unfoldable pub roles :
    Env → String → String → String → ParticipantRole → Option String → Option String → Route
unfolding respond with_lobby get_lobby_by_id assign_role
roles env lobby_id admin target role slot_id slot_label = serve (λ s.
    with_lobby (get_lobby_by_id lobby_id s.db.working)
      (λ lobby.
        respond permission_lookup (roles_body env admin target role slot_id slot_label lobby))
      s)

-- `lobby.state` is read after the start.
abbrev pub start_body : Env → String → Lobby → Action Body
start_body env admin lobby = do
  start_measurement env lobby admin
  commit
  pure (Body.started LobbyState.measurement_running)

unfoldable pub start : Env → String → String → Route
unfolding respond with_lobby get_lobby_by_id start_measurement
start env lobby_id admin = serve (λ s.
    with_lobby (get_lobby_by_id lobby_id s.db.working)
      (λ lobby. respond permission_value (start_body env admin lobby)) s)

abbrev pub events_body : String → Option ℕ → Lobby → Action Body
events_body lobby_id after_id lobby = do
  items ← query (get_events lobby_id after_id)
  pure (Body.log lobby_id items)

unfoldable pub events : String → Option ℕ → Route
unfolding respond with_lobby get_lobby_by_id get_events
events lobby_id after_id = serve (λ s.
    with_lobby (get_lobby_by_id lobby_id s.db.working)
      (λ lobby. respond any_error (events_body lobby_id after_id lobby)) s)
