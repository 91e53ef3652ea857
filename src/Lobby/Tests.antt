-- ===== src/Lobby/Tests.antt =====
-- The lobby service (lobby/src/service.py and gateway_handler.py) on a small database, and the theorems
-- about it at that database.
use sonalyze_backend.Prelude.{
  texts_apart, String, ◌≡◌, ◌≢◌, refl, none, some, [], ◌∷◌, ◌++◌, lookup,
}
use sonalyze_backend.Json.{Value, Fields}
use sonalyze_backend.Lobby.Model.{
  LobbyState, ParticipantRole, ParticipantStatus, Lobby, Participant, EventBody, Db, empty_db,
}
use sonalyze_backend.Lobby.Monad.{DbSession, ServiceError, Result, ok, err}
use sonalyze_backend.Lobby.Service.{
  Env, create_lobby, create_from, open_with, generate_code, get_lobby_by_code, find_participant,
  append_event,
}
use sonalyze_backend.Lobby.Operations.{
  join_lobby, leave_lobby, assign_role, start_measurement, share_room_snapshot,
  broadcast_step_update, broadcast_profile_update, get_events,
}
use sonalyze_backend.Lobby.Request.{ClientData, no_data, Detail, http, Service}
use sonalyze_backend.Lobby.Handlers
use sonalyze_backend.Lobby.Gateway.{event_handlers, begin, gateway_handle}
use sonalyze_backend.Lobby.Atomic.{admin_only}
use sonalyze_backend.Lobby.Transactions.{gateway_handle-http}
use sonalyze_backend.Lobby.Membership.{joined_row, found_after, join_lobby-find}
use sonalyze_backend.Lobby.Departure.{
  left_row, assigned_row, leave_lobby-find, assign_role-find, Excludes, admin_not_notified,
}
use sonalyze_backend.Lobby.Events.{IsLog, seen, append_event-IsLog, get_events-after}
use sonalyze_backend.Lobby.Codes.{IsCreated, create_lobby-IsCreated}
use sonalyze_backend.Lobby.Lost.{IsUncommitted, update-IsUncommitted}

abbrev pub env : Env
env = record {
  now = 7;
  lobby_uuid = "l2";
  participant_uuid = "p2";
  session_uuid = "s1";
  draws = λ k. 0 ∷ 1 ∷ 2 ∷ 3 ∷ 4 ∷ 35 ∷ [];
}

abbrev lobby : Lobby
lobby = record {
  id = "l1";
  code = "AAAAAA";
  creator_device_id = "a";
  state = LobbyState.open_lobby;
  created_at = 1;
}

abbrev admin_row : Participant
admin_row = record {
  id = "p1";
  lobby_id = "l1";
  device_id = "a";
  role = ParticipantRole.no_role;
  role_slot_id = none;
  role_slot_label = none;
  status = ParticipantStatus.joined;
  joined_at = 1;
  left_at = none;
}

abbrev db : Db
db = record empty_db { lobbies = lobby ∷ []; participants = admin_row ∷ [] }

abbrev session : DbSession
session = record { committed = db; working = db; outbox = [] }

abbrev pub service : Service
service = record {
  db = session;
  coordinator = record { gateway_url = "https://host"; sessions = []; outbox = [] };
}

generate_code-text : generate_code (env.draws 0) ≡ "ABCDE9"
unfolding generate_code
generate_code-text = refl

abbrev created : Lobby
created = record {
  id = "l2";
  code = "ABCDE9";
  creator_device_id = "b";
  state = LobbyState.open_lobby;
  created_at = 7;
}

create_lobby-IsCreated_example : IsCreated "b" created session (create_lobby env "b" session).1
unfolding create_lobby create_from open_with generate_code get_lobby_by_code
create_lobby-IsCreated_example = create_lobby-IsCreated env "b" session created refl

join_lobby-find_example :
    ((join_lobby env lobby "b" session).0 ≡ ok tt)
    × (find_participant "l1" "b" (join_lobby env lobby "b" session).1.working
        ≡ found_after "l1" "b"
            (joined_row env "l1" "b" (find_participant "l1" "b" db))
            "l1"
            "b"
            session)
join_lobby-find_example = join_lobby-find env lobby "b" session "l1" "b" refl

leave_lobby-find_example :
    ((leave_lobby env lobby "a" session).0 ≡ ok tt)
    × (find_participant "l1" "a" (leave_lobby env lobby "a" session).1.working
        ≡ found_after "l1" "a" (left_row 7 admin_row) "l1" "a" session)
unfolding find_participant
leave_lobby-find_example = leave_lobby-find env lobby "a" session admin_row "l1" "a" refl

assign_role-find_example :
    let out = assign_role env lobby "a" "a" ParticipantRole.speaker (some "L") none session in
    (out.0 ≡ ok tt)
    × (find_participant "l1" "a" out.1.working
        ≡ found_after "l1" "a"
            (assigned_row ParticipantRole.speaker (some "L") none admin_row)
            "l1"
            "a"
            session)
unfolding find_participant
assign_role-find_example =
    assign_role-find env lobby "a" session "a" ParticipantRole.speaker (some "L") none admin_row
      "l1" "a" refl refl refl

admin_is_other : ◌≢◌ {A = String} "a" "b"
admin_is_other = texts_apart "a" "b" refl

admin_only_example :
    let refused : Result (Unit {0}) × DbSession = (err ServiceError.not_admin, session) in
    (assign_role env lobby "b" "a" ParticipantRole.speaker none none session ≡ refused)
    × (start_measurement env lobby "b" session ≡ refused)
    × (share_room_snapshot env lobby "b" Fields.end session ≡ refused)
    × (broadcast_step_update env lobby "b" Value.null session ≡ refused)
    × (broadcast_profile_update env lobby "b" "p" session ≡ refused)
admin_only_example =
    admin_only env lobby "b" session "a" ParticipantRole.speaker none none Fields.end Value.null "p"
      admin_is_other

admin_not_notified_example :
    Excludes "a" session (share_room_snapshot env lobby "a" Fields.end session).1
    × Excludes "a" session (broadcast_step_update env lobby "a" Value.null session).1
    × Excludes "a" session (broadcast_profile_update env lobby "a" "p" session).1
admin_not_notified_example = admin_not_notified env lobby "a" session Fields.end Value.null "p" refl

empty-IsLog : IsLog empty_db
empty-IsLog = record { ascends = tt; below = tt }

logged-IsLog : IsLog (append_event env "l1" (EventBody.participant_joined "b") empty_db)
logged-IsLog = append_event-IsLog env "l1" (EventBody.participant_joined "b") empty_db empty-IsLog

abbrev logged : Db
logged = append_event env "l1" (EventBody.participant_joined "b") empty_db

get_events-after_example :
    get_events "l1" none logged ≡ seen "l1" 0 logged.events ++ get_events "l1" (some 0) logged
get_events-after_example = get_events-after "l1" 0 logged logged-IsLog

-- A device that is not the admin starts the measurement.
abbrev start_data : ClientData
start_data = record no_data { lobby_id = some "l1" }

start-forbidden :
    (gateway_handle "lobby.start" env "b" start_data service).0
    ≡ http 403 (Detail.service ServiceError.not_admin)
unfolding gateway_handle event_handlers lookup Handlers.handle_lobby_start
start-forbidden = refl

gateway_handle-http_example :
    (gateway_handle "lobby.start" env "b" start_data service).1 ≡ begin service
gateway_handle-http_example =
    gateway_handle-http "lobby.start" env "b" start_data service 403
      (Detail.service ServiceError.not_admin) start-forbidden

-- The lobby is running, and a join is answered by an internal error.
abbrev running : Service
running = record service {
  db = record session {
    committed = record db {
      lobbies = record lobby { state = LobbyState.measurement_running } ∷ [];
    };
  };
}

join-running :
    (gateway_handle "lobby.join" env "b" (record no_data { code = some "AAAAAA" }) running).0
    ≡ http 500 (Detail.service ServiceError.not_open)
unfolding gateway_handle event_handlers lookup Handlers.handle_lobby_join
join-running = refl

abbrev step_data : ClientData
step_data = record no_data { lobby_id = some "l1"; step_index = some Value.null }

update-IsUncommitted_example :
    IsUncommitted service (gateway_handle "lobby.step_update" env "a" step_data service)
    × IsUncommitted service (gateway_handle "lobby.profile_update" env "a" step_data service)
update-IsUncommitted_example = update-IsUncommitted env "a" step_data service
