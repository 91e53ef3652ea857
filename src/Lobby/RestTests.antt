-- ===== src/Lobby/RestTests.antt =====
-- The REST routes of lobby/src/main.py and the gateway's handlers on a small database.
use sonalyze_backend.Prelude.{texts_apart, ◌≡◌, refl, none, some}
use sonalyze_backend.Lobby.Model.{ParticipantRole}
use sonalyze_backend.Lobby.Request.{ClientData, no_data, parse_role}
use sonalyze_backend.Lobby.Gateway.{gateway_handle}
use sonalyze_backend.Lobby.Rest
use sonalyze_backend.Lobby.Agreement.{gateway_handle-Rest, role_assign-Rest, IsSameJoin, join-Rest}
use sonalyze_backend.Lobby.Tests.{env, service}

abbrev request : ClientData
request = record no_data {
  code = some "AAAAAA";
  lobby_id = some "l1";
  target_device_id = some "a";
  role = some "speaker";
  role_slot_id = some "L";
}

gateway_handle-Rest_example :
    (gateway_handle "lobby.create" env "a" request service ≡ Rest.create env "a" service)
    × (gateway_handle "lobby.leave" env "a" request service ≡ Rest.leave env "l1" "a" service)
    × (gateway_handle "lobby.get" env "a" request service ≡ Rest.get_lobby "l1" service)
    × (gateway_handle "lobby.start" env "a" request service ≡ Rest.start env "l1" "a" service)
gateway_handle-Rest_example =
    gateway_handle-Rest env "a" request service "l1" refl (texts_apart "l1" "" refl)

role_assign-Rest_example :
    gateway_handle "role.assign" env "a" request service
    ≡ Rest.roles env "l1" "a" "a" ParticipantRole.speaker (some "L") none service
unfolding parse_role
role_assign-Rest_example =
    role_assign-Rest env "a" request service "l1" "a" "speaker" ParticipantRole.speaker refl refl
      refl (texts_apart "l1" "" refl) (texts_apart "a" "" refl) refl

join-Rest_example :
    ((gateway_handle "lobby.join" env "b" request service).1
      ≡ (Rest.join env "AAAAAA" "b" service).1)
    × IsSameJoin
        (gateway_handle "lobby.join" env "b" request service).0
        (Rest.join env "AAAAAA" "b" service).0
join-Rest_example = join-Rest env "b" request service "AAAAAA" refl (texts_apart "AAAAAA" "" refl)
