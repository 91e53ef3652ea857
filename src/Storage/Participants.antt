-- ===== src/Storage/Participants.antt =====
-- storage/src/app/routers/participants.py
use sonalyze_backend.Prelude.{
  String, Bool, true, false, ◌&&◌, not, Option, none, some, [], ◌∷◌, ◌++◌, ◌==◌, select, find,
}
use sonalyze_backend.Json.{ℤ}
use sonalyze_backend.Storage.Model.{Device, Lobby, Participant, Database}
use sonalyze_backend.Storage.Rows.{get, has, without, replace, newest_first, page, matches}
use sonalyze_backend.Storage.Schemas.{ParticipantCreate, ParticipantPatch}
use sonalyze_backend.Storage.Common.{
  Violation, unique, foreign_key, Body, Endpoint, Stamp, Framework, map_integrity_error, uncaught,
  not_found, respond, commit, with_row, show, ◌orelse◌, fails, patch, no_null, or_default,
}

abbrev pub new_participant : Stamp → ParticipantCreate → Participant
new_participant stamp payload = record {
  id = stamp.id;
  lobby_id = payload.lobby_id;
  device_id = payload.device_id;
  role = or_default "observer" payload.role;
  status = or_default "connected" payload.status;
  joined_at = stamp.now;
}

-- whether a row holds the lobby and the device
abbrev pub is_pair : String → String → Participant → Bool
is_pair lobby_id device_id p = (p.lobby_id == lobby_id) && (p.device_id == device_id)

abbrev pub is_some : {A : Type 0} → Option A → Bool
is_some none = false
is_some (some a) = true

abbrev pub participant_violation : Database → Participant → Option Violation
participant_violation db p =
    fails (has Participant.id p.id db.participants) (unique "participants_pkey")
    orelse fails (is_some (find (is_pair p.lobby_id p.device_id) db.participants))
        (unique "uq_participant_lobby_device")
    orelse fails (not (has Lobby.id p.lobby_id db.lobbies))
        (foreign_key "participants_lobby_id_fkey")
    orelse fails (not (has Device.id p.device_id db.devices))
        (foreign_key "participants_device_id_fkey")

abbrev pub patch_participant_row : ParticipantPatch → Participant → Participant
patch_participant_row payload p = record p {
  role = patch payload.role p.role;
  status = patch payload.status p.status;
}

abbrev pub patch_participant_violation : ParticipantPatch → Option Violation
patch_participant_violation payload =
    no_null "role" payload.role orelse no_null "status" payload.status

module _ (fw : Framework) where
  unfoldable pub create_participant : Stamp → ParticipantCreate → Endpoint
  unfolding has map_integrity_error
  create_participant stamp payload db =
      let row = new_participant stamp payload in
      commit fw (map_integrity_error fw "conflict") (participant_violation db row)
        (Body.participant row) (record db { participants = db.participants ++ row ∷ [] }) db

  unfoldable pub list_participants : Option String → Option String → ℤ → ℤ → Endpoint
  unfolding newest_first page
  list_participants lobby_id device_id limit offset db = (
    respond fw (
        Body.participants (
          page limit offset (
            newest_first Participant.id fw.precedes Participant.joined_at (
              select
                (λ (p : Participant). matches lobby_id p.lobby_id && matches device_id p.device_id)
                db.participants)))),
    db,
  )

  unfoldable pub get_participant : String → Endpoint
  unfolding get not_found
  get_participant id db =
      show fw "participant" Body.participant (get Participant.id id db.participants) db

  unfoldable pub patch_participant : String → ParticipantPatch → Endpoint
  unfolding get replace not_found map_integrity_error
  patch_participant id payload db =
      with_row "participant" (get Participant.id id db.participants)
        (λ (p : Participant).
          commit fw (map_integrity_error fw "conflict") (patch_participant_violation payload)
            (Body.participant (patch_participant_row payload p))
            (record db {
              participants =
                  replace Participant.id id (patch_participant_row payload p) db.participants;
            }))
        db

  unfoldable pub delete_participant : String → Endpoint
  unfolding get not_found without
  delete_participant id db =
      with_row "participant" (get Participant.id id db.participants)
        (λ (p : Participant).
          commit fw uncaught none Body.deleted
            (record db { participants = without Participant.id id db.participants }))
        db
