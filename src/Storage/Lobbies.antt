-- ===== src/Storage/Lobbies.antt =====
-- storage/src/app/routers/lobbies.py
use sonalyze_backend.Prelude.{
  String, not, Option, none, some, List, [], ◌∷◌, ◌++◌, map, ◌==◌, if◌then◌else◌, select, find,
}
use sonalyze_backend.Json.{ℤ}
use sonalyze_backend.Storage.Model.{
  Device, Lobby, Participant, Measurement, SimulationJob, Database,
}
use sonalyze_backend.Storage.Rows.{get, has, without, replace, newest_first, page, forget}
use sonalyze_backend.Storage.Schemas.{LobbyCreate, LobbyPatch}
use sonalyze_backend.Storage.Common.{
  Violation, unique, foreign_key, Body, Endpoint, Stamp, Framework, map_integrity_error, uncaught,
  not_found, respond, commit, with_row, show, ◌orelse◌, fails, refers, patch_nullable, patch,
  no_null, or_default, generate_lobby_code,
}

-- the code of the payload, or a drawn one
abbrev pub lobby_code : Framework → Stamp → Option String → String
lobby_code fw stamp none = generate_lobby_code stamp.draws
lobby_code fw stamp (some code) = if fw.is_blank code then generate_lobby_code stamp.draws else code

unfoldable pub new_lobby : Framework → Stamp → LobbyCreate → Lobby
unfolding generate_lobby_code
new_lobby fw stamp payload = record {
  id = stamp.id;
  code = lobby_code fw stamp payload.code;
  state = or_default "created" payload.state;
  creator_device_id = payload.creator_device_id;
  created_at = stamp.now;
}

abbrev pub by_code : String → List Lobby → Option Lobby
by_code code rows = find (λ (l : Lobby). l.code == code) rows

-- the constraints on a row that is written, beside the other rows of the table
abbrev pub lobby_violation : Database → List Lobby → Lobby → Option Violation
lobby_violation db others l =
    fails (has Lobby.id l.id others) (unique "lobbies_pkey")
    orelse fails (has Lobby.code l.code others) (unique "ix_lobbies_code")
    orelse fails (not (refers Device.id l.creator_device_id db.devices))
        (foreign_key "lobbies_creator_device_id_fkey")

abbrev pub patch_lobby_row : LobbyPatch → Lobby → Lobby
patch_lobby_row payload l = record l {
  code = patch payload.code l.code;
  state = patch payload.state l.state;
  creator_device_id = patch_nullable payload.creator_device_id l.creator_device_id;
}

abbrev pub patch_lobby_violation : Database → LobbyPatch → Lobby → Option Violation
patch_lobby_violation db payload l =
    no_null "code" payload.code
    orelse no_null "state" payload.state
    orelse lobby_violation db (without Lobby.id l.id db.lobbies) (patch_lobby_row payload l)

-- what the foreign keys do when a lobby goes
unfoldable pub without_lobby : String → Database → Database
unfolding without
without_lobby id db = record db {
  lobbies = without Lobby.id id db.lobbies;
  participants = select (λ (p : Participant). not (p.lobby_id == id)) db.participants;
  measurements =
      map (λ (m : Measurement). record m { lobby_id = forget id m.lobby_id }) db.measurements;
  simulation_jobs =
      map (λ (j : SimulationJob). record j { lobby_id = forget id j.lobby_id }) db.simulation_jobs;
}

module _ (fw : Framework) where
  unfoldable pub create_lobby : Stamp → LobbyCreate → Endpoint
  unfolding new_lobby has map_integrity_error
  create_lobby stamp payload db =
      let row = new_lobby fw stamp payload in
      commit fw (map_integrity_error fw "conflict") (lobby_violation db db.lobbies row)
        (Body.lobby row) (record db { lobbies = db.lobbies ++ row ∷ [] }) db

  unfoldable pub list_lobbies : ℤ → ℤ → Endpoint
  unfolding newest_first page
  list_lobbies limit offset db = (
    respond fw (
        Body.lobbies
          (page limit offset (newest_first Lobby.id fw.precedes Lobby.created_at db.lobbies))),
    db,
  )

  unfoldable pub get_lobby : String → Endpoint
  unfolding get not_found
  get_lobby id db = show fw "lobby" Body.lobby (get Lobby.id id db.lobbies) db

  unfoldable pub get_lobby_by_code : String → Endpoint
  unfolding not_found
  get_lobby_by_code code db = show fw "lobby" Body.lobby (by_code code db.lobbies) db

  unfoldable pub patch_lobby : String → LobbyPatch → Endpoint
  unfolding get replace has without not_found map_integrity_error
  patch_lobby id payload db =
      with_row "lobby" (get Lobby.id id db.lobbies)
        (λ (l : Lobby).
          commit fw (map_integrity_error fw "conflict") (patch_lobby_violation db payload l)
            (Body.lobby (patch_lobby_row payload l))
            (record db { lobbies = replace Lobby.id id (patch_lobby_row payload l) db.lobbies }))
        db

  unfoldable pub delete_lobby : String → Endpoint
  unfolding get not_found without_lobby
  delete_lobby id db =
      with_row "lobby" (get Lobby.id id db.lobbies)
        (λ (l : Lobby). commit fw uncaught none Body.deleted (without_lobby id db)) db
