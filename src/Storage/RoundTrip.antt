-- ===== src/Storage/RoundTrip.antt =====
-- What the storage service answers after a creation and a deletion.
use sonalyze_backend.Prelude.{
  String, ◌≡◌, refl, false, none, some, List, [], ◌∷◌, ◌++◌, ◌==◌, find, inl, inr, Option-cases,
  eq_refl, arith,
}
use sonalyze_backend.Lobby.Rows.{find-append_new}
use sonalyze_backend.Storage.Model.{
  Device, Lobby, Participant, Measurement, AnalysisOutput, SimulationJob, SimulationResult,
  Database,
}
use sonalyze_backend.Storage.Rows.{get, has, without}
use sonalyze_backend.Storage.Schemas.{LobbyCreate}
use sonalyze_backend.Storage.Common.{
  Framework, Stamp, Body, body, http, respond, not_found, map_integrity_error, show, with_row,
}
use sonalyze_backend.Storage.Constraints.{orelse-none, fails-none, commit-body}
use sonalyze_backend.Storage.Devices
use sonalyze_backend.Storage.Lobbies
use sonalyze_backend.Storage.Participants
use sonalyze_backend.Storage.Measurements
use sonalyze_backend.Storage.AnalysisOutputs
use sonalyze_backend.Storage.SimulationJobs
use sonalyze_backend.Storage.SimulationResults

module _ {A : Type 0} (key : A → String) where
  has-find :
      (k : String) (rows : List A) → has key k rows ≡ false → find (λ r. key r == k) rows ≡ none
  unfolding has
  has-find k [] e = refl
  has-find k (r ∷ rows) e = ground (arith, has-find k rows)

  -- the row that was added is the one with its key
  pub find-added :
      (rows : List A) (r : A)
      → has key (key r) rows ≡ false
      → find (λ q. key q == key r) (rows ++ r ∷ []) ≡ some r
  find-added rows r e =
      find-append_new (λ q. key q == key r) rows r (has-find (key r) rows e) (eq_refl (key r))

  -- a deleted row is not found
  get-without : (id : String) (rows : List A) → get key id (without key id rows) ≡ none
  unfolding get without
  get-without id [] = refl
  get-without id (r ∷ rows) = ground (arith, get-without id rows)

-- What a lobby's creation answers is what the lobby's id, and its code, are answered with afterwards.
pub create_lobby-get_lobby :
    (fw : Framework) (stamp : Stamp) (payload : LobbyCreate) (db : Database) (answer : Body)
    → (Lobbies.create_lobby fw stamp payload db).0 ≡ body answer
    → let after = (Lobbies.create_lobby fw stamp payload db).1 in
      ((Lobbies.get_lobby fw stamp.id after).0 ≡ body answer)
      × ((Lobbies.get_lobby_by_code fw (Lobbies.new_lobby fw stamp payload).code after).0
          ≡ body answer)
unfolding Lobbies.create_lobby Lobbies.get_lobby Lobbies.get_lobby_by_code Lobbies.new_lobby get
    map_integrity_error
create_lobby-get_lobby fw stamp payload db answer e =
    let row : Lobby = Lobbies.new_lobby fw stamp payload in
    let passed =
      commit-body fw (map_integrity_error fw "conflict") (Lobbies.lobby_violation db db.lobbies row)
        (Body.lobby row) (record db { lobbies = db.lobbies ++ row ∷ [] }) db answer (λ v f. cc f)
        e in
    let new_id = orelse-none _ _ passed.0 in
    let new_code = orelse-none _ _ new_id.1 in
    rw (passed.2) (
      rw (find-added Lobby.id db.lobbies row (fails-none _ _ new_id.0)) passed.1,
      rw (find-added Lobby.code db.lobbies row (fails-none _ _ new_code.0)) passed.1,
    )

-- a row that is deleted, or was not there, is not found
gone :
    {A : Type 0} (fw : Framework) (entity : String) (view : A → Body) (key : A → String)
    (id : String) (table : Database → List A) (remove : Database → Database) (db : Database)
    → table (remove db) ≡ without key id (table db)
    → let after =
        (with_row entity
          (get key id (table db))
          (λ row db'. (respond fw Body.deleted, remove db))
          db).1 in
      (show fw entity view (get key id (table after)) after).0 ≡ not_found entity
gone fw entity view key id table remove db e = elim (Option-cases (get key id (table db))) [
  | inl absent ↦ rw (absent, absent) refl
  | inr (row, there) ↦ rw there (rw (e, get-without key id (table db)) refl)
]

module _ (fw : Framework) (id : String) (db : Database) where
  -- After a deletion, whatever it answered, a GET of the id is answered by 404, in each of the seven tables.
  pub delete-get :
      ((Devices.get_device fw id (Devices.delete_device fw id db).1).0
        ≡ http 404 "device not found")
      × ((Lobbies.get_lobby fw id (Lobbies.delete_lobby fw id db).1).0 ≡ http 404 "lobby not found")
      × ((Participants.get_participant fw id (Participants.delete_participant fw id db).1).0
          ≡ http 404 "participant not found")
      × ((Measurements.get_measurement fw id (Measurements.delete_measurement fw id db).1).0
          ≡ http 404 "measurement not found")
      × ((AnalysisOutputs.get_analysis_output fw id
            (AnalysisOutputs.delete_analysis_output fw id db).1).0
          ≡ http 404 "analysis output not found")
      × ((SimulationJobs.get_simulation_job fw id
            (SimulationJobs.delete_simulation_job fw id db).1).0
          ≡ http 404 "simulation job not found")
      × ((SimulationResults.get_simulation_result fw id
            (SimulationResults.delete_simulation_result fw id db).1).0
          ≡ http 404 "simulation result not found")
  unfolding not_found get Devices.get_device Devices.delete_device Devices.without_device
      Lobbies.get_lobby Lobbies.delete_lobby Lobbies.without_lobby Participants.get_participant
      Participants.delete_participant Measurements.get_measurement Measurements.delete_measurement
      Measurements.without_measurement AnalysisOutputs.get_analysis_output
      AnalysisOutputs.delete_analysis_output SimulationJobs.get_simulation_job
      SimulationJobs.delete_simulation_job SimulationJobs.without_simulation_job
      SimulationResults.get_simulation_result SimulationResults.delete_simulation_result
  delete-get = (
    gone fw "device" Body.device Device.id id Database.devices (Devices.without_device id) db refl,
    gone fw "lobby" Body.lobby Lobby.id id Database.lobbies (Lobbies.without_lobby id) db refl,
    gone fw "participant" Body.participant Participant.id id Database.participants
        (λ d. record d { participants = without Participant.id id d.participants }) db refl,
    gone fw "measurement" Body.measurement Measurement.id id Database.measurements
        (Measurements.without_measurement id) db refl,
    gone fw "analysis output" Body.analysis_output AnalysisOutput.id id Database.analysis_outputs
        (λ d. record d { analysis_outputs = without AnalysisOutput.id id d.analysis_outputs }) db
        refl,
    gone fw "simulation job" Body.simulation_job SimulationJob.id id Database.simulation_jobs
        (SimulationJobs.without_simulation_job id) db refl,
    gone fw "simulation result" Body.simulation_result SimulationResult.id id
        Database.simulation_results
        (λ d. record d { simulation_results = without SimulationResult.id id d.simulation_results })
        db refl,
  )
