-- ===== src/Storage/Refused.antt =====
-- The answers by which the storage service refuses a request.
use sonalyze_backend.Prelude.{ℕ, String, ◌≡◌, ◌≢◌, refl}
use sonalyze_backend.Storage.Model.{
  Device, Lobby, Participant, Measurement, AnalysisOutput, SimulationJob, SimulationResult,
  Database,
}
use sonalyze_backend.Storage.Rows.{get}
use sonalyze_backend.Storage.Common.{Framework, Body, http, no_null}
use sonalyze_backend.Storage.Constraints.{
  commit-refused, with_row-refused, show-unchanged, respond-accepts,
}
use sonalyze_backend.Storage.Api.{Request, serve}
use sonalyze_backend.Storage.Devices
use sonalyze_backend.Storage.Lobbies
use sonalyze_backend.Storage.Participants
use sonalyze_backend.Storage.Measurements
use sonalyze_backend.Storage.AnalysisOutputs
use sonalyze_backend.Storage.SimulationJobs
use sonalyze_backend.Storage.SimulationResults

-- A request that is answered by an HTTP error other than 500 leaves the database as it was.
pub serve-refused :
    (fw : Framework) (request : Request) (db : Database) (code : ℕ) (detail : String)
    → (serve fw request db).0 ≡ http code detail
    → code ≢ 500
    → (serve fw request db).1 ≡ db
unfolding get serve
serve-refused fw (Request.upsert_device stamp payload) db code detail e ne =
    commit-refused fw db code detail _
      (Devices.upsert_violation stamp (Devices.by_external_id payload.external_id db.devices)
        db.devices)
      _ _ e ne
serve-refused fw (Request.list_devices limit offset) db code detail e ne = refl
serve-refused fw (Request.get_device id) db code detail e ne =
    show-unchanged fw "device" Body.device (get Device.id id db.devices) db
serve-refused fw (Request.get_device_by_external_id id) db code detail e ne =
    show-unchanged fw "device" Body.device (Devices.by_external_id id db.devices) db
serve-refused fw (Request.patch_device id payload) db code detail e ne =
    with_row-refused fw db code detail "device" (get Device.id id db.devices) _
      (λ row r.
        respond-accepts fw db code detail (Body.device (Devices.patch_device_row payload row)) r ne)
      e
serve-refused fw (Request.delete_device id) db code detail e ne =
    with_row-refused fw db code detail "device" (get Device.id id db.devices) _
      (λ row r. respond-accepts fw db code detail Body.deleted r ne) e
serve-refused fw (Request.create_lobby stamp payload) db code detail e ne =
    commit-refused fw db code detail _
      (Lobbies.lobby_violation db db.lobbies (Lobbies.new_lobby fw stamp payload)) _ _ e ne
serve-refused fw (Request.list_lobbies limit offset) db code detail e ne = refl
serve-refused fw (Request.get_lobby id) db code detail e ne =
    show-unchanged fw "lobby" Body.lobby (get Lobby.id id db.lobbies) db
serve-refused fw (Request.get_lobby_by_code id) db code detail e ne =
    show-unchanged fw "lobby" Body.lobby (Lobbies.by_code id db.lobbies) db
serve-refused fw (Request.patch_lobby id payload) db code detail e ne =
    with_row-refused fw db code detail "lobby" (get Lobby.id id db.lobbies) _
      (λ row r.
        commit-refused fw db code detail _ (Lobbies.patch_lobby_violation db payload row) _ _ r ne)
      e
serve-refused fw (Request.delete_lobby id) db code detail e ne =
    with_row-refused fw db code detail "lobby" (get Lobby.id id db.lobbies) _
      (λ row r. respond-accepts fw db code detail Body.deleted r ne) e
serve-refused fw (Request.create_participant stamp payload) db code detail e ne =
    commit-refused fw db code detail _
      (Participants.participant_violation db (Participants.new_participant stamp payload)) _ _ e ne
serve-refused fw (Request.list_participants filter other limit offset) db code detail e ne = refl
serve-refused fw (Request.get_participant id) db code detail e ne =
    show-unchanged fw "participant" Body.participant (get Participant.id id db.participants) db
serve-refused fw (Request.patch_participant id payload) db code detail e ne =
    with_row-refused fw db code detail "participant" (get Participant.id id db.participants) _
      (λ row r.
        commit-refused fw db code detail _ (Participants.patch_participant_violation payload) _ _ r
          ne)
      e
serve-refused fw (Request.delete_participant id) db code detail e ne =
    with_row-refused fw db code detail "participant" (get Participant.id id db.participants) _
      (λ row r. respond-accepts fw db code detail Body.deleted r ne) e
serve-refused fw (Request.create_measurement stamp payload) db code detail e ne =
    commit-refused fw db code detail _
      (Measurements.measurement_violation db (Measurements.new_measurement stamp payload)) _ _ e ne
serve-refused fw (Request.list_measurements filter other limit offset) db code detail e ne = refl
serve-refused fw (Request.get_measurement id) db code detail e ne =
    show-unchanged fw "measurement" Body.measurement (get Measurement.id id db.measurements) db
serve-refused fw (Request.patch_measurement id payload) db code detail e ne =
    with_row-refused fw db code detail "measurement" (get Measurement.id id db.measurements) _
      (λ row r. commit-refused fw db code detail _ (no_null "kind" payload.kind) _ _ r ne) e
serve-refused fw (Request.delete_measurement id) db code detail e ne =
    with_row-refused fw db code detail "measurement" (get Measurement.id id db.measurements) _
      (λ row r. respond-accepts fw db code detail Body.deleted r ne) e
serve-refused fw (Request.create_analysis_output stamp payload) db code detail e ne =
    commit-refused fw db code detail _
      (AnalysisOutputs.analysis_output_violation db
        (AnalysisOutputs.new_analysis_output stamp payload))
      _ _ e ne
serve-refused fw (Request.list_analysis_outputs filter limit offset) db code detail e ne = refl
serve-refused fw (Request.get_analysis_output id) db code detail e ne =
    show-unchanged fw "analysis output" Body.analysis_output
      (get AnalysisOutput.id id db.analysis_outputs) db
serve-refused fw (Request.patch_analysis_output id payload) db code detail e ne =
    with_row-refused fw db code detail "analysis output"
      (get AnalysisOutput.id id db.analysis_outputs) _
      (λ row r. commit-refused fw db code detail _ (no_null "status" payload.status) _ _ r ne) e
serve-refused fw (Request.delete_analysis_output id) db code detail e ne =
    with_row-refused fw db code detail "analysis output"
      (get AnalysisOutput.id id db.analysis_outputs) _
      (λ row r. respond-accepts fw db code detail Body.deleted r ne) e
serve-refused fw (Request.create_simulation_job stamp payload) db code detail e ne =
    commit-refused fw db code detail _
      (SimulationJobs.simulation_job_violation db (SimulationJobs.new_simulation_job stamp payload))
      _ _ e ne
serve-refused fw (Request.list_simulation_jobs filter other limit offset) db code detail e ne = refl
serve-refused fw (Request.get_simulation_job id) db code detail e ne =
    show-unchanged fw "simulation job" Body.simulation_job
      (get SimulationJob.id id db.simulation_jobs) db
serve-refused fw (Request.patch_simulation_job id payload) db code detail e ne =
    with_row-refused fw db code detail "simulation job" (get SimulationJob.id id db.simulation_jobs)
      _ (λ row r. commit-refused fw db code detail _ (no_null "status" payload.status) _ _ r ne) e
serve-refused fw (Request.delete_simulation_job id) db code detail e ne =
    with_row-refused fw db code detail "simulation job" (get SimulationJob.id id db.simulation_jobs)
      _ (λ row r. respond-accepts fw db code detail Body.deleted r ne) e
serve-refused fw (Request.create_simulation_result stamp payload) db code detail e ne =
    commit-refused fw db code detail _
      (SimulationResults.simulation_result_violation db
        (SimulationResults.new_simulation_result stamp payload))
      _ _ e ne
serve-refused fw (Request.list_simulation_results filter limit offset) db code detail e ne = refl
serve-refused fw (Request.get_simulation_result id) db code detail e ne =
    show-unchanged fw "simulation result" Body.simulation_result
      (get SimulationResult.id id db.simulation_results) db
serve-refused fw (Request.get_simulation_result_by_job id) db code detail e ne =
    show-unchanged fw "simulation result" Body.simulation_result
      (SimulationResults.by_job id db.simulation_results) db
serve-refused fw (Request.patch_simulation_result id payload) db code detail e ne =
    with_row-refused fw db code detail "simulation result"
      (get SimulationResult.id id db.simulation_results) _
      (λ row r.
        respond-accepts fw db code detail
          (Body.simulation_result (SimulationResults.patch_simulation_result_row payload row)) r ne)
      e
serve-refused fw (Request.delete_simulation_result id) db code detail e ne =
    with_row-refused fw db code detail "simulation result"
      (get SimulationResult.id id db.simulation_results) _
      (λ row r. respond-accepts fw db code detail Body.deleted r ne) e
