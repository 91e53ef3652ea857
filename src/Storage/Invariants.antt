-- ===== src/Storage/Invariants.antt =====
-- The invariants of the storage service over all its requests.
use sonalyze_backend.Storage.Model.{
  Device, Lobby, Participant, Measurement, AnalysisOutput, SimulationJob, SimulationResult,
  Database,
}
use sonalyze_backend.Storage.Common.{Framework, Body}
use sonalyze_backend.Storage.Api.{Request, serve}
use sonalyze_backend.Storage.Rows.{get}
use sonalyze_backend.Storage.Constraints.{show-keeps}
use sonalyze_backend.Storage.Consistency.{IsConsistent}
use sonalyze_backend.Storage.Devices
use sonalyze_backend.Storage.Lobbies
use sonalyze_backend.Storage.Participants
use sonalyze_backend.Storage.Measurements
use sonalyze_backend.Storage.AnalysisOutputs
use sonalyze_backend.Storage.SimulationJobs
use sonalyze_backend.Storage.SimulationResults
use sonalyze_backend.Storage.Creates.{
  upsert_device-IsConsistent, create_lobby-IsConsistent, create_participant-IsConsistent,
  create_measurement-IsConsistent, create_analysis_output-IsConsistent,
  create_simulation_job-IsConsistent, create_simulation_result-IsConsistent,
}
use sonalyze_backend.Storage.Patches.{
  patch_device-IsConsistent, patch_lobby-IsConsistent, patch_participant-IsConsistent,
  patch_measurement-IsConsistent, patch_analysis_output-IsConsistent,
  patch_simulation_job-IsConsistent, patch_simulation_result-IsConsistent,
}
use sonalyze_backend.Storage.Deletes.{
  delete_device-IsConsistent, delete_lobby-IsConsistent, delete_participant-IsConsistent,
  delete_measurement-IsConsistent, delete_analysis_output-IsConsistent,
  delete_simulation_job-IsConsistent, delete_simulation_result-IsConsistent,
}

-- Every request leaves a database in which no reference dangles when it was so before: the participants,
-- measurements, outputs, jobs and results name rows that are there, or none.
pub serve-IsConsistent :
    (fw : Framework) (request : Request) (db : Database)
    → IsConsistent db
    → IsConsistent ((serve fw request db).1)
unfolding get serve Devices.list_devices Devices.get_device Devices.get_device_by_external_id
    Lobbies.list_lobbies Lobbies.get_lobby Lobbies.get_lobby_by_code Participants.list_participants
    Participants.get_participant Measurements.list_measurements Measurements.get_measurement
    AnalysisOutputs.list_analysis_outputs AnalysisOutputs.get_analysis_output
    SimulationJobs.list_simulation_jobs SimulationJobs.get_simulation_job
    SimulationResults.list_simulation_results SimulationResults.get_simulation_result
    SimulationResults.get_simulation_result_by_job
serve-IsConsistent fw (Request.upsert_device stamp payload) db h =
    upsert_device-IsConsistent fw db stamp payload h
serve-IsConsistent fw (Request.list_devices limit offset) db h = h
serve-IsConsistent fw (Request.get_device id) db h =
    show-keeps IsConsistent fw "device" Body.device (get Device.id id db.devices) db h
serve-IsConsistent fw (Request.get_device_by_external_id id) db h =
    show-keeps IsConsistent fw "device" Body.device (Devices.by_external_id id db.devices) db h
serve-IsConsistent fw (Request.patch_device id payload) db h =
    patch_device-IsConsistent fw db id payload h
serve-IsConsistent fw (Request.delete_device id) db h = delete_device-IsConsistent fw id db h
serve-IsConsistent fw (Request.create_lobby stamp payload) db h =
    create_lobby-IsConsistent fw db stamp payload h
serve-IsConsistent fw (Request.list_lobbies limit offset) db h = h
serve-IsConsistent fw (Request.get_lobby id) db h =
    show-keeps IsConsistent fw "lobby" Body.lobby (get Lobby.id id db.lobbies) db h
serve-IsConsistent fw (Request.get_lobby_by_code id) db h =
    show-keeps IsConsistent fw "lobby" Body.lobby (Lobbies.by_code id db.lobbies) db h
serve-IsConsistent fw (Request.patch_lobby id payload) db h =
    patch_lobby-IsConsistent fw db id payload h
serve-IsConsistent fw (Request.delete_lobby id) db h = delete_lobby-IsConsistent fw id db h
serve-IsConsistent fw (Request.create_participant stamp payload) db h =
    create_participant-IsConsistent fw db stamp payload h
serve-IsConsistent fw (Request.list_participants filter other limit offset) db h = h
serve-IsConsistent fw (Request.get_participant id) db h =
    show-keeps IsConsistent fw "participant" Body.participant
      (get Participant.id id db.participants) db h
serve-IsConsistent fw (Request.patch_participant id payload) db h =
    patch_participant-IsConsistent fw db id payload h
serve-IsConsistent fw (Request.delete_participant id) db h =
    delete_participant-IsConsistent fw id db h
serve-IsConsistent fw (Request.create_measurement stamp payload) db h =
    create_measurement-IsConsistent fw db stamp payload h
serve-IsConsistent fw (Request.list_measurements filter other limit offset) db h = h
serve-IsConsistent fw (Request.get_measurement id) db h =
    show-keeps IsConsistent fw "measurement" Body.measurement
      (get Measurement.id id db.measurements) db h
serve-IsConsistent fw (Request.patch_measurement id payload) db h =
    patch_measurement-IsConsistent fw db id payload h
serve-IsConsistent fw (Request.delete_measurement id) db h =
    delete_measurement-IsConsistent fw id db h
serve-IsConsistent fw (Request.create_analysis_output stamp payload) db h =
    create_analysis_output-IsConsistent fw db stamp payload h
serve-IsConsistent fw (Request.list_analysis_outputs filter limit offset) db h = h
serve-IsConsistent fw (Request.get_analysis_output id) db h =
    show-keeps IsConsistent fw "analysis output" Body.analysis_output
      (get AnalysisOutput.id id db.analysis_outputs) db h
serve-IsConsistent fw (Request.patch_analysis_output id payload) db h =
    patch_analysis_output-IsConsistent fw db id payload h
serve-IsConsistent fw (Request.delete_analysis_output id) db h =
    delete_analysis_output-IsConsistent fw id db h
serve-IsConsistent fw (Request.create_simulation_job stamp payload) db h =
    create_simulation_job-IsConsistent fw db stamp payload h
serve-IsConsistent fw (Request.list_simulation_jobs filter other limit offset) db h = h
serve-IsConsistent fw (Request.get_simulation_job id) db h =
    show-keeps IsConsistent fw "simulation job" Body.simulation_job
      (get SimulationJob.id id db.simulation_jobs) db h
serve-IsConsistent fw (Request.patch_simulation_job id payload) db h =
    patch_simulation_job-IsConsistent fw db id payload h
serve-IsConsistent fw (Request.delete_simulation_job id) db h =
    delete_simulation_job-IsConsistent fw id db h
serve-IsConsistent fw (Request.create_simulation_result stamp payload) db h =
    create_simulation_result-IsConsistent fw db stamp payload h
serve-IsConsistent fw (Request.list_simulation_results filter limit offset) db h = h
serve-IsConsistent fw (Request.get_simulation_result id) db h =
    show-keeps IsConsistent fw "simulation result" Body.simulation_result
      (get SimulationResult.id id db.simulation_results) db h
serve-IsConsistent fw (Request.get_simulation_result_by_job id) db h =
    show-keeps IsConsistent fw "simulation result" Body.simulation_result
      (SimulationResults.by_job id db.simulation_results) db h
serve-IsConsistent fw (Request.patch_simulation_result id payload) db h =
    patch_simulation_result-IsConsistent fw db id payload h
serve-IsConsistent fw (Request.delete_simulation_result id) db h =
    delete_simulation_result-IsConsistent fw id db h
