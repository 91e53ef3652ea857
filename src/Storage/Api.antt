-- ===== src/Storage/Api.antt =====
-- storage/src/app/main.py: the routes of the service, each a request that its router answers.
use sonalyze_backend.Prelude.{String, Option}
use sonalyze_backend.Json.{ℤ}
use sonalyze_backend.Storage.Schemas.{
  DeviceCreate, DevicePatch, LobbyCreate, LobbyPatch, ParticipantCreate, ParticipantPatch,
  MeasurementCreate, MeasurementPatch, AnalysisOutputCreate, AnalysisOutputPatch,
  SimulationJobCreate, SimulationJobPatch, SimulationResultCreate, SimulationResultPatch,
}
use sonalyze_backend.Storage.Common.{Stamp, Framework, Endpoint}
use sonalyze_backend.Storage.Devices
use sonalyze_backend.Storage.Lobbies
use sonalyze_backend.Storage.Participants
use sonalyze_backend.Storage.Measurements
use sonalyze_backend.Storage.AnalysisOutputs
use sonalyze_backend.Storage.SimulationJobs
use sonalyze_backend.Storage.SimulationResults

pub data Request : Type 0 where
  upsert_device : Stamp → DeviceCreate → Request
  list_devices : ℤ → ℤ → Request
  get_device : String → Request
  get_device_by_external_id : String → Request
  patch_device : String → DevicePatch → Request
  delete_device : String → Request
  create_lobby : Stamp → LobbyCreate → Request
  list_lobbies : ℤ → ℤ → Request
  get_lobby : String → Request
  get_lobby_by_code : String → Request
  patch_lobby : String → LobbyPatch → Request
  delete_lobby : String → Request
  create_participant : Stamp → ParticipantCreate → Request
  list_participants : Option String → Option String → ℤ → ℤ → Request
  get_participant : String → Request
  patch_participant : String → ParticipantPatch → Request
  delete_participant : String → Request
  create_measurement : Stamp → MeasurementCreate → Request
  list_measurements : Option String → Option String → ℤ → ℤ → Request
  get_measurement : String → Request
  patch_measurement : String → MeasurementPatch → Request
  delete_measurement : String → Request
  create_analysis_output : Stamp → AnalysisOutputCreate → Request
  list_analysis_outputs : Option String → ℤ → ℤ → Request
  get_analysis_output : String → Request
  patch_analysis_output : String → AnalysisOutputPatch → Request
  delete_analysis_output : String → Request
  create_simulation_job : Stamp → SimulationJobCreate → Request
  list_simulation_jobs : Option String → Option String → ℤ → ℤ → Request
  get_simulation_job : String → Request
  patch_simulation_job : String → SimulationJobPatch → Request
  delete_simulation_job : String → Request
  create_simulation_result : Stamp → SimulationResultCreate → Request
  list_simulation_results : Option String → ℤ → ℤ → Request
  get_simulation_result : String → Request
  get_simulation_result_by_job : String → Request
  patch_simulation_result : String → SimulationResultPatch → Request
  delete_simulation_result : String → Request

-- the routes that the routers register
unfoldable pub serve : Framework → Request → Endpoint
unfolding Devices.upsert_device Devices.list_devices Devices.get_device
    Devices.get_device_by_external_id Devices.patch_device Devices.delete_device
    Lobbies.create_lobby Lobbies.list_lobbies Lobbies.get_lobby Lobbies.get_lobby_by_code
    Lobbies.patch_lobby Lobbies.delete_lobby Participants.create_participant
    Participants.list_participants Participants.get_participant Participants.patch_participant
    Participants.delete_participant Measurements.create_measurement Measurements.list_measurements
    Measurements.get_measurement Measurements.patch_measurement Measurements.delete_measurement
    AnalysisOutputs.create_analysis_output AnalysisOutputs.list_analysis_outputs
    AnalysisOutputs.get_analysis_output AnalysisOutputs.patch_analysis_output
    AnalysisOutputs.delete_analysis_output SimulationJobs.create_simulation_job
    SimulationJobs.list_simulation_jobs SimulationJobs.get_simulation_job
    SimulationJobs.patch_simulation_job SimulationJobs.delete_simulation_job
    SimulationResults.create_simulation_result SimulationResults.list_simulation_results
    SimulationResults.get_simulation_result SimulationResults.get_simulation_result_by_job
    SimulationResults.patch_simulation_result SimulationResults.delete_simulation_result
serve fw (Request.upsert_device stamp payload) = Devices.upsert_device fw stamp payload
serve fw (Request.list_devices limit offset) = Devices.list_devices fw limit offset
serve fw (Request.get_device id) = Devices.get_device fw id
serve fw (Request.get_device_by_external_id id) = Devices.get_device_by_external_id fw id
serve fw (Request.patch_device id payload) = Devices.patch_device fw id payload
serve fw (Request.delete_device id) = Devices.delete_device fw id
serve fw (Request.create_lobby stamp payload) = Lobbies.create_lobby fw stamp payload
serve fw (Request.list_lobbies limit offset) = Lobbies.list_lobbies fw limit offset
serve fw (Request.get_lobby id) = Lobbies.get_lobby fw id
serve fw (Request.get_lobby_by_code id) = Lobbies.get_lobby_by_code fw id
serve fw (Request.patch_lobby id payload) = Lobbies.patch_lobby fw id payload
serve fw (Request.delete_lobby id) = Lobbies.delete_lobby fw id
serve fw (Request.create_participant stamp payload) =
    Participants.create_participant fw stamp payload
serve fw (Request.list_participants filter other limit offset) =
    Participants.list_participants fw filter other limit offset
serve fw (Request.get_participant id) = Participants.get_participant fw id
serve fw (Request.patch_participant id payload) = Participants.patch_participant fw id payload
serve fw (Request.delete_participant id) = Participants.delete_participant fw id
serve fw (Request.create_measurement stamp payload) =
    Measurements.create_measurement fw stamp payload
serve fw (Request.list_measurements filter other limit offset) =
    Measurements.list_measurements fw filter other limit offset
serve fw (Request.get_measurement id) = Measurements.get_measurement fw id
serve fw (Request.patch_measurement id payload) = Measurements.patch_measurement fw id payload
serve fw (Request.delete_measurement id) = Measurements.delete_measurement fw id
serve fw (Request.create_analysis_output stamp payload) =
    AnalysisOutputs.create_analysis_output fw stamp payload
serve fw (Request.list_analysis_outputs filter limit offset) =
    AnalysisOutputs.list_analysis_outputs fw filter limit offset
serve fw (Request.get_analysis_output id) = AnalysisOutputs.get_analysis_output fw id
serve fw (Request.patch_analysis_output id payload) =
    AnalysisOutputs.patch_analysis_output fw id payload
serve fw (Request.delete_analysis_output id) = AnalysisOutputs.delete_analysis_output fw id
serve fw (Request.create_simulation_job stamp payload) =
    SimulationJobs.create_simulation_job fw stamp payload
serve fw (Request.list_simulation_jobs filter other limit offset) =
    SimulationJobs.list_simulation_jobs fw filter other limit offset
serve fw (Request.get_simulation_job id) = SimulationJobs.get_simulation_job fw id
serve fw (Request.patch_simulation_job id payload) =
    SimulationJobs.patch_simulation_job fw id payload
serve fw (Request.delete_simulation_job id) = SimulationJobs.delete_simulation_job fw id
serve fw (Request.create_simulation_result stamp payload) =
    SimulationResults.create_simulation_result fw stamp payload
serve fw (Request.list_simulation_results filter limit offset) =
    SimulationResults.list_simulation_results fw filter limit offset
serve fw (Request.get_simulation_result id) = SimulationResults.get_simulation_result fw id
serve fw (Request.get_simulation_result_by_job id) =
    SimulationResults.get_simulation_result_by_job fw id
serve fw (Request.patch_simulation_result id payload) =
    SimulationResults.patch_simulation_result fw id payload
serve fw (Request.delete_simulation_result id) = SimulationResults.delete_simulation_result fw id
