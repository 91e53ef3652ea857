-- ===== src/Storage/Creates.antt =====
-- The creations of rows in the storage service, and the references of the new rows.
use sonalyze_backend.Prelude.{
  String, ◌≡◌, refl, ◌∙◌, Bool, true, false, not, Option, none, some, List, [], ◌∷◌, ◌++◌,
  All-append, find,
}
use sonalyze_backend.Storage.Model.{
  Device, Lobby, Participant, Measurement, AnalysisOutput, SimulationJob, SimulationResult,
  Database,
}
use sonalyze_backend.Storage.Rows.{has}
use sonalyze_backend.Storage.Schemas.{
  DeviceCreate, LobbyCreate, ParticipantCreate, MeasurementCreate, AnalysisOutputCreate,
  SimulationJobCreate, SimulationResultCreate,
}
use sonalyze_backend.Storage.Common.{Framework, Stamp, unique, foreign_key, fails, ◌orelse◌}
use sonalyze_backend.Storage.Keys.{has-append, has-replace}
use sonalyze_backend.Storage.Constraints.{orelse-none, met, commit-keeps}
use sonalyze_backend.Storage.Consistency.{
  IsConsistent, LobbyRefs, ParticipantRefs, MeasurementRefs, OutputRefs, JobRefs, ResultRefs,
  devices-IsConsistent, lobbies-IsConsistent, participants-IsConsistent, measurements-IsConsistent,
  analysis_outputs-IsConsistent, simulation_jobs-IsConsistent, simulation_results-IsConsistent,
}
use sonalyze_backend.Storage.Devices
use sonalyze_backend.Storage.Lobbies
use sonalyze_backend.Storage.Participants
use sonalyze_backend.Storage.Measurements
use sonalyze_backend.Storage.AnalysisOutputs
use sonalyze_backend.Storage.SimulationJobs
use sonalyze_backend.Storage.SimulationResults

module _ {A : Type 0} (key : A → String) where
  appended :
      (rows : List A) (r : A) (id : String)
      → has key id rows ≡ true
      → has key id (rows ++ r ∷ []) ≡ true
  appended rows r id e = has-append key id rows r e

module _ (stamp : Stamp) (payload : DeviceCreate) (rows : List Device) where
  upserted-has :
      (found : Option Device) (k : String)
      → has Device.id k rows ≡ true
      → has Device.id k (Devices.upsert_row stamp payload found rows) ≡ true
  unfolding Devices.upsert_row
  upserted-has none k known = has-append Device.id k rows (Devices.new_device stamp payload) known
  upserted-has (some d) k known =
      has-replace Device.id k d.id (Devices.upserted stamp payload (some d)) rows refl ∙ known

-- the two references of a participant, of which the commit checks two unique constraints before
references :
    (known taken lobby device : Bool)
    → (fails known (unique "participants_pkey")
        orelse fails taken (unique "uq_participant_lobby_device")
        orelse fails (not lobby) (foreign_key "participants_lobby_id_fkey")
        orelse fails (not device) (foreign_key "participants_device_id_fkey"))
      ≡ none
    → (lobby ≡ true) × (device ≡ true)
references false false true true e = (refl, refl)
references true taken lobby device e = cc e
references false true lobby device e = cc e
references false false false device e = cc e
references false false true false e = cc e

module _ (fw : Framework) (db : Database) where
  pub create_lobby-IsConsistent :
      (stamp : Stamp) (payload : LobbyCreate)
      → IsConsistent db
      → IsConsistent ((Lobbies.create_lobby fw stamp payload db).1)
  unfolding Lobbies.create_lobby
  create_lobby-IsConsistent stamp payload h =
      let row : Lobby = Lobbies.new_lobby fw stamp payload in
      commit-keeps IsConsistent fw _ (Lobbies.lobby_violation db db.lobbies row) _ _ db h (λ e.
        lobbies-IsConsistent db (db.lobbies ++ row ∷ []) (appended Lobby.id db.lobbies row)
          (All-append (LobbyRefs db) db.lobbies (row ∷ []) h.lobbies
            (met _ _ (orelse-none _ _ (orelse-none _ _ e).1).1, tt))
          h)

  pub create_participant-IsConsistent :
      (stamp : Stamp) (payload : ParticipantCreate)
      → IsConsistent db
      → IsConsistent ((Participants.create_participant fw stamp payload db).1)
  unfolding Participants.create_participant
  create_participant-IsConsistent stamp payload h =
      let row : Participant = Participants.new_participant stamp payload in
      commit-keeps IsConsistent fw _ (Participants.participant_violation db row) _ _ db h (λ e.
        participants-IsConsistent db (db.participants ++ row ∷ [])
          (All-append (ParticipantRefs db) db.participants (row ∷ []) h.participants (
            references (has Participant.id row.id db.participants)
                (Participants.is_some
                  (find (Participants.is_pair row.lobby_id row.device_id) db.participants))
                (has Lobby.id row.lobby_id db.lobbies) (has Device.id row.device_id db.devices) e,
            tt,
          ))
          h)

  pub create_measurement-IsConsistent :
      (stamp : Stamp) (payload : MeasurementCreate)
      → IsConsistent db
      → IsConsistent ((Measurements.create_measurement fw stamp payload db).1)
  unfolding Measurements.create_measurement
  create_measurement-IsConsistent stamp payload h =
      let row : Measurement = Measurements.new_measurement stamp payload in
      commit-keeps IsConsistent fw _ (Measurements.measurement_violation db row) _ _ db h (λ e.
        measurements-IsConsistent db (db.measurements ++ row ∷ [])
          (appended Measurement.id db.measurements row)
          (All-append (MeasurementRefs db) db.measurements (row ∷ []) h.measurements (
            (
              met _ _ (orelse-none _ _ (orelse-none _ _ e).1).0,
              met _ _ (orelse-none _ _ (orelse-none _ _ e).1).1,
            ),
            tt,
          ))
          h)

  pub create_analysis_output-IsConsistent :
      (stamp : Stamp) (payload : AnalysisOutputCreate)
      → IsConsistent db
      → IsConsistent ((AnalysisOutputs.create_analysis_output fw stamp payload db).1)
  unfolding AnalysisOutputs.create_analysis_output
  create_analysis_output-IsConsistent stamp payload h =
      let row : AnalysisOutput = AnalysisOutputs.new_analysis_output stamp payload in
      commit-keeps IsConsistent fw _ (AnalysisOutputs.analysis_output_violation db row) _ _ db h
        (λ e.
          analysis_outputs-IsConsistent db (db.analysis_outputs ++ row ∷ [])
            (All-append (OutputRefs db) db.analysis_outputs (row ∷ []) h.analysis_outputs
              (met _ _ (orelse-none _ _ e).1, tt))
            h)

  pub create_simulation_job-IsConsistent :
      (stamp : Stamp) (payload : SimulationJobCreate)
      → IsConsistent db
      → IsConsistent ((SimulationJobs.create_simulation_job fw stamp payload db).1)
  unfolding SimulationJobs.create_simulation_job
  create_simulation_job-IsConsistent stamp payload h =
      let row : SimulationJob = SimulationJobs.new_simulation_job stamp payload in
      commit-keeps IsConsistent fw _ (SimulationJobs.simulation_job_violation db row) _ _ db h (λ e.
        simulation_jobs-IsConsistent db (db.simulation_jobs ++ row ∷ [])
          (appended SimulationJob.id db.simulation_jobs row)
          (All-append (JobRefs db) db.simulation_jobs (row ∷ []) h.simulation_jobs (
            (
              met _ _ (orelse-none _ _ (orelse-none _ _ e).1).0,
              met _ _ (orelse-none _ _ (orelse-none _ _ e).1).1,
            ),
            tt,
          ))
          h)

  pub create_simulation_result-IsConsistent :
      (stamp : Stamp) (payload : SimulationResultCreate)
      → IsConsistent db
      → IsConsistent ((SimulationResults.create_simulation_result fw stamp payload db).1)
  unfolding SimulationResults.create_simulation_result
  create_simulation_result-IsConsistent stamp payload h =
      let row : SimulationResult = SimulationResults.new_simulation_result stamp payload in
      commit-keeps IsConsistent fw _ (SimulationResults.simulation_result_violation db row) _ _ db h
        (λ e.
          simulation_results-IsConsistent db (db.simulation_results ++ row ∷ [])
            (All-append (ResultRefs db) db.simulation_results (row ∷ []) h.simulation_results
              (met _ _ (orelse-none _ _ (orelse-none _ _ e).1).1, tt))
            h)

  pub upsert_device-IsConsistent :
      (stamp : Stamp) (payload : DeviceCreate)
      → IsConsistent db
      → IsConsistent ((Devices.upsert_device fw stamp payload db).1)
  unfolding Devices.upsert_device
  upsert_device-IsConsistent stamp payload h =
      let found = Devices.by_external_id payload.external_id db.devices in
      commit-keeps IsConsistent fw _ (Devices.upsert_violation stamp found db.devices) _ _ db h
        (λ e.
          devices-IsConsistent db (Devices.upsert_row stamp payload found db.devices)
            (upserted-has stamp payload db.devices found) h)
