-- ===== src/Storage/Patches.antt =====
-- The patches of rows in the storage service, and the references of the patched rows.
use sonalyze_backend.Prelude.{String, ◌≡◌, ◌∙◌, true, List, All-of}
use sonalyze_backend.Storage.Model.{
  Device, Lobby, Participant, Measurement, AnalysisOutput, SimulationJob, SimulationResult,
  Database,
}
use sonalyze_backend.Storage.Rows.{get, has, replace}
use sonalyze_backend.Storage.Schemas.{
  DevicePatch, LobbyPatch, ParticipantPatch, MeasurementPatch, AnalysisOutputPatch,
  SimulationJobPatch, SimulationResultPatch,
}
use sonalyze_backend.Storage.Common.{no_null, Framework}
use sonalyze_backend.Storage.Keys.{All-replace, All-get, has-replace}
use sonalyze_backend.Storage.Constraints.{orelse-none, met, commit-keeps, with_row-keeps}
use sonalyze_backend.Storage.Consistency.{
  IsConsistent, LobbyRefs, ParticipantRefs, MeasurementRefs, OutputRefs, JobRefs, ResultRefs,
  devices-IsConsistent, lobbies-IsConsistent, participants-IsConsistent, measurements-IsConsistent,
  analysis_outputs-IsConsistent, simulation_jobs-IsConsistent, simulation_results-IsConsistent,
}
use sonalyze_backend.Storage.Devices
use sonalyze_backend.Storage.Lobbies
use sonalyze_backend.Storage.Participants
use sonalyze_backend.Storage.Measurements
use sonalyze_backend.Storage.AnalysisOutputs
use sonalyze_backend.Storage.SimulationJobs
use sonalyze_backend.Storage.SimulationResults

module _ {A : Type 0} (key : A → String) where
  replaced :
      (rows : List A) (new : A) (id k : String)
      → key new ≡ id
      → has key k rows ≡ true
      → has key k (replace key id new rows) ≡ true
  replaced rows new id k same e = has-replace key k id new rows same ∙ e

module _ (fw : Framework) (db : Database) where
  pub patch_lobby-IsConsistent :
      (id : String) (payload : LobbyPatch)
      → IsConsistent db
      → IsConsistent ((Lobbies.patch_lobby fw id payload db).1)
  unfolding Lobbies.patch_lobby get
  patch_lobby-IsConsistent id payload h =
      with_row-keeps IsConsistent "lobby" (get Lobby.id id db.lobbies) _ db h (λ old e.
        let found : LobbyRefs db old × (old.id ≡ id) =
          All-get Lobby.id (LobbyRefs db) id db.lobbies old e h.lobbies in
        commit-keeps IsConsistent fw _ (Lobbies.patch_lobby_violation db payload old) _ _ db h
          (λ none_is.
            let rest =
              orelse-none (no_null "state" payload.state) _
                (orelse-none (no_null "code" payload.code) _ none_is).1 in
            lobbies-IsConsistent db
              (replace Lobby.id id (Lobbies.patch_lobby_row payload old) db.lobbies)
              (λ k e.
                replaced Lobby.id db.lobbies (Lobbies.patch_lobby_row payload old) id k found.1 e)
              (All-replace Lobby.id (LobbyRefs db) id (Lobbies.patch_lobby_row payload old)
                db.lobbies (met _ _ (orelse-none _ _ (orelse-none _ _ rest.1).1).1) h.lobbies)
              h))

  pub patch_participant-IsConsistent :
      (id : String) (payload : ParticipantPatch)
      → IsConsistent db
      → IsConsistent ((Participants.patch_participant fw id payload db).1)
  unfolding Participants.patch_participant get
  patch_participant-IsConsistent id payload h =
      with_row-keeps IsConsistent "participant" (get Participant.id id db.participants) _ db h
        (λ old e.
          let found : ParticipantRefs db old × (old.id ≡ id) =
            All-get Participant.id (ParticipantRefs db) id db.participants old e h.participants in
          commit-keeps IsConsistent fw _ (Participants.patch_participant_violation payload) _ _ db h
            (λ none_is.
              participants-IsConsistent db
                (replace Participant.id id (Participants.patch_participant_row payload old)
                  db.participants)
                (All-replace Participant.id (ParticipantRefs db) id
                  (Participants.patch_participant_row payload old) db.participants found.0
                  h.participants)
                h))

  pub patch_measurement-IsConsistent :
      (id : String) (payload : MeasurementPatch)
      → IsConsistent db
      → IsConsistent ((Measurements.patch_measurement fw id payload db).1)
  unfolding Measurements.patch_measurement get
  patch_measurement-IsConsistent id payload h =
      with_row-keeps IsConsistent "measurement" (get Measurement.id id db.measurements) _ db h
        (λ old e.
          let found : MeasurementRefs db old × (old.id ≡ id) =
            All-get Measurement.id (MeasurementRefs db) id db.measurements old e h.measurements in
          commit-keeps IsConsistent fw _ _ _ _ db h (λ none_is.
            measurements-IsConsistent db
              (replace Measurement.id id (Measurements.patch_measurement_row payload old)
                db.measurements)
              (λ k e.
                replaced Measurement.id db.measurements
                  (Measurements.patch_measurement_row payload old) id k found.1 e)
              (All-replace Measurement.id (MeasurementRefs db) id
                (Measurements.patch_measurement_row payload old) db.measurements found.0
                h.measurements)
              h))

  pub patch_analysis_output-IsConsistent :
      (id : String) (payload : AnalysisOutputPatch)
      → IsConsistent db
      → IsConsistent ((AnalysisOutputs.patch_analysis_output fw id payload db).1)
  unfolding AnalysisOutputs.patch_analysis_output get
  patch_analysis_output-IsConsistent id payload h =
      with_row-keeps IsConsistent "analysis output" (get AnalysisOutput.id id db.analysis_outputs) _
        db h
        (λ old e.
          let found : OutputRefs db old × (old.id ≡ id) =
            All-get AnalysisOutput.id (OutputRefs db) id db.analysis_outputs old e
              h.analysis_outputs in
          commit-keeps IsConsistent fw _ _ _ _ db h (λ none_is.
            analysis_outputs-IsConsistent db
              (replace AnalysisOutput.id id (AnalysisOutputs.patch_analysis_output_row payload old)
                db.analysis_outputs)
              (All-replace AnalysisOutput.id (OutputRefs db) id
                (AnalysisOutputs.patch_analysis_output_row payload old) db.analysis_outputs found.0
                h.analysis_outputs)
              h))

  pub patch_simulation_job-IsConsistent :
      (id : String) (payload : SimulationJobPatch)
      → IsConsistent db
      → IsConsistent ((SimulationJobs.patch_simulation_job fw id payload db).1)
  unfolding SimulationJobs.patch_simulation_job get
  patch_simulation_job-IsConsistent id payload h =
      with_row-keeps IsConsistent "simulation job" (get SimulationJob.id id db.simulation_jobs) _ db
        h
        (λ old e.
          let found : JobRefs db old × (old.id ≡ id) =
            All-get SimulationJob.id (JobRefs db) id db.simulation_jobs old e h.simulation_jobs in
          commit-keeps IsConsistent fw _ _ _ _ db h (λ none_is.
            simulation_jobs-IsConsistent db
              (replace SimulationJob.id id (SimulationJobs.patch_simulation_job_row payload old)
                db.simulation_jobs)
              (λ k e.
                replaced SimulationJob.id db.simulation_jobs
                  (SimulationJobs.patch_simulation_job_row payload old) id k found.1 e)
              (All-replace SimulationJob.id (JobRefs db) id
                (SimulationJobs.patch_simulation_job_row payload old) db.simulation_jobs found.0
                h.simulation_jobs)
              h))

  pub patch_simulation_result-IsConsistent :
      (id : String) (payload : SimulationResultPatch)
      → IsConsistent db
      → IsConsistent ((SimulationResults.patch_simulation_result fw id payload db).1)
  unfolding SimulationResults.patch_simulation_result get
  patch_simulation_result-IsConsistent id payload h =
      with_row-keeps IsConsistent "simulation result"
        (get SimulationResult.id id db.simulation_results) _ db h
        (λ old e.
          let found : ResultRefs db old × (old.id ≡ id) =
            All-get SimulationResult.id (ResultRefs db) id db.simulation_results old e
              h.simulation_results in
          (simulation_results-IsConsistent db
            (replace SimulationResult.id id
              (SimulationResults.patch_simulation_result_row payload old) db.simulation_results)
            (All-replace SimulationResult.id (ResultRefs db) id
              (SimulationResults.patch_simulation_result_row payload old) db.simulation_results
              found.0 h.simulation_results)
            h))

  pub patch_device-IsConsistent :
      (id : String) (payload : DevicePatch)
      → IsConsistent db
      → IsConsistent ((Devices.patch_device fw id payload db).1)
  unfolding Devices.patch_device get
  patch_device-IsConsistent id payload h =
      with_row-keeps IsConsistent "device" (get Device.id id db.devices) _ db h (λ old e.
        let found : Unit × (old.id ≡ id) =
          All-get Device.id (λ d. Unit) id db.devices old e
            (All-of (λ d. Unit) db.devices (λ d i. tt)) in
        (devices-IsConsistent db
          (replace Device.id id (Devices.patch_device_row payload old) db.devices)
          (λ k known.
            replaced Device.id db.devices (Devices.patch_device_row payload old) id k found.1 known)
          h))
