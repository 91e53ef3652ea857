-- ===== src/Storage/Deletes.antt =====
-- The deletions of the storage service, and what their foreign keys do to the tables that refer to the
-- row (storage/src/alembic/versions/0001_init.py).
use sonalyze_backend.Prelude.{String, ◌≡◌, refl, ◌∙◌, Bool, true, false, not, List, ◌==◌}
use sonalyze_backend.Storage.Model.{
  Device, Lobby, Participant, Measurement, AnalysisOutput, SimulationJob, SimulationResult,
  Database,
}
use sonalyze_backend.Storage.Rows.{get, has, without}
use sonalyze_backend.Storage.Common.{Framework}
use sonalyze_backend.Storage.Keys.{
  All-imp, All-select, All-map, has-map, refers-map, has-without, refers-without,
}
use sonalyze_backend.Storage.Constraints.{with_row-keeps}
use sonalyze_backend.Storage.Consistency.{
  IsConsistent, participants-IsConsistent, analysis_outputs-IsConsistent,
  simulation_results-IsConsistent, LobbyRefs, ParticipantRefs, MeasurementRefs, OutputRefs, JobRefs,
  ResultRefs,
}
use sonalyze_backend.Storage.Devices.{without_device, delete_device}
use sonalyze_backend.Storage.Lobbies.{without_lobby, delete_lobby}
use sonalyze_backend.Storage.Participants.{delete_participant}
use sonalyze_backend.Storage.Measurements.{without_measurement, delete_measurement}
use sonalyze_backend.Storage.AnalysisOutputs.{delete_analysis_output}
use sonalyze_backend.Storage.SimulationJobs.{without_simulation_job, delete_simulation_job}
use sonalyze_backend.Storage.SimulationResults.{delete_simulation_result}

-- a row that `ON DELETE CASCADE` has left keeps its reference
kept :
    {A : Type 0} (key : A → String) (k id : String) (rows : List A)
    → not (k == id) ≡ true
    → has key k rows ≡ true
    → has key k (without key id rows) ≡ true
kept key k id rows apart e = has-without key k id rows (other (k == id) apart) ∙ e
  where
    other : (b : Bool) → not b ≡ true → b ≡ false
    other true h = cc h
    other false h = refl

module _ (id : String) (db : Database) where
  without_device-IsConsistent : IsConsistent db → IsConsistent (without_device id db)
  unfolding without_device
  without_device-IsConsistent h = record {
    lobbies =
        All-map (LobbyRefs db) (LobbyRefs (without_device id db)) _ db.lobbies
          (λ l e. refers-without Device.id l.creator_device_id id db.devices e) h.lobbies;
    participants =
        All-select (ParticipantRefs db) (ParticipantRefs (without_device id db)) _ db.participants
          (λ p apart e. (
            has-map Lobby.id _ p.lobby_id db.lobbies (λ l. refl) ∙ e.0,
            kept Device.id p.device_id id db.devices apart e.1,
          ))
          h.participants;
    measurements =
        All-map (MeasurementRefs db) (MeasurementRefs (without_device id db)) _ db.measurements
          (λ m e. (
            refers-map Lobby.id _ m.lobby_id db.lobbies (λ l. refl) ∙ e.0,
            refers-without Device.id m.created_by_device_id id db.devices e.1,
          ))
          h.measurements;
    analysis_outputs =
        All-imp _ _ db.analysis_outputs
          (λ a e. has-map Measurement.id _ a.measurement_id db.measurements (λ m. refl) ∙ e)
          h.analysis_outputs;
    simulation_jobs =
        All-map (JobRefs db) (JobRefs (without_device id db)) _ db.simulation_jobs
          (λ j e. (
            refers-without Device.id j.requested_by_device_id id db.devices e.0,
            refers-map Lobby.id _ j.lobby_id db.lobbies (λ l. refl) ∙ e.1,
          ))
          h.simulation_jobs;
    simulation_results =
        All-imp _ _ db.simulation_results
          (λ r e. has-map SimulationJob.id _ r.job_id db.simulation_jobs (λ j. refl) ∙ e)
          h.simulation_results;
  }

  without_lobby-IsConsistent : IsConsistent db → IsConsistent (without_lobby id db)
  unfolding without_lobby without
  without_lobby-IsConsistent h = record {
    lobbies = All-select (LobbyRefs db) (LobbyRefs db) _ db.lobbies (λ l apart e. e) h.lobbies;
    participants =
        All-select (ParticipantRefs db) (ParticipantRefs (without_lobby id db)) _ db.participants
          (λ p apart e. (kept Lobby.id p.lobby_id id db.lobbies apart e.0, e.1)) h.participants;
    measurements =
        All-map (MeasurementRefs db) (MeasurementRefs (without_lobby id db)) _ db.measurements
          (λ m e. (refers-without Lobby.id m.lobby_id id db.lobbies e.0, e.1)) h.measurements;
    analysis_outputs =
        All-imp _ _ db.analysis_outputs
          (λ a e. has-map Measurement.id _ a.measurement_id db.measurements (λ m. refl) ∙ e)
          h.analysis_outputs;
    simulation_jobs =
        All-map (JobRefs db) (JobRefs (without_lobby id db)) _ db.simulation_jobs
          (λ j e. (e.0, refers-without Lobby.id j.lobby_id id db.lobbies e.1)) h.simulation_jobs;
    simulation_results =
        All-imp _ _ db.simulation_results
          (λ r e. has-map SimulationJob.id _ r.job_id db.simulation_jobs (λ j. refl) ∙ e)
          h.simulation_results;
  }

  without_measurement-IsConsistent : IsConsistent db → IsConsistent (without_measurement id db)
  unfolding without_measurement without
  without_measurement-IsConsistent h = record {
    lobbies = h.lobbies;
    participants = h.participants;
    measurements =
        All-select (MeasurementRefs db) (MeasurementRefs db) _ db.measurements (λ m apart e. e)
          h.measurements;
    analysis_outputs =
        All-select (OutputRefs db) (OutputRefs (without_measurement id db)) _ db.analysis_outputs
          (λ a apart e. kept Measurement.id a.measurement_id id db.measurements apart e)
          h.analysis_outputs;
    simulation_jobs = h.simulation_jobs;
    simulation_results = h.simulation_results;
  }

  without_simulation_job-IsConsistent :
      IsConsistent db → IsConsistent (without_simulation_job id db)
  unfolding without_simulation_job without
  without_simulation_job-IsConsistent h = record {
    lobbies = h.lobbies;
    participants = h.participants;
    measurements = h.measurements;
    analysis_outputs = h.analysis_outputs;
    simulation_jobs =
        All-select (JobRefs db) (JobRefs db) _ db.simulation_jobs (λ j apart e. e)
          h.simulation_jobs;
    simulation_results =
        All-select (ResultRefs db) (ResultRefs (without_simulation_job id db)) _
          db.simulation_results
          (λ r apart e. kept SimulationJob.id r.job_id id db.simulation_jobs apart e)
          h.simulation_results;
  }

module _ (fw : Framework) (id : String) (db : Database) where
  pub delete_device-IsConsistent : IsConsistent db → IsConsistent ((delete_device fw id db).1)
  unfolding delete_device get
  delete_device-IsConsistent h =
      with_row-keeps IsConsistent "device" (get Device.id id db.devices) _ db h
        (λ row e. without_device-IsConsistent id db h)

  pub delete_lobby-IsConsistent : IsConsistent db → IsConsistent ((delete_lobby fw id db).1)
  unfolding delete_lobby get
  delete_lobby-IsConsistent h =
      with_row-keeps IsConsistent "lobby" (get Lobby.id id db.lobbies) _ db h
        (λ row e. without_lobby-IsConsistent id db h)

  pub delete_measurement-IsConsistent :
      IsConsistent db → IsConsistent ((delete_measurement fw id db).1)
  unfolding delete_measurement get
  delete_measurement-IsConsistent h =
      with_row-keeps IsConsistent "measurement" (get Measurement.id id db.measurements) _ db h
        (λ row e. without_measurement-IsConsistent id db h)

  pub delete_simulation_job-IsConsistent :
      IsConsistent db → IsConsistent ((delete_simulation_job fw id db).1)
  unfolding delete_simulation_job get
  delete_simulation_job-IsConsistent h =
      with_row-keeps IsConsistent "simulation job" (get SimulationJob.id id db.simulation_jobs) _ db
        h (λ row e. without_simulation_job-IsConsistent id db h)

  pub delete_participant-IsConsistent :
      IsConsistent db → IsConsistent ((delete_participant fw id db).1)
  unfolding delete_participant get without
  delete_participant-IsConsistent h =
      with_row-keeps IsConsistent "participant" (get Participant.id id db.participants) _ db h
        (λ row e.
          participants-IsConsistent db (without Participant.id id db.participants)
            (All-select (ParticipantRefs db) (ParticipantRefs db) _ db.participants
              (λ row' apart r. r) h.participants)
            h)

  pub delete_analysis_output-IsConsistent :
      IsConsistent db → IsConsistent ((delete_analysis_output fw id db).1)
  unfolding delete_analysis_output get without
  delete_analysis_output-IsConsistent h =
      with_row-keeps IsConsistent "analysis output" (get AnalysisOutput.id id db.analysis_outputs) _
        db h
        (λ row e.
          analysis_outputs-IsConsistent db (without AnalysisOutput.id id db.analysis_outputs)
            (All-select (OutputRefs db) (OutputRefs db) _ db.analysis_outputs (λ row' apart r. r)
              h.analysis_outputs)
            h)

  pub delete_simulation_result-IsConsistent :
      IsConsistent db → IsConsistent ((delete_simulation_result fw id db).1)
  unfolding delete_simulation_result get without
  delete_simulation_result-IsConsistent h =
      with_row-keeps IsConsistent "simulation result"
        (get SimulationResult.id id db.simulation_results) _ db h
        (λ row e.
          simulation_results-IsConsistent db (without SimulationResult.id id db.simulation_results)
            (All-select (ResultRefs db) (ResultRefs db) _ db.simulation_results (λ row' apart r. r)
              h.simulation_results)
            h)
