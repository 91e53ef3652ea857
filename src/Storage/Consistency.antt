-- ===== src/Storage/Consistency.antt =====
-- The foreign keys of storage/src/alembic/versions/0001_init.py, and the endpoints that keep them.
use sonalyze_backend.Prelude.{String, ◌≡◌, refl, true, Option, none, some, List, All}
use sonalyze_backend.Storage.Model.{
  Device, Lobby, Participant, Measurement, AnalysisOutput, SimulationJob, SimulationResult,
  Database,
}
use sonalyze_backend.Storage.Rows.{has}
use sonalyze_backend.Storage.Common.{refers}
use sonalyze_backend.Storage.Keys.{All-imp}

-- The references of a row.
abbrev pub LobbyRefs : Database → Lobby → Type 0
LobbyRefs db l = refers Device.id l.creator_device_id db.devices ≡ true

abbrev pub ParticipantRefs : Database → Participant → Type 0
ParticipantRefs db p =
    (has Lobby.id p.lobby_id db.lobbies ≡ true) × (has Device.id p.device_id db.devices ≡ true)

abbrev pub MeasurementRefs : Database → Measurement → Type 0
MeasurementRefs db m =
    (refers Lobby.id m.lobby_id db.lobbies ≡ true)
    × (refers Device.id m.created_by_device_id db.devices ≡ true)

abbrev pub OutputRefs : Database → AnalysisOutput → Type 0
OutputRefs db a = has Measurement.id a.measurement_id db.measurements ≡ true

abbrev pub JobRefs : Database → SimulationJob → Type 0
JobRefs db j =
    (refers Device.id j.requested_by_device_id db.devices ≡ true)
    × (refers Lobby.id j.lobby_id db.lobbies ≡ true)

abbrev pub ResultRefs : Database → SimulationResult → Type 0
ResultRefs db r = has SimulationJob.id r.job_id db.simulation_jobs ≡ true

-- No reference dangles.
pub record IsConsistent (db : Database) : Type 0 where
  pub lobbies : All (LobbyRefs db) db.lobbies
  pub participants : All (ParticipantRefs db) db.participants
  pub measurements : All (MeasurementRefs db) db.measurements
  pub analysis_outputs : All (OutputRefs db) db.analysis_outputs
  pub simulation_jobs : All (JobRefs db) db.simulation_jobs
  pub simulation_results : All (ResultRefs db) db.simulation_results

-- The new rows of a table keep every id of the old ones.
abbrev pub Keeps : {A : Type 0} → (A → String) → List A → List A → Type 0
Keeps key old new = (id : String) → has key id old ≡ true → has key id new ≡ true

still :
    {A : Type 0} (key : A → String) (old new : List A)
    → Keeps key old new
    → (o : Option String) → refers key o old ≡ true
    → refers key o new ≡ true
still key old new kept none e = refl
still key old new kept (some id) e = kept id e

-- A table that is written: its own references hold, and those to it are kept.
module _ (db : Database) where
  pub devices-IsConsistent :
      (devices : List Device)
      → Keeps Device.id db.devices devices
      → IsConsistent db
      → IsConsistent (record db { devices = devices })
  devices-IsConsistent devices kept h =
      let keep = still Device.id db.devices devices kept in
      record {
        lobbies = All-imp _ _ db.lobbies (λ l e. keep l.creator_device_id e) h.lobbies;
        participants =
            All-imp _ _ db.participants (λ p e. (e.0, kept p.device_id e.1)) h.participants;
        measurements =
            All-imp _ _ db.measurements (λ m e. (e.0, keep m.created_by_device_id e.1))
              h.measurements;
        analysis_outputs = h.analysis_outputs;
        simulation_jobs =
            All-imp _ _ db.simulation_jobs (λ j e. (keep j.requested_by_device_id e.0, e.1))
              h.simulation_jobs;
        simulation_results = h.simulation_results;
      }

  pub lobbies-IsConsistent :
      (lobbies : List Lobby)
      → Keeps Lobby.id db.lobbies lobbies
      → All (LobbyRefs db) lobbies
      → IsConsistent db
      → IsConsistent (record db { lobbies = lobbies })
  lobbies-IsConsistent lobbies kept hs h =
      let keep = still Lobby.id db.lobbies lobbies kept in
      record {
        lobbies = hs;
        participants =
            All-imp _ _ db.participants (λ p e. (kept p.lobby_id e.0, e.1)) h.participants;
        measurements =
            All-imp _ _ db.measurements (λ m e. (keep m.lobby_id e.0, e.1)) h.measurements;
        analysis_outputs = h.analysis_outputs;
        simulation_jobs =
            All-imp _ _ db.simulation_jobs (λ j e. (e.0, keep j.lobby_id e.1)) h.simulation_jobs;
        simulation_results = h.simulation_results;
      }

  pub participants-IsConsistent :
      (participants : List Participant)
      → All (ParticipantRefs db) participants
      → IsConsistent db
      → IsConsistent (record db { participants = participants })
  participants-IsConsistent participants hs h = record {
    lobbies = h.lobbies;
    participants = hs;
    measurements = h.measurements;
    analysis_outputs = h.analysis_outputs;
    simulation_jobs = h.simulation_jobs;
    simulation_results = h.simulation_results;
  }

  pub measurements-IsConsistent :
      (measurements : List Measurement)
      → Keeps Measurement.id db.measurements measurements
      → All (MeasurementRefs db) measurements
      → IsConsistent db
      → IsConsistent (record db { measurements = measurements })
  measurements-IsConsistent measurements kept hs h = record {
    lobbies = h.lobbies;
    participants = h.participants;
    measurements = hs;
    analysis_outputs =
        All-imp _ _ db.analysis_outputs (λ a e. kept a.measurement_id e) h.analysis_outputs;
    simulation_jobs = h.simulation_jobs;
    simulation_results = h.simulation_results;
  }

  pub analysis_outputs-IsConsistent :
      (analysis_outputs : List AnalysisOutput)
      → All (OutputRefs db) analysis_outputs
      → IsConsistent db
      → IsConsistent (record db { analysis_outputs = analysis_outputs })
  analysis_outputs-IsConsistent analysis_outputs hs h = record {
    lobbies = h.lobbies;
    participants = h.participants;
    measurements = h.measurements;
    analysis_outputs = hs;
    simulation_jobs = h.simulation_jobs;
    simulation_results = h.simulation_results;
  }

  pub simulation_jobs-IsConsistent :
      (simulation_jobs : List SimulationJob)
      → Keeps SimulationJob.id db.simulation_jobs simulation_jobs
      → All (JobRefs db) simulation_jobs
      → IsConsistent db
      → IsConsistent (record db { simulation_jobs = simulation_jobs })
  simulation_jobs-IsConsistent simulation_jobs kept hs h = record {
    lobbies = h.lobbies;
    participants = h.participants;
    measurements = h.measurements;
    analysis_outputs = h.analysis_outputs;
    simulation_jobs = hs;
    simulation_results =
        All-imp _ _ db.simulation_results (λ r e. kept r.job_id e) h.simulation_results;
  }

  pub simulation_results-IsConsistent :
      (simulation_results : List SimulationResult)
      → All (ResultRefs db) simulation_results
      → IsConsistent db
      → IsConsistent (record db { simulation_results = simulation_results })
  simulation_results-IsConsistent simulation_results hs h = record {
    lobbies = h.lobbies;
    participants = h.participants;
    measurements = h.measurements;
    analysis_outputs = h.analysis_outputs;
    simulation_jobs = h.simulation_jobs;
    simulation_results = hs;
  }
