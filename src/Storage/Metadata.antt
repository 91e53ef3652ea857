-- ===== src/Storage/Metadata.antt =====
-- Which answers of the storage service the response models `DeviceOut` and `MeasurementOut` of
-- storage/src/app/schemas.py let through.
use sonalyze_backend.Prelude.{
  String, ◌≡◌, refl, ap, ◌∙◌, false, Option, none, some, [], ◌∷◌, inl, inr, Bool-cases,
}
use sonalyze_backend.Json.{Fields}
use sonalyze_backend.Storage.Model.{
  Device, Lobby, Participant, Measurement, AnalysisOutput, SimulationJob, SimulationResult,
  Database,
}
use sonalyze_backend.Storage.Rows.{get}
use sonalyze_backend.Storage.Answers.{Attribute, is_dict, meta_attributes, is_meta_valid, is_valid}
use sonalyze_backend.Storage.Common.{
  Framework, Violation, Body, Response, body, http, Endpoint, respond, commit, with_row, show,
  no_null, not_found,
}
use sonalyze_backend.Storage.Api.{Request, serve}
use sonalyze_backend.Storage.Devices
use sonalyze_backend.Storage.Lobbies
use sonalyze_backend.Storage.Participants
use sonalyze_backend.Storage.Measurements
use sonalyze_backend.Storage.AnalysisOutputs
use sonalyze_backend.Storage.SimulationJobs
use sonalyze_backend.Storage.SimulationResults

-- An answer that shows no device and no measurement, alone or in a list.
abbrev HidesBody : Body → Type 0
HidesBody (Body.device _) = ⊥
HidesBody (Body.devices []) = Unit
HidesBody (Body.devices (_ ∷ _)) = ⊥
HidesBody (Body.lobby _) = Unit
HidesBody (Body.lobbies _) = Unit
HidesBody (Body.participant _) = Unit
HidesBody (Body.participants _) = Unit
HidesBody (Body.measurement _) = ⊥
HidesBody (Body.measurements []) = Unit
HidesBody (Body.measurements (_ ∷ _)) = ⊥
HidesBody (Body.analysis_output _) = Unit
HidesBody (Body.analysis_outputs _) = Unit
HidesBody (Body.simulation_job _) = Unit
HidesBody (Body.simulation_jobs _) = Unit
HidesBody (Body.simulation_result _) = Unit
HidesBody (Body.simulation_results _) = Unit
HidesBody Body.deleted = Unit

abbrev pub Hides : Response → Type 0
Hides (body answer) = HidesBody answer
Hides (http code detail) = Unit

-- pydantic reads a field by its alias before it tries the name
abbrev pub ReadsAlias : Framework → Type 0
ReadsAlias fw =
    (alias name : String) (attributes : String → Option Attribute) (value : Attribute)
    → attributes alias ≡ some value
    → fw.get_field alias name attributes ≡ some value

module _ (fw : Framework) (reads_alias : ReadsAlias fw)
    (not_dict : is_dict (some fw.class_metadata) ≡ false) where
  meta-refused : (meta : Option Fields) → is_meta_valid fw meta ≡ false
  unfolding is_meta_valid
  meta-refused meta =
      ap is_dict (
        reads_alias "metadata" "meta" (meta_attributes fw.class_metadata meta) fw.class_metadata
          refl)
      ∙ not_dict

  passed-Hides : (answer : Body) → HidesBody answer → Hides (respond fw answer)
  passed-Hides answer h = elim (Bool-cases (is_valid fw answer)) [
    | inl e ↦ rw e h
    | inr e ↦ rw e tt
  ]

  refused-Hides : (answer : Body) → is_valid fw answer ≡ false → Hides (respond fw answer)
  refused-Hides answer e = rw e tt

  respond-Hides : (answer : Body) → Hides (respond fw answer)
  unfolding is_valid
  respond-Hides (Body.device d) = refused-Hides (Body.device d) (meta-refused d.meta)
  respond-Hides (Body.devices []) = tt
  respond-Hides (Body.devices (d ∷ ds)) =
      refused-Hides (Body.devices (d ∷ ds)) (rw (meta-refused d.meta) refl)
  respond-Hides (Body.lobby l) = tt
  respond-Hides (Body.lobbies ls) = tt
  respond-Hides (Body.participant p) = tt
  respond-Hides (Body.participants ps) = tt
  respond-Hides (Body.measurement m) = refused-Hides (Body.measurement m) (meta-refused m.meta)
  respond-Hides (Body.measurements []) = tt
  respond-Hides (Body.measurements (m ∷ ms)) =
      refused-Hides (Body.measurements (m ∷ ms)) (rw (meta-refused m.meta) refl)
  respond-Hides (Body.analysis_output o) = passed-Hides (Body.analysis_output o) tt
  respond-Hides (Body.analysis_outputs os) = passed-Hides (Body.analysis_outputs os) tt
  respond-Hides (Body.simulation_job j) = passed-Hides (Body.simulation_job j) tt
  respond-Hides (Body.simulation_jobs js) = passed-Hides (Body.simulation_jobs js) tt
  respond-Hides (Body.simulation_result r) = passed-Hides (Body.simulation_result r) tt
  respond-Hides (Body.simulation_results rs) = passed-Hides (Body.simulation_results rs) tt
  respond-Hides Body.deleted = tt

  commit-Hides :
      (failure : Violation → Response) (v : Option Violation) (answer : Body) (after db : Database)
      → ((w : Violation) → Hides (failure w))
      → Hides ((commit fw failure v answer after db).0)
  commit-Hides failure none answer after db h = respond-Hides answer
  commit-Hides failure (some w) answer after db h = h w

  with_row-Hides :
      {A : Type 0} (entity : String) (found : Option A) (next : A → Endpoint) (db : Database)
      → ((row : A) → Hides ((next row db).0))
      → Hides ((with_row entity found next db).0)
  unfolding not_found
  with_row-Hides entity none next db h = tt
  with_row-Hides entity (some row) next db h = h row

  show-Hides :
      {A : Type 0} (entity : String) (view : A → Body) (found : Option A) (db : Database)
      → Hides ((show fw entity view found db).0)
  unfolding not_found
  show-Hides entity view none db = tt
  show-Hides entity view (some row) db = respond-Hides (view row)

  -- Where pydantic reads a field by its alias first, and the attribute `metadata` that SQLAlchemy gives to
  -- every row is not a dict, no request to the storage service is answered by a device or a measurement, nor
  -- by a list that is not empty of these.
  pub serve-Hides : (request : Request) (db : Database) → Hides ((serve fw request db).0)
  unfolding serve get
  serve-Hides (Request.upsert_device stamp payload) db =
      commit-Hides _
        (Devices.upsert_violation stamp (Devices.by_external_id payload.external_id db.devices)
          db.devices)
        _ _ db (λ w. tt)
  serve-Hides (Request.list_devices limit offset) db = respond-Hides _
  serve-Hides (Request.get_device id) db =
      show-Hides "device" Body.device (get Device.id id db.devices) db
  serve-Hides (Request.get_device_by_external_id id) db =
      show-Hides "device" Body.device (Devices.by_external_id id db.devices) db
  serve-Hides (Request.patch_device id payload) db =
      with_row-Hides "device" (get Device.id id db.devices) _ db
        (λ row. respond-Hides (Body.device (Devices.patch_device_row payload row)))
  serve-Hides (Request.delete_device id) db =
      with_row-Hides "device" (get Device.id id db.devices) _ db (λ row. respond-Hides Body.deleted)
  serve-Hides (Request.create_lobby stamp payload) db =
      commit-Hides _ (Lobbies.lobby_violation db db.lobbies (Lobbies.new_lobby fw stamp payload)) _
        _ db (λ w. tt)
  serve-Hides (Request.list_lobbies limit offset) db = respond-Hides _
  serve-Hides (Request.get_lobby id) db =
      show-Hides "lobby" Body.lobby (get Lobby.id id db.lobbies) db
  serve-Hides (Request.get_lobby_by_code id) db =
      show-Hides "lobby" Body.lobby (Lobbies.by_code id db.lobbies) db
  serve-Hides (Request.patch_lobby id payload) db =
      with_row-Hides "lobby" (get Lobby.id id db.lobbies) _ db
        (λ row. commit-Hides _ (Lobbies.patch_lobby_violation db payload row) _ _ db (λ w. tt))
  serve-Hides (Request.delete_lobby id) db =
      with_row-Hides "lobby" (get Lobby.id id db.lobbies) _ db (λ row. respond-Hides Body.deleted)
  serve-Hides (Request.create_participant stamp payload) db =
      commit-Hides _
        (Participants.participant_violation db (Participants.new_participant stamp payload)) _ _ db
        (λ w. tt)
  serve-Hides (Request.list_participants filter other limit offset) db = respond-Hides _
  serve-Hides (Request.get_participant id) db =
      show-Hides "participant" Body.participant (get Participant.id id db.participants) db
  serve-Hides (Request.patch_participant id payload) db =
      with_row-Hides "participant" (get Participant.id id db.participants) _ db
        (λ row. commit-Hides _ (Participants.patch_participant_violation payload) _ _ db (λ w. tt))
  serve-Hides (Request.delete_participant id) db =
      with_row-Hides "participant" (get Participant.id id db.participants) _ db
        (λ row. respond-Hides Body.deleted)
  serve-Hides (Request.create_measurement stamp payload) db =
      commit-Hides _
        (Measurements.measurement_violation db (Measurements.new_measurement stamp payload)) _ _ db
        (λ w. tt)
  serve-Hides (Request.list_measurements filter other limit offset) db = respond-Hides _
  serve-Hides (Request.get_measurement id) db =
      show-Hides "measurement" Body.measurement (get Measurement.id id db.measurements) db
  serve-Hides (Request.patch_measurement id payload) db =
      with_row-Hides "measurement" (get Measurement.id id db.measurements) _ db
        (λ row. commit-Hides _ (no_null "kind" payload.kind) _ _ db (λ w. tt))
  serve-Hides (Request.delete_measurement id) db =
      with_row-Hides "measurement" (get Measurement.id id db.measurements) _ db
        (λ row. respond-Hides Body.deleted)
  serve-Hides (Request.create_analysis_output stamp payload) db =
      commit-Hides _
        (AnalysisOutputs.analysis_output_violation db
          (AnalysisOutputs.new_analysis_output stamp payload))
        _ _ db (λ w. tt)
  serve-Hides (Request.list_analysis_outputs filter limit offset) db = respond-Hides _
  serve-Hides (Request.get_analysis_output id) db =
      show-Hides "analysis output" Body.analysis_output
        (get AnalysisOutput.id id db.analysis_outputs) db
  serve-Hides (Request.patch_analysis_output id payload) db =
      with_row-Hides "analysis output" (get AnalysisOutput.id id db.analysis_outputs) _ db
        (λ row. commit-Hides _ (no_null "status" payload.status) _ _ db (λ w. tt))
  serve-Hides (Request.delete_analysis_output id) db =
      with_row-Hides "analysis output" (get AnalysisOutput.id id db.analysis_outputs) _ db
        (λ row. respond-Hides Body.deleted)
  serve-Hides (Request.create_simulation_job stamp payload) db =
      commit-Hides _
        (SimulationJobs.simulation_job_violation db
          (SimulationJobs.new_simulation_job stamp payload))
        _ _ db (λ w. tt)
  serve-Hides (Request.list_simulation_jobs filter other limit offset) db = respond-Hides _
  serve-Hides (Request.get_simulation_job id) db =
      show-Hides "simulation job" Body.simulation_job (get SimulationJob.id id db.simulation_jobs)
        db
  serve-Hides (Request.patch_simulation_job id payload) db =
      with_row-Hides "simulation job" (get SimulationJob.id id db.simulation_jobs) _ db
        (λ row. commit-Hides _ (no_null "status" payload.status) _ _ db (λ w. tt))
  serve-Hides (Request.delete_simulation_job id) db =
      with_row-Hides "simulation job" (get SimulationJob.id id db.simulation_jobs) _ db
        (λ row. respond-Hides Body.deleted)
  serve-Hides (Request.create_simulation_result stamp payload) db =
      commit-Hides _
        (SimulationResults.simulation_result_violation db
          (SimulationResults.new_simulation_result stamp payload))
        _ _ db (λ w. tt)
  serve-Hides (Request.list_simulation_results filter limit offset) db = respond-Hides _
  serve-Hides (Request.get_simulation_result id) db =
      show-Hides "simulation result" Body.simulation_result
        (get SimulationResult.id id db.simulation_results) db
  serve-Hides (Request.get_simulation_result_by_job id) db =
      show-Hides "simulation result" Body.simulation_result
        (SimulationResults.by_job id db.simulation_results) db
  serve-Hides (Request.patch_simulation_result id payload) db =
      with_row-Hides "simulation result" (get SimulationResult.id id db.simulation_results) _ db
        (λ row.
          respond-Hides
            (Body.simulation_result (SimulationResults.patch_simulation_result_row payload row)))
  serve-Hides (Request.delete_simulation_result id) db =
      with_row-Hides "simulation result" (get SimulationResult.id id db.simulation_results) _ db
        (λ row. respond-Hides Body.deleted)
