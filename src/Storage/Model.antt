-- ===== src/Storage/Model.antt =====
-- The tables of storage/src/app/models.py, each the list of its rows in the order of insertion. A uuid
-- is a text and a time is a number. A JSON column of `none` holds the
-- JSON null, which SQLAlchemy writes for None.
use sonalyze_backend.Prelude.{ℕ, String, Option, List, []}
use sonalyze_backend.Json.{Fields}

pub record Device : Type 0 where
  pub id : String
  pub external_id : String
  pub label : Option String
  pub platform : Option String
  pub meta : Option Fields
  pub created_at : ℕ

pub record Lobby : Type 0 where
  pub id : String
  pub code : String
  pub state : String
  pub creator_device_id : Option String
  pub created_at : ℕ

pub record Participant : Type 0 where
  pub id : String
  pub lobby_id : String
  pub device_id : String
  pub role : String
  pub status : String
  pub joined_at : ℕ

pub record Measurement : Type 0 where
  pub id : String
  pub lobby_id : Option String
  pub created_by_device_id : Option String
  pub kind : String
  pub sample_rate_hz : Option ℕ
  pub channels : Option ℕ
  pub raw_blob_ref : Option String
  pub raw_bytes : Option ℕ
  pub raw_sha256 : Option String
  pub meta : Option Fields
  pub started_at : Option ℕ
  pub stopped_at : Option ℕ
  pub created_at : ℕ

pub record AnalysisOutput : Type 0 where
  pub id : String
  pub measurement_id : String
  pub type : String
  pub status : String
  pub result : Option Fields
  pub created_at : ℕ

pub record SimulationJob : Type 0 where
  pub id : String
  pub requested_by_device_id : Option String
  pub lobby_id : Option String
  pub status : String
  pub params : Option Fields
  pub created_at : ℕ
  pub started_at : Option ℕ
  pub finished_at : Option ℕ
  pub error : Option String

pub record SimulationResult : Type 0 where
  pub id : String
  pub job_id : String
  pub result : Option Fields
  pub created_at : ℕ

pub record Database : Type 0 where
  pub devices : List Device
  pub lobbies : List Lobby
  pub participants : List Participant
  pub measurements : List Measurement
  pub analysis_outputs : List AnalysisOutput
  pub simulation_jobs : List SimulationJob
  pub simulation_results : List SimulationResult

abbrev pub empty_database : Database
empty_database = record {
  devices = [];
  lobbies = [];
  participants = [];
  measurements = [];
  analysis_outputs = [];
  simulation_jobs = [];
  simulation_results = [];
}
