-- ===== src/Storage/Schemas.antt =====
-- The payloads of storage/src/app/schemas.py, as pydantic hands them to the routers.
use sonalyze_backend.Prelude.{ℕ, String, Option}
use sonalyze_backend.Json.{Fields}

-- An entry of a patch: not there, null, or a value.
pub data Change (A : Type 0) : Type 0 where
  unset : Change A
  null : Change A
  set : A → Change A

pub record DeviceCreate : Type 0 where
  pub external_id : String
  pub label : Option String
  pub platform : Option String
  pub meta : Fields

pub record DevicePatch : Type 0 where
  pub label : Change String
  pub platform : Change String
  pub meta : Change Fields

pub record LobbyCreate : Type 0 where
  pub code : Option String
  pub state : Option String
  pub creator_device_id : Option String

pub record LobbyPatch : Type 0 where
  pub code : Change String
  pub state : Change String
  pub creator_device_id : Change String

pub record ParticipantCreate : Type 0 where
  pub lobby_id : String
  pub device_id : String
  pub role : Option String
  pub status : Option String

pub record ParticipantPatch : Type 0 where
  pub role : Change String
  pub status : Change String

pub record MeasurementCreate : Type 0 where
  pub lobby_id : Option String
  pub created_by_device_id : Option String
  pub kind : Option String
  pub sample_rate_hz : Option ℕ
  pub channels : Option ℕ
  pub raw_blob_ref : Option String
  pub raw_bytes : Option ℕ
  pub raw_sha256 : Option String
  pub meta : Fields
  pub started_at : Option ℕ
  pub stopped_at : Option ℕ

pub record MeasurementPatch : Type 0 where
  pub kind : Change String
  pub sample_rate_hz : Change ℕ
  pub channels : Change ℕ
  pub raw_blob_ref : Change String
  pub raw_bytes : Change ℕ
  pub raw_sha256 : Change String
  pub meta : Change Fields
  pub started_at : Change ℕ
  pub stopped_at : Change ℕ

pub record AnalysisOutputCreate : Type 0 where
  pub measurement_id : String
  pub type : String
  pub status : Option String
  pub result : Fields

pub record AnalysisOutputPatch : Type 0 where
  pub status : Change String
  pub result : Change Fields

pub record SimulationJobCreate : Type 0 where
  pub requested_by_device_id : Option String
  pub lobby_id : Option String
  pub status : Option String
  pub params : Fields

pub record SimulationJobPatch : Type 0 where
  pub status : Change String
  pub params : Change Fields
  pub started_at : Change ℕ
  pub finished_at : Change ℕ
  pub error : Change String

pub record SimulationResultCreate : Type 0 where
  pub job_id : String
  pub result : Fields

pub record SimulationResultPatch : Type 0 where
  pub result : Change Fields
