-- ===== src/Coordinator/Model.antt =====
-- The data of lobby/src/measurement_coordinator.py. A session holds its clients by reference: the
-- objects of `session.speakers`, `session.microphones` and of the current measurement are shared,
-- so a client is a number, and the objects stand in the heap `clients` of the session.
use sonalyze_backend.Prelude.{
  ℕ, String, Bool, ◌&&◌, Option, List, ◌++◌, map, nat_eq, if◌then◌else◌, all,
}

pub data MeasurementPhase : Type 0 where
  idle : MeasurementPhase
  initiating : MeasurementPhase
  notifying_clients : MeasurementPhase
  waiting_ready : MeasurementPhase
  speaker_downloading : MeasurementPhase
  speaker_ready : MeasurementPhase
  starting_recording : MeasurementPhase
  recording : MeasurementPhase
  playing : MeasurementPhase
  playback_complete : MeasurementPhase
  uploading : MeasurementPhase
  processing : MeasurementPhase
  completed : MeasurementPhase
  failed : MeasurementPhase

pub data ClientRole : Type 0 where
  speaker microphone : ClientRole

pub record MeasurementClient : Type 0 where
  pub device_id : String
  pub role : ClientRole
  pub slot_id : String
  pub slot_label : Option String
  pub is_ready : Bool
  pub is_finished : Bool
  pub recording_uploaded : Bool
  pub recording_started : Bool
  pub audio_received : Bool
  pub error : Option String

-- The client objects, by reference.
abbrev pub Clients : Type 0
Clients = ℕ → MeasurementClient

-- An assignment to attributes of the object at `r`.
abbrev pub modify : ℕ → (MeasurementClient → MeasurementClient) → Clients → Clients
modify r f h q = if nat_eq q r then f (h q) else h q

pub record SpeakerMeasurement : Type 0 where
  pub speaker : ℕ
  pub microphones : List ℕ
  pub phase : MeasurementPhase
  pub started_at : Option ℕ
  pub finished_at : Option ℕ
  pub audio_file_id : Option String
  pub audio_hash : Option String
  pub error : Option String

-- the values that the field `status` takes
pub data SessionStatus : Type 0 where
  created running completed cancelled : SessionStatus

pub record MeasurementSession : Type 0 where
  pub session_id : String
  pub job_id : String
  pub lobby_id : String
  pub speakers : List ℕ
  pub microphones : List ℕ
  pub clients : Clients
  pub current_speaker_index : ℕ
  pub current_measurement : Option SpeakerMeasurement
  pub completed_measurements : List String
  pub created_at : ℕ
  pub status : SessionStatus
  pub error : Option String

-- the properties of `SpeakerMeasurement`
unfoldable pub all_ready : Clients → SpeakerMeasurement → Bool
all_ready h m = (h m.speaker).is_ready && all (λ r. (h r).is_ready) m.microphones

unfoldable pub all_recordings_started : Clients → SpeakerMeasurement → Bool
all_recordings_started h m = all (λ r. (h r).recording_started) m.microphones

unfoldable pub all_recordings_uploaded : Clients → SpeakerMeasurement → Bool
all_recordings_uploaded h m = all (λ r. (h r).recording_uploaded) m.microphones

-- `[s.device_id for s in session.speakers] + [m.device_id for m in session.microphones]`
abbrev pub device_ids : Clients → List ℕ → List String
device_ids h = map (λ r. (h r).device_id)

unfoldable pub all_device_ids : MeasurementSession → List String
all_device_ids s = device_ids s.clients s.speakers ++ device_ids s.clients s.microphones
