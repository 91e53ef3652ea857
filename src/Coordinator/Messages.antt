-- ===== src/Coordinator/Messages.antt =====
-- What the coordinator sends and returns (lobby/src/measurement_coordinator.py): the broadcasts,
-- the returned dicts and the raised errors.
use sonalyze_backend.Prelude.{ℕ, String, Bool, Option, List, [], ◌∷◌, length}
use sonalyze_backend.Json.{Value}
use sonalyze_backend.Coordinator.Model.{
  MeasurementPhase, SessionStatus, MeasurementSession, all_device_ids,
}

-- The data of a `measurement.phase_update`; `extra` holds `recordings_started` and
-- `total_microphones` where they are sent.
pub record PhaseUpdate : Type 0 where
  pub session_id : String
  pub job_id : String
  pub phase : MeasurementPhase
  pub phase_description : String
  pub current_speaker_index : ℕ
  pub total_speakers : ℕ
  pub completed_speakers : ℕ
  pub extra : Option (ℕ × ℕ)

-- The events that are broadcast, each with the entries of its data in the order of the source.
pub data Message : Type 0 where
  start_measurement : String → String → String → Option String → String → ℕ → Message
  phase_update : PhaseUpdate → Message
  request_audio : String → String → Message
  start_recording : String → String → ℕ → Message
  start_playback : String → Message
  stop_recording : String → String → String → String → Message
  speaker_complete : String → String → ℕ → Message
  session_complete : String → String → List String → Option String → Message
  session_cancelled : String → String → Message
  client_error : String → String → String → Option String → Message
  analysis_results : String → String → Value → Message

pub record Broadcast : Type 0 where
  pub targets : List String
  pub message : Message

-- `_broadcast_to_devices`: nothing is sent to an empty list, and a failure to send is swallowed.
unfoldable pub broadcast_to_devices : List String → Message → List Broadcast
broadcast_to_devices [] message = []
broadcast_to_devices (d ∷ ds) message = record { targets = d ∷ ds; message = message } ∷ []

-- The parts of the dict that `get_session_status` returns.
pub record SpeakerStatus : Type 0 where
  pub device_id : String
  pub slot_id : String
  pub slot_label : Option String
  pub completed : Bool

pub record MicrophoneInfo : Type 0 where
  pub device_id : String
  pub slot_id : String
  pub slot_label : Option String

pub record MeasurementStatus : Type 0 where
  pub speaker_slot_id : String
  pub phase : MeasurementPhase
  pub speaker_ready : Bool
  pub speaker_audio_received : Bool
  pub microphones_ready : ℕ
  pub recordings_started : ℕ
  pub recordings_uploaded : ℕ
  pub audio_hash : Option String

pub record StatusReport : Type 0 where
  pub session_id : String
  pub job_id : String
  pub lobby_id : String
  pub status : SessionStatus
  pub total_speakers : ℕ
  pub completed_speakers : ℕ
  pub speakers : List SpeakerStatus
  pub microphones : List MicrophoneInfo
  pub current_measurement : Option MeasurementStatus

-- Each constructor is one shape of the returned dict, named after its `status`.
pub data Reply : Type 0 where
  all_measured : String → List String → Reply
  notifying_clients : String → String × String × Option String → List (String × String) → Reply
  all_ready_reply : String → Reply
  waiting : String → Bool → ℕ → ℕ → Reply
  commanding_recording_start : String → Option String → Reply
  all_recording : String → Reply
  waiting_recordings : String → ℕ → ℕ → Reply
  playback_complete_reply : String → Reply
  speaker_measurement_complete : String → String → ℕ → Reply
  session_complete_reply : String → List String → Option String → Reply
  waiting_uploads : String → ℕ → ℕ → Reply
  status_report : StatusReport → Reply
  cancelled_reply : String → String → Reply
  error_reply : String → String → String → Reply
  results_broadcast : String → ℕ → Reply

-- the `ValueError`s, by their messages
pub data SessionError : Type 0 where
  session_not_found : String → SessionError
  no_active_measurement : SessionError
  only_speaker_audio_ready : SessionError
  only_speaker_playback_complete : SessionError

pub data Result : Type 0 where
  ok : Reply → Result
  err : SessionError → Result

-- What one call does to its session: the reply or the raise, the session, the broadcasts in order.
pub record Outcome : Type 0 where
  pub result : Result
  pub session : MeasurementSession
  pub sent : List Broadcast

-- `_get_phase_description`
unfoldable pub phase_description : MeasurementPhase → String
phase_description MeasurementPhase.idle = "Idle - Waiting to start"
phase_description MeasurementPhase.initiating = "Initiating measurement"
phase_description MeasurementPhase.notifying_clients = "Notifying all devices"
phase_description MeasurementPhase.waiting_ready = "Waiting for devices to be ready"
phase_description MeasurementPhase.speaker_downloading = "Speaker downloading audio"
phase_description MeasurementPhase.speaker_ready = "Speaker ready to play"
phase_description MeasurementPhase.starting_recording = "Starting recording on microphones"
phase_description MeasurementPhase.recording = "Recording in progress"
phase_description MeasurementPhase.playing = "Playing measurement signal"
phase_description MeasurementPhase.playback_complete = "Playback complete"
phase_description MeasurementPhase.uploading = "Uploading recordings"
phase_description MeasurementPhase.processing = "Processing recordings"
phase_description MeasurementPhase.completed = "Measurement complete"
phase_description MeasurementPhase.failed = "Measurement failed"

-- `_broadcast_phase_update`, to every device of the session.
unfoldable pub broadcast_phase_update :
    MeasurementSession → MeasurementPhase → Option (ℕ × ℕ) → List Broadcast
broadcast_phase_update s phase extra = broadcast_to_devices (all_device_ids s) (
    Message.phase_update (record {
      session_id = s.session_id;
      job_id = s.job_id;
      phase = phase;
      phase_description = phase_description phase;
      current_speaker_index = s.current_speaker_index;
      total_speakers = length s.speakers;
      completed_speakers = length s.completed_measurements;
      extra = extra;
    }))
