-- ===== src/Coordinator/Control.antt =====
-- The status report, cancellation, client errors and the results broadcast of
-- lobby/src/measurement_coordinator.py.
use sonalyze_backend.Prelude.{
  String, Bool, false, Option, none, some, List, [], ◌∷◌, map, ◌==◌, ◌||◌, length, count,
}
use sonalyze_backend.Json.{Value}
use sonalyze_backend.Coordinator.Model.{
  MeasurementPhase, Clients, SpeakerMeasurement, SessionStatus, MeasurementSession, all_device_ids,
}
use sonalyze_backend.Coordinator.Messages.{
  Message, Reply, MeasurementStatus, StatusReport, ok, Outcome, broadcast_to_devices,
}

-- `x in xs`
abbrev pub contains : String → List String → Bool
contains x [] = false
contains x (y ∷ ys) = y == x || contains x ys

unfoldable pub measurement_status : Clients → SpeakerMeasurement → MeasurementStatus
measurement_status h m = record {
  speaker_slot_id = (h m.speaker).slot_id;
  phase = m.phase;
  speaker_ready = (h m.speaker).is_ready;
  speaker_audio_received = (h m.speaker).audio_received;
  microphones_ready = count (λ r. (h r).is_ready) m.microphones;
  recordings_started = count (λ r. (h r).recording_started) m.microphones;
  recordings_uploaded = count (λ r. (h r).recording_uploaded) m.microphones;
  audio_hash = m.audio_hash;
}

unfoldable pub status_of : String → MeasurementSession → StatusReport
unfolding measurement_status
status_of session_id s =
    let h = s.clients in
    record {
      session_id = session_id;
      job_id = s.job_id;
      lobby_id = s.lobby_id;
      status = s.status;
      total_speakers = length s.speakers;
      completed_speakers = length s.completed_measurements;
      speakers =
          map
            (λ r. record {
              device_id = (h r).device_id;
              slot_id = (h r).slot_id;
              slot_label = (h r).slot_label;
              completed = contains (h r).slot_id s.completed_measurements;
            })
            s.speakers;
      microphones =
          map
            (λ r. record {
              device_id = (h r).device_id;
              slot_id = (h r).slot_id;
              slot_label = (h r).slot_label;
            })
            s.microphones;
      current_measurement = elim s.current_measurement [
        | none ↦ none
        | some m ↦ some (measurement_status h m)
      ];
    }

unfoldable pub get_session_status : String → MeasurementSession → Outcome
unfolding status_of
get_session_status session_id s = record {
  result = ok (Reply.status_report (status_of session_id s));
  session = s;
  sent = [];
}

-- the measurement, if there is one, is marked failed with its error
abbrev pub fail_with : String → Option SpeakerMeasurement → Option SpeakerMeasurement
fail_with reason none = none
fail_with reason (some m) = some (record m { phase = MeasurementPhase.failed; error = some reason })

unfoldable pub cancel_session : String → String → MeasurementSession → Outcome
unfolding all_device_ids broadcast_to_devices
cancel_session session_id reason s = record {
  result = ok (Reply.cancelled_reply session_id reason);
  session = record s {
    status = SessionStatus.cancelled;
    current_measurement = fail_with reason s.current_measurement;
  };
  sent = broadcast_to_devices (all_device_ids s) (Message.session_cancelled session_id reason);
}

unfoldable pub handle_error :
    String → String → String → Option String → MeasurementSession → Outcome
unfolding all_device_ids broadcast_to_devices
handle_error session_id device_id error_message error_code s = record {
  result = ok (Reply.error_reply session_id device_id error_message);
  session = record s { current_measurement = fail_with error_message s.current_measurement };
  sent =
      broadcast_to_devices (all_device_ids s)
        (Message.client_error session_id device_id error_message error_code);
}

unfoldable pub broadcast_analysis_results : String → String → Value → MeasurementSession → Outcome
unfolding all_device_ids broadcast_to_devices
broadcast_analysis_results session_id job_id results s = record {
  result = ok (Reply.results_broadcast session_id (length (all_device_ids s)));
  session = s;
  sent =
      broadcast_to_devices (all_device_ids s) (Message.analysis_results session_id job_id results);
}
