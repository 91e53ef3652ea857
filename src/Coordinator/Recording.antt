-- ===== src/Coordinator/Recording.antt =====
-- Steps 5 to 11 of lobby/src/measurement_coordinator.py: the speaker has its audio, the microphones
-- record, the speaker plays, the recordings are uploaded.
use Prim.Native.String.{◌++◌ as ◌<>◌}
use sonalyze_backend.Prelude.{
  ℕ, ◌+◌, ◌-◌, String, true, Option, none, some, [], ◌∷◌, ◌++◌, ◌==◌, ltb, if◌then◌else◌, length,
  count,
}
use sonalyze_backend.Coordinator.Model.{
  MeasurementPhase, MeasurementClient, modify, SpeakerMeasurement, SessionStatus,
  MeasurementSession, all_recordings_started, all_recordings_uploaded, all_device_ids, device_ids,
}
use sonalyze_backend.Coordinator.Messages.{
  Message, Reply, SessionError, ok, err, Outcome, broadcast_to_devices, broadcast_phase_update,
}
use sonalyze_backend.Coordinator.Start.{mark_first, set_phase, with_measurement}

abbrev pub refuse : SessionError → MeasurementSession → Outcome
refuse e s = record { result = err e; session = s; sent = [] }

abbrev pub set_audio_received : MeasurementClient → MeasurementClient
set_audio_received c = record c { audio_received = true }

abbrev pub set_recording_started : MeasurementClient → MeasurementClient
set_recording_started c = record c { recording_started = true }

abbrev pub set_finished : MeasurementClient → MeasurementClient
set_finished c = record c { is_finished = true }

abbrev pub set_uploaded : MeasurementClient → MeasurementClient
set_uploaded c = record c { recording_uploaded = true }

-- `speaker_audio_ready` with the current measurement at hand
unfoldable pub audio_ready_in :
    String → String → Option String → SpeakerMeasurement → MeasurementSession → Outcome
unfolding all_device_ids broadcast_to_devices broadcast_phase_update
audio_ready_in session_id device_id audio_hash m s =
    let h = modify m.speaker set_audio_received s.clients in
    let m' = record m { phase = MeasurementPhase.starting_recording; audio_hash = audio_hash } in
    let s' = record s { clients = h; current_measurement = some m' } in
    if (s.clients m.speaker).device_id == device_id
    then record {
      result = ok (Reply.commanding_recording_start session_id audio_hash);
      session = s';
      sent =
          broadcast_phase_update s' MeasurementPhase.speaker_ready none
          ++ (broadcast_phase_update s' MeasurementPhase.starting_recording none
              ++ broadcast_to_devices (device_ids h m.microphones)
                  (Message.start_recording session_id (h m.speaker).slot_id 15));
    }
    else refuse SessionError.only_speaker_audio_ready s

unfoldable pub speaker_audio_ready : String → String → Option String → MeasurementSession → Outcome
unfolding audio_ready_in
speaker_audio_ready session_id device_id audio_hash =
    with_measurement (audio_ready_in session_id device_id audio_hash)

-- `recording_started` with the current measurement at hand
unfoldable pub started_in : String → String → SpeakerMeasurement → MeasurementSession → Outcome
unfolding mark_first all_recordings_started all_device_ids broadcast_to_devices
    broadcast_phase_update
started_in session_id device_id m s =
    let h = mark_first set_recording_started device_id m.microphones s.clients in
    let started = count (λ r. (h r).recording_started) m.microphones in
    let total = length m.microphones in
    let s' = record s { clients = h } in
    let s'' = record s {
      clients = h;
      current_measurement = some (set_phase MeasurementPhase.playing m);
    } in
    if all_recordings_started h m
    then record {
      result = ok (Reply.all_recording session_id);
      session = s'';
      sent =
          broadcast_phase_update s'' MeasurementPhase.playing none
          ++ broadcast_to_devices ((h m.speaker).device_id ∷ [])
              (Message.start_playback session_id);
    }
    else record {
      result = ok (Reply.waiting_recordings session_id started total);
      session = s';
      sent = broadcast_phase_update s' m.phase (some (started, total));
    }

unfoldable pub recording_started : String → String → MeasurementSession → Outcome
unfolding started_in
recording_started session_id device_id = with_measurement (started_in session_id device_id)

-- `playback_complete` with the current measurement at hand
unfoldable pub playback_in :
    String → String → String → SpeakerMeasurement → MeasurementSession → Outcome
unfolding all_device_ids broadcast_to_devices broadcast_phase_update
playback_in gateway_url session_id device_id m s =
    let h = modify m.speaker set_finished s.clients in
    let s' = record s {
      clients = h;
      current_measurement = some (set_phase MeasurementPhase.uploading m);
    } in
    if (s.clients m.speaker).device_id == device_id
    then record {
      result = ok (Reply.playback_complete_reply session_id);
      session = s';
      sent =
          broadcast_phase_update s' MeasurementPhase.playback_complete none
          ++ (broadcast_phase_update s' MeasurementPhase.uploading none
              ++ broadcast_to_devices (device_ids h m.microphones) (
                  Message.stop_recording session_id s.job_id (h m.speaker).slot_id
                    (gateway_url <> ("/v1/jobs/" <> (s.job_id <> "/uploads/")))));
    }
    else refuse SessionError.only_speaker_playback_complete s

unfoldable pub playback_complete : String → String → String → MeasurementSession → Outcome
unfolding playback_in
playback_complete gateway_url session_id device_id =
    with_measurement (playback_in gateway_url session_id device_id)

-- `recording_uploaded` after the last recording has come in: `s` is the session with the speaker
-- added to the completed ones, `m` its measurement, and `sent` what was broadcast before.
unfoldable pub next_speaker : String → SpeakerMeasurement → MeasurementSession → Outcome
unfolding all_device_ids broadcast_to_devices broadcast_phase_update
next_speaker session_id m s =
    let slot = (s.clients m.speaker).slot_id in
    let remaining = length s.speakers - s.current_speaker_index in
    let s' = record s {
      current_measurement = some (set_phase MeasurementPhase.completed m);
      status = SessionStatus.completed;
    } in
    if ltb s.current_speaker_index (length s.speakers)
    then record {
      result = ok (Reply.speaker_measurement_complete session_id slot remaining);
      session = s;
      sent =
          broadcast_to_devices (all_device_ids s)
            (Message.speaker_complete session_id slot remaining);
    }
    else record {
      result = ok (Reply.session_complete_reply session_id s.completed_measurements m.audio_hash);
      session = s';
      sent =
          broadcast_phase_update s' MeasurementPhase.completed none
          ++ broadcast_to_devices (all_device_ids s)
              (Message.session_complete session_id s.job_id s.completed_measurements m.audio_hash);
    }

-- `recording_uploaded` with the current measurement at hand
unfoldable pub uploaded_in : String → ℕ → String → SpeakerMeasurement → MeasurementSession → Outcome
unfolding mark_first all_recordings_uploaded next_speaker
uploaded_in session_id now device_id m s =
    let h = mark_first set_uploaded device_id m.microphones s.clients in
    let m' = record m { phase = MeasurementPhase.processing; finished_at = some now } in
    let s' = record s { clients = h; current_measurement = some m' } in
    let last = next_speaker session_id m' (record s' {
      completed_measurements = s.completed_measurements ++ (h m.speaker).slot_id ∷ [];
      current_speaker_index = s.current_speaker_index + 1;
    }) in
    if all_recordings_uploaded h m
    then record last {
      sent = broadcast_phase_update s' MeasurementPhase.processing none ++ last.sent;
    }
    else record {
      result = ok (
          Reply.waiting_uploads session_id (count (λ r. (h r).recording_uploaded) m.microphones)
            (length m.microphones));
      session = record s { clients = h };
      sent = [];
    }

-- `upload_name` is only logged.
unfoldable pub recording_uploaded : String → ℕ → String → String → MeasurementSession → Outcome
unfolding uploaded_in
recording_uploaded session_id now device_id upload_name =
    with_measurement (uploaded_in session_id now device_id)
