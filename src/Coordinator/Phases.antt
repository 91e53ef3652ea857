-- ===== src/Coordinator/Phases.antt =====
-- The phases of a speaker's measurement (lobby/src/measurement_coordinator.py) and what the clients
-- have reported by then.
use sonalyze_backend.Prelude.{
  ℕ, String, ◌≡◌, refl, true, Option, none, some, List, [], ◌∷◌, arith, inl, inr, Bool-cases, all,
  ◌==◌, ◌+◌, ◌++◌, ltb, length,
}
use sonalyze_backend.Coordinator.Model.{
  MeasurementPhase, Clients, SpeakerMeasurement, MeasurementSession, all_ready,
  all_recordings_uploaded,
}
use sonalyze_backend.Coordinator.Messages.{Outcome}
use sonalyze_backend.Coordinator.Start.{
  start_measurement, start_speaker, ready_in, client_ready, mark_ready, mark_first,
  with_measurement,
}
use sonalyze_backend.Coordinator.Recording.{
  audio_ready_in, speaker_audio_ready, started_in, recording_started, playback_in,
  playback_complete, next_speaker, uploaded_in, recording_uploaded, set_recording_started,
  set_uploaded,
}
use sonalyze_backend.Coordinator.Control.{
  fail_with, cancel_session, handle_error, get_session_status, broadcast_analysis_results,
}
use sonalyze_backend.Coordinator.Table.{Call, step, run}
use sonalyze_backend.Coordinator.Evidence.{
  Evidence, EvidenceFor, HasEvidence, Evidence-Grow, set_recording_started-Grown,
  set_uploaded-Grown, mark_ready-Grow,
}
use sonalyze_backend.Coordinator.Cases.{with_measurement-cases, start_measurement-cases}
use sonalyze_backend.Coordinator.Clients.{Grow-mark_first}

-- In each case the phase is new and rests on what the code has just tested or set, or the phase is
-- the old one and no flag that it rests on has been cleared.
module _ (s : MeasurementSession) (m : SpeakerMeasurement)
    (current : s.current_measurement ≡ some m) (e : Evidence s.clients m m.phase) where
  ready_in-HasEvidence :
      (url id device_id : String) → HasEvidence (ready_in url id device_id m s).session
  unfolding ready_in
  ready_in-HasEvidence url id d = elim (Bool-cases (all_ready (mark_ready d m s.clients) m)) [
    | inl t ↦ rw t t
    | inr f ↦
        rw (f, current)
          (Evidence-Grow s.clients (mark_ready d m s.clients) m m.phase
            (mark_ready-Grow d m s.clients) e)
  ]

  audio_ready_in-HasEvidence :
      (id device_id : String) (hash : Option String)
      → HasEvidence (audio_ready_in id device_id hash m s).session
  unfolding audio_ready_in
  audio_ready_in-HasEvidence id d hash = elim (Bool-cases ((s.clients m.speaker).device_id == d)) [
    | inl t ↦ rw t (ground arith)
    | inr f ↦ rw (f, current) e
  ]

  started_in-HasEvidence :
      (id device_id : String) → HasEvidence (started_in id device_id m s).session
  unfolding started_in
  started_in-HasEvidence id d =
      let h : Clients = mark_first set_recording_started d m.microphones s.clients in
      elim (Bool-cases (all (λ r. (h r).recording_started) m.microphones)) [
        | inl t ↦ rw t t
        | inr f ↦
            rw (f, current)
              (Evidence-Grow s.clients h m m.phase
                (Grow-mark_first set_recording_started set_recording_started-Grown d m.microphones
                  s.clients)
                e)
      ]

  playback_in-HasEvidence :
      (url id device_id : String) → HasEvidence (playback_in url id device_id m s).session
  unfolding playback_in
  playback_in-HasEvidence url id d = elim (Bool-cases ((s.clients m.speaker).device_id == d)) [
    | inl t ↦ rw t (ground arith)
    | inr f ↦ rw (f, current) e
  ]

next_speaker-HasEvidence :
    (id : String) (m : SpeakerMeasurement) (s : MeasurementSession)
    → s.current_measurement ≡ some m
    → m.phase ≡ MeasurementPhase.processing
    → all_recordings_uploaded s.clients m ≡ true
    → HasEvidence (next_speaker id m s).session
unfolding next_speaker all_recordings_uploaded
next_speaker-HasEvidence id m s current phase t =
    elim (Bool-cases (ltb s.current_speaker_index (length s.speakers))) [
      | inl more ↦ rw (more, current, phase) t
      | inr done ↦ rw done t
    ]

uploaded_in-HasEvidence :
    (id : String) (now : ℕ) (device_id : String) (m : SpeakerMeasurement) (s : MeasurementSession)
    → s.current_measurement ≡ some m
    → Evidence s.clients m m.phase
    → HasEvidence (uploaded_in id now device_id m s).session
unfolding uploaded_in
uploaded_in-HasEvidence id now d m s current e =
    let h : Clients = mark_first set_uploaded d m.microphones s.clients in
    elim (Bool-cases (all (λ r. (h r).recording_uploaded) m.microphones)) [
      | inl t ↦ rw t (
          next_speaker-HasEvidence id
            (record m { phase = MeasurementPhase.processing; finished_at = some now })
            (record s {
              clients = h;
              current_measurement =
                  some (record m { phase = MeasurementPhase.processing; finished_at = some now });
              completed_measurements = s.completed_measurements ++ (h m.speaker).slot_id ∷ [];
              current_speaker_index = s.current_speaker_index + 1;
            })
            refl refl t)
      | inr f ↦
          rw (f, current)
            (Evidence-Grow s.clients h m m.phase
              (Grow-mark_first set_uploaded set_uploaded-Grown d m.microphones s.clients) e)
    ]

with_measurement-HasEvidence :
    (body : SpeakerMeasurement → MeasurementSession → Outcome) (s : MeasurementSession)
    → ((m : SpeakerMeasurement)
        → s.current_measurement ≡ some m
        → Evidence s.clients m m.phase
        → HasEvidence (body m s).session)
    → HasEvidence s
    → HasEvidence (with_measurement body s).session
with_measurement-HasEvidence body s keep e =
    with_measurement-cases (λ o. HasEvidence o.session) body s (λ _. e)
      λ m current. let f : Evidence s.clients m m.phase = rw current at e in keep m current f

start_measurement-HasEvidence :
    (id : String) (now : ℕ) (s : MeasurementSession)
    → HasEvidence s
    → HasEvidence (start_measurement id now s).session
unfolding start_speaker
start_measurement-HasEvidence id now s e =
    start_measurement-cases (λ o. HasEvidence o.session) id now s (λ _. e) (λ r left. tt)

fail_with-EvidenceFor :
    (h : Clients) (o : Option SpeakerMeasurement) (x : String) → EvidenceFor h (fail_with x o)
fail_with-EvidenceFor h none x = tt
fail_with-EvidenceFor h (some m) x = tt

-- Every call keeps the evidence for the phase.
pub step-HasEvidence :
    (url id : String) (c : Call) (s : MeasurementSession)
    → HasEvidence s
    → HasEvidence (step url id c s).session
unfolding step client_ready speaker_audio_ready recording_started playback_complete
    recording_uploaded get_session_status cancel_session handle_error broadcast_analysis_results
step-HasEvidence url id (Call.start_measurement now) s e = start_measurement-HasEvidence id now s e
step-HasEvidence url id (Call.client_ready d) s e =
    with_measurement-HasEvidence (ready_in url id d) s
      (λ m current f. ready_in-HasEvidence s m current f url id d) e
step-HasEvidence url id (Call.speaker_audio_ready d hash) s e =
    with_measurement-HasEvidence (audio_ready_in id d hash) s
      (λ m current f. audio_ready_in-HasEvidence s m current f id d hash) e
step-HasEvidence url id (Call.recording_started d) s e =
    with_measurement-HasEvidence (started_in id d) s
      (λ m current f. started_in-HasEvidence s m current f id d) e
step-HasEvidence url id (Call.playback_complete d) s e =
    with_measurement-HasEvidence (playback_in url id d) s
      (λ m current f. playback_in-HasEvidence s m current f url id d) e
step-HasEvidence url id (Call.recording_uploaded now d name) s e =
    with_measurement-HasEvidence (uploaded_in id now d) s
      (λ m current f. uploaded_in-HasEvidence id now d m s current f) e
step-HasEvidence url id Call.get_session_status s e = e
step-HasEvidence url id (Call.cancel_session x) s e =
    fail_with-EvidenceFor s.clients s.current_measurement x
step-HasEvidence url id (Call.handle_error d x code) s e =
    fail_with-EvidenceFor s.clients s.current_measurement x
step-HasEvidence url id (Call.broadcast_analysis_results job results) s e = e

-- If what the phase of the current measurement says of the clients is true, as it is in a new session,
-- then it is true after any calls: all are ready when the speaker is to load its audio, the speaker has its audio when recording is to start, all
-- microphones have started when the speaker is to play, the speaker has finished when recordings are to
-- be uploaded, and all microphones have uploaded when the measurement is processed or completed.
pub run-HasEvidence :
    (url id : String) (calls : List Call) (s : MeasurementSession)
    → HasEvidence s
    → HasEvidence (run url id calls s)
unfolding run
run-HasEvidence url id [] s e = e
run-HasEvidence url id (c ∷ cs) s e =
    run-HasEvidence url id cs (step url id c s).session (step-HasEvidence url id c s e)
