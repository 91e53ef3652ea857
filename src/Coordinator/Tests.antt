-- ===== src/Coordinator/Tests.antt =====
-- Runs of the coordinator (lobby/src/measurement_coordinator.py) on small sessions, and the theorems
-- about it at them.
use sonalyze_backend.Prelude.{
  not, sym, subst, ℕ, String, ◌≡◌, ◌≢◌, refl, inr, true, none, some, List, [], ◌∷◌, ◌++◌, map, All,
  In, inl, lookup, insert, arith, ◌+◌,
}
use sonalyze_backend.Coordinator.Model.{
  MeasurementPhase, SpeakerMeasurement, MeasurementSession, all_recordings_uploaded, all_ready,
}
use sonalyze_backend.Coordinator.Messages.{Broadcast, SessionError}
use sonalyze_backend.Coordinator.Start.{ClientInfo, create_session}
use sonalyze_backend.Coordinator.Start
use sonalyze_backend.Coordinator.Recording
use sonalyze_backend.Coordinator.Recording.{recording_uploaded}
use sonalyze_backend.Coordinator.Table.{World, Call, step, call, run, broadcasts, add_session}
use sonalyze_backend.Coordinator.Evidence.{HasEvidence}
use sonalyze_backend.Coordinator.Phases.{run-HasEvidence}
use sonalyze_backend.Coordinator.Participants.{Kept, step-Kept}
use sonalyze_backend.Coordinator.Created.{requested, create_session-Addressed}
use sonalyze_backend.Coordinator.Progress.{Advanced, run-Advanced}
use sonalyze_backend.Coordinator.Errors.{call-err}
use sonalyze_backend.Coordinator.Deadlock.{IsShared, Waits, ready_run-Waits}
use sonalyze_backend.Coordinator.Ready.{ready_run-completes}
use sonalyze_backend.Coordinator.Completion.{
  is_among, Awaits, HasCompleted, uploads_run-HasCompleted,
}
use sonalyze_backend.Coordinator.Duplicates.{recording_uploaded-repeated}

abbrev url : String
url = "https://host"

abbrev phone : String → String → ClientInfo
phone device slot = record { device_id = device; slot_id = slot; slot_label = none }

abbrev left_speaker : List ClientInfo
left_speaker = phone "a" "L" ∷ []

abbrev two_microphones : List ClientInfo
two_microphones = phone "b" "M1" ∷ phone "c" "M2" ∷ []

abbrev new_session : MeasurementSession
new_session = create_session "s1" 0 "job" "lobby" left_speaker two_microphones

-- one speaker's measurement
abbrev protocol : List Call
protocol =
    Call.start_measurement 1
    ∷ Call.client_ready "a"
    ∷ Call.client_ready "b"
    ∷ Call.client_ready "c"
    ∷ Call.speaker_audio_ready "a" (some "hash")
    ∷ Call.recording_started "b"
    ∷ Call.recording_started "c"
    ∷ Call.playback_complete "a"
    ∷ Call.recording_uploaded 2 "b" "b.wav"
    ∷ Call.recording_uploaded 3 "c" "c.wav"
    ∷ []

protocol-completes : (run url "s1" protocol new_session).completed_measurements ≡ "L" ∷ []
unfolding run step create_session Start.start_measurement Start.client_ready
    Recording.speaker_audio_ready Recording.recording_started Recording.playback_complete
    recording_uploaded
protocol-completes = refl

run-HasEvidence_example : HasEvidence (run url "s1" protocol new_session)
unfolding create_session
run-HasEvidence_example = run-HasEvidence url "s1" protocol new_session tt

create_session-Addressed_example :
    All
      (λ (b : Broadcast).
        All
          (λ (d : String). In d (requested "s1" 0 "job" "lobby" left_speaker two_microphones))
          b.targets)
      (broadcasts url "s1" protocol new_session)
create_session-Addressed_example =
    create_session-Addressed "s1" 0 "job" "lobby" left_speaker two_microphones url protocol

run-Advanced_example : Advanced new_session (run url "s1" protocol new_session)
run-Advanced_example = run-Advanced url "s1" protocol new_session

step-Kept_example : Kept new_session (step url "s1" (Call.start_measurement 1) new_session).session
step-Kept_example = step-Kept url "s1" (Call.start_measurement 1) new_session

abbrev no_sessions : World
no_sessions = record { gateway_url = url; sessions = []; outbox = [] }

abbrev one_session : World
one_session = add_session "s1" 0 "job" "lobby" left_speaker two_microphones no_sessions

-- Nothing has been started.
call-err_example : (call "s1" (Call.client_ready "a") one_session).1 ≡ one_session
unfolding call add_session step Start.client_ready create_session lookup insert
call-err_example =
    call-err "s1" (Call.client_ready "a") one_session SessionError.no_active_measurement refl

-- a session whose one device is speaker and microphone
abbrev lone_device : MeasurementSession
lone_device = create_session "s1" 0 "job" "lobby" left_speaker (phone "a" "M1" ∷ [])

abbrev lone_started : MeasurementSession
lone_started = run url "s1" (Call.start_measurement 1 ∷ []) lone_device

abbrev lone_measurement : SpeakerMeasurement
lone_measurement = record {
  speaker = 0;
  microphones = 1 ∷ [];
  phase = MeasurementPhase.notifying_clients;
  started_at = some 1;
  finished_at = none;
  audio_file_id = none;
  audio_hash = none;
  error = none;
}

zero_apart : ◌≢◌ {A = ℕ} 1 0
zero_apart e = omega (arith, e)

lone-IsShared : IsShared lone_started.clients 0 1
unfolding run step create_session Start.start_measurement
lone-IsShared = record { device = refl; other = zero_apart; unready = refl }

ready_run-Waits_example :
    Waits lone_measurement (run url "s1" (map Call.client_ready ("a" ∷ "a" ∷ [])) lone_started)
unfolding run step create_session Start.start_measurement
ready_run-Waits_example =
    ready_run-Waits url "s1" ("a" ∷ "a" ∷ []) lone_measurement 1 lone_started refl (inl refl)
      lone-IsShared

abbrev started : MeasurementSession
started = run url "s1" (Call.start_measurement 1 ∷ []) new_session

abbrev first_measurement : SpeakerMeasurement
first_measurement = record lone_measurement { microphones = 1 ∷ 2 ∷ [] }

ready_run-completes_example :
    all_ready
      (run url "s1" (map Call.client_ready ("c" ∷ "c" ∷ "a" ∷ "b" ∷ [])) started).clients
      first_measurement
    ≡ true
unfolding run step create_session Start.start_measurement
ready_run-completes_example =
    ready_run-completes url "s1" ("c" ∷ "c" ∷ "a" ∷ "b" ∷ []) first_measurement started refl
      ((refl, (refl, tt)), ((refl, tt), (tt, tt)))
      (inr (inr (inl refl)), (inr (inr (inr (inl refl))), (inl refl, tt)))

started-Awaits : Awaits ("c" ∷ "b" ∷ []) started.clients (1 ∷ 2 ∷ [])
unfolding run step create_session Start.start_measurement
started-Awaits r (inl e) =
    subst
      (λ q.
        (started.clients q).recording_uploaded
        ≡ not (is_among (started.clients q).device_id ("c" ∷ "b" ∷ [])))
      (sym e) refl
started-Awaits r (inr (inl e)) =
    subst
      (λ q.
        (started.clients q).recording_uploaded
        ≡ not (is_among (started.clients q).device_id ("c" ∷ "b" ∷ [])))
      (sym e) refl
started-Awaits r (inr (inr i)) = elim i [ ]

-- the two microphones report, the second one first
uploads_run-HasCompleted_example :
    HasCompleted first_measurement started
      (run url "s1" (map (λ e. Call.recording_uploaded 3 e "take") ("c" ∷ "b" ∷ [])) started)
unfolding run step create_session Start.start_measurement
uploads_run-HasCompleted_example =
    uploads_run-HasCompleted url "s1" 3 "take" first_measurement "c" ("b" ∷ []) started refl
      ((refl, tt), (tt, tt)) ((refl, tt), (tt, tt)) (inr (inl refl), (inl refl, tt)) started-Awaits

-- The measurement as it is after the last recording has come in.
abbrev measured : MeasurementSession
measured = run url "s1" protocol new_session

abbrev last_measurement : SpeakerMeasurement
last_measurement = record {
  speaker = 0;
  microphones = 1 ∷ 2 ∷ [];
  phase = MeasurementPhase.completed;
  started_at = some 1;
  finished_at = some 3;
  audio_file_id = none;
  audio_hash = some "hash";
  error = none;
}

recording_uploaded-repeated_example :
    let s' = (recording_uploaded "s1" 4 "b" "b.wav" measured).session in
    (s'.current_speaker_index ≡ measured.current_speaker_index + 1)
    × (s'.completed_measurements
        ≡ measured.completed_measurements ++ (measured.clients 0).slot_id ∷ [])
unfolding run step create_session Start.start_measurement Start.client_ready
    Recording.speaker_audio_ready Recording.recording_started Recording.playback_complete
    recording_uploaded all_recordings_uploaded
recording_uploaded-repeated_example =
    recording_uploaded-repeated "s1" 4 "b" "b.wav" last_measurement measured refl refl
