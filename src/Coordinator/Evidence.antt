-- ===== src/Coordinator/Evidence.antt =====
-- What each phase of a measurement says of the clients' reports, and that setting more flags keeps it
-- (lobby/src/measurement_coordinator.py).
use sonalyze_backend.Prelude.{
  ℕ, String, ◌≡◌, refl, Bool, true, Option, none, some, List, [], ◌∷◌, arith, inl, inr, Bool-cases,
  all, ◌==◌,
}
use sonalyze_backend.Coordinator.Model.{
  MeasurementPhase, MeasurementClient, Clients, SpeakerMeasurement, MeasurementSession, all_ready,
  all_recordings_started, all_recordings_uploaded,
}
use sonalyze_backend.Coordinator.Start.{mark_ready, set_ready}
use sonalyze_backend.Coordinator.Recording.{
  set_audio_received, set_recording_started, set_finished, set_uploaded,
}
use sonalyze_backend.Coordinator.Clients.{Grown, Grow, Grow-modify, Grow-mark_first}

-- What a phase says about the clients of the measurement.
abbrev pub Evidence : Clients → SpeakerMeasurement → MeasurementPhase → Type 0
Evidence h m MeasurementPhase.speaker_downloading = all_ready h m ≡ true
Evidence h m MeasurementPhase.starting_recording = (h m.speaker).audio_received ≡ true
Evidence h m MeasurementPhase.playing = all_recordings_started h m ≡ true
Evidence h m MeasurementPhase.uploading = (h m.speaker).is_finished ≡ true
Evidence h m MeasurementPhase.processing = all_recordings_uploaded h m ≡ true
Evidence h m MeasurementPhase.completed = all_recordings_uploaded h m ≡ true
Evidence h m _ = Unit

abbrev pub EvidenceFor : Clients → Option SpeakerMeasurement → Type 0
EvidenceFor h none = Unit
EvidenceFor h (some m) = Evidence h m m.phase

abbrev pub HasEvidence : MeasurementSession → Type 0
HasEvidence s = EvidenceFor s.clients s.current_measurement

pub all_mono :
    (p q : ℕ → Bool)
    → ((r : ℕ) → p r ≡ true → q r ≡ true)
    → (rs : List ℕ) → all p rs ≡ true
    → all q rs ≡ true
all_mono p q sub [] h = refl
all_mono p q sub (r ∷ rs) h = ground (arith, sub r, all_mono p q sub rs)

pub all_ready-Grow :
    (h h' : Clients) (m : SpeakerMeasurement)
    → Grow h h'
    → all_ready h m ≡ true
    → all_ready h' m ≡ true
unfolding all_ready
all_ready-Grow h h' m g e = ground (
  arith,
  (g m.speaker).is_ready,
  all_mono (λ r. (h r).is_ready) (λ r. (h' r).is_ready) (λ r. (g r).is_ready) m.microphones,
)

pub Evidence-Grow :
    (h h' : Clients) (m : SpeakerMeasurement) (p : MeasurementPhase)
    → Grow h h'
    → Evidence h m p
    → Evidence h' m p
unfolding all_recordings_started all_recordings_uploaded
Evidence-Grow h h' m MeasurementPhase.speaker_downloading g e = all_ready-Grow h h' m g e
Evidence-Grow h h' m MeasurementPhase.starting_recording g e = (g m.speaker).audio_received e
Evidence-Grow h h' m MeasurementPhase.playing g e =
    all_mono _ _ (λ r. (g r).recording_started) m.microphones e
Evidence-Grow h h' m MeasurementPhase.uploading g e = (g m.speaker).is_finished e
Evidence-Grow h h' m MeasurementPhase.processing g e =
    all_mono _ _ (λ r. (g r).recording_uploaded) m.microphones e
Evidence-Grow h h' m MeasurementPhase.completed g e =
    all_mono _ _ (λ r. (g r).recording_uploaded) m.microphones e
Evidence-Grow h h' m _ g e = tt

pub set_ready-Grown : (c : MeasurementClient) → Grown c (set_ready c)
set_ready-Grown c = ground arith

pub set_audio_received-Grown : (c : MeasurementClient) → Grown c (set_audio_received c)
set_audio_received-Grown c = ground arith

pub set_recording_started-Grown : (c : MeasurementClient) → Grown c (set_recording_started c)
set_recording_started-Grown c = ground arith

pub set_finished-Grown : (c : MeasurementClient) → Grown c (set_finished c)
set_finished-Grown c = ground arith

pub set_uploaded-Grown : (c : MeasurementClient) → Grown c (set_uploaded c)
set_uploaded-Grown c = ground arith

pub mark_ready-Grow :
    (device_id : String) (m : SpeakerMeasurement) (h : Clients) → Grow h (mark_ready device_id m h)
unfolding mark_ready
mark_ready-Grow d m h q = elim (Bool-cases ((h m.speaker).device_id == d)) [
  | inl e ↦ rw e (Grow-modify set_ready set_ready-Grown m.speaker h q)
  | inr e ↦ rw e (Grow-mark_first set_ready set_ready-Grown d m.microphones h q)
]
