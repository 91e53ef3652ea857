-- ===== src/Coordinator/Cases.antt =====
-- The two ways in which a call of lobby/src/measurement_coordinator.py begins: with or without a
-- current measurement, with or without a speaker left.
use sonalyze_backend.Prelude.{ℕ, String, ◌≡◌, refl, ap, Option, none, some, [], get_elem?}
use sonalyze_backend.Coordinator.Model.{SpeakerMeasurement, SessionStatus, MeasurementSession}
use sonalyze_backend.Coordinator.Messages.{Reply, ok, Outcome}
use sonalyze_backend.Coordinator.Start.{
  no_measurement, with_measurement, start_speaker, start_measurement,
}

pub with_measurement-cases {ℓ} :
    (P : Outcome → Type ℓ) (body : SpeakerMeasurement → MeasurementSession → Outcome)
    (s : MeasurementSession)
    → (s.current_measurement ≡ none → P (no_measurement s))
    → ((m : SpeakerMeasurement) → s.current_measurement ≡ some m → P (body m s))
    → P (with_measurement body s)
with_measurement-cases P body s absent present = go s.current_measurement refl
  where
    go :
        (o : Option SpeakerMeasurement)
        → s.current_measurement ≡ o
        → P (elim o [ none ↦ no_measurement s | some m ↦ body m s ])
    go none e = absent e
    go (some m) e = present m e

-- What `start_measurement` returns when every speaker is measured.
abbrev pub all_done : String → MeasurementSession → Outcome
all_done id s = record {
  result = ok (Reply.all_measured id s.completed_measurements);
  session = record s { status = SessionStatus.completed };
  sent = [];
}

pub start_measurement-cases {ℓ} :
    (P : Outcome → Type ℓ) (id : String) (now : ℕ) (s : MeasurementSession)
    → (get_elem? s.speakers s.current_speaker_index ≡ none → P (all_done id s))
    → ((r : ℕ)
        → get_elem? s.speakers s.current_speaker_index ≡ some r
        → P (start_speaker id now r s))
    → P (start_measurement id now s)
unfolding start_measurement
start_measurement-cases P id now s done left =
    go (get_elem? s.speakers s.current_speaker_index) refl
  where
    go :
        (o : Option ℕ)
        → get_elem? s.speakers s.current_speaker_index ≡ o
        → P (elim o [ none ↦ all_done id s | some r ↦ start_speaker id now r s ])
    go none e = done e
    go (some r) e = left r e

pub with_measurement-some :
    (body : SpeakerMeasurement → MeasurementSession → Outcome) (s : MeasurementSession)
    (m : SpeakerMeasurement)
    → s.current_measurement ≡ some m
    → with_measurement body s ≡ body m s
with_measurement-some body s m current =
    with_measurement-cases (λ o. o ≡ body m s) body s (λ absent. cc)
      λ n found. ap (λ x. body x s) (cc (found, current))
