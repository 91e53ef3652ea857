-- ===== src/Coordinator/Duplicates.antt =====
-- Upload reports that come in after the last recording of a measurement
-- (`recording_uploaded` of lobby/src/measurement_coordinator.py).
use sonalyze_backend.Prelude.{
  ℕ, String, ◌≡◌, refl, ap, subst, sym, true, some, [], ◌∷◌, ◌++◌, inl, inr, arith, Bool-cases, ltb,
  length, ◌+◌,
}
use sonalyze_backend.Coordinator.Model.{
  Clients, SpeakerMeasurement, MeasurementSession, all_recordings_uploaded,
}
use sonalyze_backend.Coordinator.Messages.{Outcome}
use sonalyze_backend.Coordinator.Start.{mark_first}
use sonalyze_backend.Coordinator.Recording.{
  recording_uploaded, uploaded_in, next_speaker, set_uploaded,
}
use sonalyze_backend.Coordinator.Cases.{with_measurement-some}
use sonalyze_backend.Coordinator.Clients.{Same-mark_first, Grow-mark_first}
use sonalyze_backend.Coordinator.Evidence.{set_uploaded-Grown, Evidence-Grow}
use sonalyze_backend.Coordinator.Model.{MeasurementPhase}

uploaded_in-repeated :
    (id : String) (now : ℕ) (d : String) (m : SpeakerMeasurement) (s : MeasurementSession)
    → all_recordings_uploaded s.clients m ≡ true
    → let s' = (uploaded_in id now d m s).session in
      (s'.current_speaker_index ≡ s.current_speaker_index + 1)
      × (s'.completed_measurements ≡ s.completed_measurements ++ (s.clients m.speaker).slot_id ∷ [])
unfolding uploaded_in next_speaker
uploaded_in-repeated id now d m s done =
    let h : Clients = mark_first set_uploaded d m.microphones s.clients in
    let still : all_recordings_uploaded h m ≡ true =
      Evidence-Grow s.clients h m MeasurementPhase.processing
        (Grow-mark_first set_uploaded set_uploaded-Grown d m.microphones s.clients) done in
    let slot : (h m.speaker).slot_id ≡ (s.clients m.speaker).slot_id =
      (Same-mark_first set_uploaded (λ c. ground arith) d m.microphones s.clients
        m.speaker).slot_id in
    let listed : (s.completed_measurements ++ (h m.speaker).slot_id ∷ [])
        ≡ (s.completed_measurements ++ (s.clients m.speaker).slot_id ∷ []) =
      ap (λ x. s.completed_measurements ++ x ∷ []) slot in
    elim (Bool-cases (ltb (s.current_speaker_index + 1) (length s.speakers))) [
      | inl a ↦ rw still (rw a (refl, listed))
      | inr b ↦ rw still (rw b (refl, listed))
    ]

-- Once every microphone of the current measurement has uploaded, a further report, from whatever
-- device, completes the same speaker once more: its slot is appended again to the completed ones, and
-- the index of the current speaker moves on by one.
pub recording_uploaded-repeated :
    (id : String) (now : ℕ) (d name : String) (m : SpeakerMeasurement) (s : MeasurementSession)
    → s.current_measurement ≡ some m
    → all_recordings_uploaded s.clients m ≡ true
    → let s' = (recording_uploaded id now d name s).session in
      (s'.current_speaker_index ≡ s.current_speaker_index + 1)
      × (s'.completed_measurements ≡ s.completed_measurements ++ (s.clients m.speaker).slot_id ∷ [])
unfolding recording_uploaded
recording_uploaded-repeated id now d name m s current done =
    subst
      (λ (o : Outcome).
        (o.session.current_speaker_index ≡ s.current_speaker_index + 1)
        × (o.session.completed_measurements
            ≡ s.completed_measurements ++ (s.clients m.speaker).slot_id ∷ []))
      (sym (with_measurement-some (uploaded_in id now d) s m current))
      (uploaded_in-repeated id now d m s done)
