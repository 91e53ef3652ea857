-- ===== src/Coordinator/Broadcasts.antt =====
-- Every broadcast of lobby/src/measurement_coordinator.py goes to participants of its session.
use sonalyze_backend.Prelude.{
  ℕ, String, ◌≡◌, subst, Option, some, [], ◌∷◌, ◌++◌, arith, inl, inr, Bool-cases, ◌==◌, all, ltb,
  length, In, ◌+◌,
}
use sonalyze_backend.Coordinator.Model.{
  MeasurementPhase, Clients, SpeakerMeasurement, MeasurementSession, all_ready, all_device_ids,
}
use sonalyze_backend.Coordinator.Messages.{Outcome}
use sonalyze_backend.Coordinator.Start.{
  start_speaker, ready_in, client_ready, mark_ready, mark_first, with_measurement, set_phase,
}
use sonalyze_backend.Coordinator.Recording.{
  audio_ready_in, speaker_audio_ready, started_in, recording_started, playback_in,
  playback_complete, next_speaker, uploaded_in, recording_uploaded, set_recording_started,
  set_uploaded,
}
use sonalyze_backend.Coordinator.Control.{
  cancel_session, handle_error, get_session_status, broadcast_analysis_results,
}
use sonalyze_backend.Coordinator.Table.{Call, step}
use sonalyze_backend.Coordinator.Cases.{with_measurement-cases, start_measurement-cases}
use sonalyze_backend.Coordinator.Clients.{Same, Same-mark_first}
use sonalyze_backend.Coordinator.Participants.{
  Kept, Kept-refl, Kept-mutated, set_ready-Same, all_device_ids-Kept, start_speaker-Kept,
  audio_ready_in-Kept, started_in-Kept, playback_in-Kept, next_speaker-Kept,
}
use sonalyze_backend.Coordinator.Addressed.{
  Addressed, IsLinked, Addressed-nil, Addressed-append, send_all-Addressed, phase_update-Addressed,
  send_speaker-Addressed, send_microphones-Addressed,
}

start_speaker-Addressed :
    (id : String) (now r : ℕ) (s : MeasurementSession)
    → Addressed (all_device_ids s) (start_speaker id now r s).sent
unfolding start_speaker
start_speaker-Addressed id now r s =
    let k : Kept s (start_speaker id now r s).session = start_speaker-Kept id now r s in
    Addressed-append _ _ _ (send_all-Addressed s _ k _) (phase_update-Addressed s _ k _ _)

module _ (s : MeasurementSession) (m : SpeakerMeasurement)
    (l : In m.speaker s.speakers × (m.microphones ≡ s.microphones)) where
  ready_in-Addressed :
      (url id d : String) → Addressed (all_device_ids s) (ready_in url id d m s).sent
  unfolding ready_in
  ready_in-Addressed url id d = elim (Bool-cases (all_ready (mark_ready d m s.clients) m)) [
    | inl t ↦
        let k =
          Kept-mutated s (mark_ready d m s.clients)
            (some (set_phase MeasurementPhase.speaker_downloading m)) s.current_speaker_index
            s.completed_measurements s.status (set_ready-Same d m s.clients) in
        rw t (
          Addressed-append _ _ _ (phase_update-Addressed s _ k _ _)
            (send_speaker-Addressed s _ k m.speaker _ l.0))
    | inr f ↦ rw f (Addressed-nil _)
  ]

  audio_ready_in-Addressed :
      (id d : String) (hash : Option String)
      → Addressed (all_device_ids s) (audio_ready_in id d hash m s).sent
  unfolding audio_ready_in
  audio_ready_in-Addressed id d hash = elim (Bool-cases ((s.clients m.speaker).device_id == d)) [
    | inl t ↦
        let k : Kept s (audio_ready_in id d hash m s).session = audio_ready_in-Kept m s id d hash in
        let k' = rw t at k in
        rw t (
          Addressed-append _ _ _ (phase_update-Addressed s _ k' _ _) (
            Addressed-append _ _ _ (phase_update-Addressed s _ k' _ _)
              (send_microphones-Addressed s _ k' m.microphones _ l.1)))
    | inr f ↦ rw f (Addressed-nil _)
  ]

  started_in-Addressed : (id d : String) → Addressed (all_device_ids s) (started_in id d m s).sent
  unfolding started_in
  started_in-Addressed id d =
      let h : Clients = mark_first set_recording_started d m.microphones s.clients in
      let k : Kept s (started_in id d m s).session = started_in-Kept m s id d in
      elim (Bool-cases (all (λ r. (h r).recording_started) m.microphones)) [
        | inl t ↦
            let k' = rw t at k in
            rw t (
              Addressed-append _ _ _ (phase_update-Addressed s _ k' _ _)
                (send_speaker-Addressed s _ k' m.speaker _ l.0))
        | inr f ↦ let k' = rw f at k in rw f (phase_update-Addressed s _ k' _ _)
      ]

  playback_in-Addressed :
      (url id d : String) → Addressed (all_device_ids s) (playback_in url id d m s).sent
  unfolding playback_in
  playback_in-Addressed url id d = elim (Bool-cases ((s.clients m.speaker).device_id == d)) [
    | inl t ↦
        let k : Kept s (playback_in url id d m s).session = playback_in-Kept m s url id d in
        let k' = rw t at k in
        rw t (
          Addressed-append _ _ _ (phase_update-Addressed s _ k' _ _) (
            Addressed-append _ _ _ (phase_update-Addressed s _ k' _ _)
              (send_microphones-Addressed s _ k' m.microphones _ l.1)))
    | inr f ↦ rw f (Addressed-nil _)
  ]

next_speaker-Addressed :
    (id : String) (m : SpeakerMeasurement) (s : MeasurementSession)
    → Addressed (all_device_ids s) (next_speaker id m s).sent
unfolding next_speaker
next_speaker-Addressed id m s =
    let k : Kept s (next_speaker id m s).session = next_speaker-Kept m s id in
    elim (Bool-cases (ltb s.current_speaker_index (length s.speakers))) [
      | inl t ↦ rw t (send_all-Addressed s s (Kept-refl s) _)
      | inr f ↦
          let k' = rw f at k in
          rw f (
            Addressed-append _ _ _ (phase_update-Addressed s _ k' _ _)
              (send_all-Addressed s s (Kept-refl s) _))
    ]

uploaded_in-Addressed :
    (id : String) (now : ℕ) (d : String) (m : SpeakerMeasurement) (s : MeasurementSession)
    → Addressed (all_device_ids s) (uploaded_in id now d m s).sent
unfolding uploaded_in
uploaded_in-Addressed id now d m s =
    let h : Clients = mark_first set_uploaded d m.microphones s.clients in
    let m' : SpeakerMeasurement = record m {
      phase = MeasurementPhase.processing;
      finished_at = some now;
    } in
    let same : Same s.clients h =
      Same-mark_first set_uploaded (λ c. ground arith) d m.microphones s.clients in
    let s2 : MeasurementSession = record s {
      clients = h;
      current_measurement = some m';
      completed_measurements = s.completed_measurements ++ (h m.speaker).slot_id ∷ [];
      current_speaker_index = s.current_speaker_index + 1;
    } in
    let k : Kept s (record s { clients = h; current_measurement = some m' }) =
      Kept-mutated s h (some m') s.current_speaker_index s.completed_measurements s.status same in
    let k2 : Kept s s2 =
      Kept-mutated s h (some m') s2.current_speaker_index s2.completed_measurements s.status same in
    elim (Bool-cases (all (λ r. (h r).recording_uploaded) m.microphones)) [
      | inl t ↦ rw t (
          Addressed-append _ _ _ (phase_update-Addressed s _ k _ _) (
            subst (λ ids. Addressed ids (next_speaker id m' s2).sent) (all_device_ids-Kept s s2 k2)
              (next_speaker-Addressed id m' s2)))
      | inr f ↦ rw f (Addressed-nil _)
    ]

with_measurement-Addressed :
    (body : SpeakerMeasurement → MeasurementSession → Outcome) (s : MeasurementSession)
    → ((m : SpeakerMeasurement)
        → In m.speaker s.speakers × (m.microphones ≡ s.microphones)
        → Addressed (all_device_ids s) (body m s).sent)
    → IsLinked s
    → Addressed (all_device_ids s) (with_measurement body s).sent
with_measurement-Addressed body s to_participants l =
    with_measurement-cases (λ o. Addressed (all_device_ids s) o.sent) body s (λ _. Addressed-nil _)
      λ m current.
        let l' : In m.speaker s.speakers × (m.microphones ≡ s.microphones) = rw current at l in
        to_participants m l'

pub step-Addressed :
    (url id : String) (c : Call) (s : MeasurementSession)
    → IsLinked s
    → Addressed (all_device_ids s) (step url id c s).sent
unfolding step client_ready speaker_audio_ready recording_started playback_complete
    recording_uploaded get_session_status cancel_session handle_error broadcast_analysis_results
step-Addressed url id (Call.start_measurement now) s l =
    start_measurement-cases (λ o. Addressed (all_device_ids s) o.sent) id now s
      (λ _. Addressed-nil _) (λ r _. start_speaker-Addressed id now r s)
step-Addressed url id (Call.client_ready d) s l =
    with_measurement-Addressed (ready_in url id d) s (λ m l'. ready_in-Addressed s m l' url id d) l
step-Addressed url id (Call.speaker_audio_ready d hash) s l =
    with_measurement-Addressed (audio_ready_in id d hash) s
      (λ m l'. audio_ready_in-Addressed s m l' id d hash) l
step-Addressed url id (Call.recording_started d) s l =
    with_measurement-Addressed (started_in id d) s (λ m l'. started_in-Addressed s m l' id d) l
step-Addressed url id (Call.playback_complete d) s l =
    with_measurement-Addressed (playback_in url id d) s
      (λ m l'. playback_in-Addressed s m l' url id d) l
step-Addressed url id (Call.recording_uploaded now d name) s l =
    with_measurement-Addressed (uploaded_in id now d) s (λ m l'. uploaded_in-Addressed id now d m s)
      l
step-Addressed url id Call.get_session_status s l = Addressed-nil _
step-Addressed url id (Call.cancel_session x) s l = send_all-Addressed s s (Kept-refl s) _
step-Addressed url id (Call.handle_error d x code) s l = send_all-Addressed s s (Kept-refl s) _
step-Addressed url id (Call.broadcast_analysis_results job results) s l =
    send_all-Addressed s s (Kept-refl s) _
