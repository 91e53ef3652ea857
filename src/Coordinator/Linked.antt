-- ===== src/Coordinator/Linked.antt =====
-- Whatever calls come in, the current measurement of a session refers to one of its speakers and to
-- its microphones, and all that is broadcast goes to its participants
-- (lobby/src/measurement_coordinator.py).
use sonalyze_backend.Prelude.{
  ℕ, String, ◌≡◌, refl, subst, Option, none, some, List, [], ◌∷◌, inl, inr, Bool-cases, ◌==◌, all,
  ltb, length, ◌+◌,
}
use sonalyze_backend.Coordinator.Model.{
  Clients, SpeakerMeasurement, MeasurementSession, all_ready, all_device_ids,
}
use sonalyze_backend.Coordinator.Messages.{Outcome}
use sonalyze_backend.Coordinator.Start.{
  start_speaker, ready_in, client_ready, mark_ready, mark_first, with_measurement,
}
use sonalyze_backend.Coordinator.Recording.{
  audio_ready_in, speaker_audio_ready, started_in, recording_started, playback_in,
  playback_complete, next_speaker, uploaded_in, recording_uploaded, set_recording_started,
  set_uploaded,
}
use sonalyze_backend.Coordinator.Control.{
  fail_with, cancel_session, handle_error, get_session_status, broadcast_analysis_results,
}
use sonalyze_backend.Coordinator.Table.{Call, step, broadcasts}
use sonalyze_backend.Coordinator.Cases.{with_measurement-cases, start_measurement-cases}
use sonalyze_backend.Coordinator.Participants.{step-Kept, all_device_ids-Kept}
use sonalyze_backend.Coordinator.Addressed.{
  Addressed, LinkedFor, IsLinked, In-get_elem?, Addressed-nil, Addressed-append,
}
use sonalyze_backend.Coordinator.Broadcasts.{step-Addressed}

module _ (s : MeasurementSession) (m : SpeakerMeasurement)
    (current : s.current_measurement ≡ some m) (l : LinkedFor s (some m)) where
  ready_in-IsLinked : (url id d : String) → IsLinked (ready_in url id d m s).session
  unfolding ready_in
  ready_in-IsLinked url id d = elim (Bool-cases (all_ready (mark_ready d m s.clients) m)) [
    | inl t ↦ rw t l
    | inr f ↦ rw (f, current) l
  ]

  audio_ready_in-IsLinked :
      (id d : String) (hash : Option String) → IsLinked (audio_ready_in id d hash m s).session
  unfolding audio_ready_in
  audio_ready_in-IsLinked id d hash = elim (Bool-cases ((s.clients m.speaker).device_id == d)) [
    | inl t ↦ rw t l
    | inr f ↦ rw (f, current) l
  ]

  started_in-IsLinked : (id d : String) → IsLinked (started_in id d m s).session
  unfolding started_in
  started_in-IsLinked id d =
      let h : Clients = mark_first set_recording_started d m.microphones s.clients in
      elim (Bool-cases (all (λ r. (h r).recording_started) m.microphones)) [
        | inl t ↦ rw t l
        | inr f ↦ rw (f, current) l
      ]

  playback_in-IsLinked : (url id d : String) → IsLinked (playback_in url id d m s).session
  unfolding playback_in
  playback_in-IsLinked url id d = elim (Bool-cases ((s.clients m.speaker).device_id == d)) [
    | inl t ↦ rw t l
    | inr f ↦ rw (f, current) l
  ]

  uploaded_in-IsLinked :
      (id : String) (now : ℕ) (d : String) → IsLinked (uploaded_in id now d m s).session
  unfolding uploaded_in next_speaker
  uploaded_in-IsLinked id now d =
      let h : Clients = mark_first set_uploaded d m.microphones s.clients in
      elim (Bool-cases (all (λ r. (h r).recording_uploaded) m.microphones)) [
        | inl t ↦ rw t (elim (Bool-cases (ltb (s.current_speaker_index + 1) (length s.speakers))) [
          | inl a ↦ rw a l
          | inr b ↦ rw b l
        ])
        | inr f ↦ rw (f, current) l
      ]

with_measurement-IsLinked :
    (body : SpeakerMeasurement → MeasurementSession → Outcome) (s : MeasurementSession)
    → ((m : SpeakerMeasurement)
        → s.current_measurement ≡ some m
        → LinkedFor s (some m)
        → IsLinked (body m s).session)
    → IsLinked s
    → IsLinked (with_measurement body s).session
with_measurement-IsLinked body s keep l =
    with_measurement-cases (λ o. IsLinked o.session) body s (λ _. l)
      λ m current. let l' : LinkedFor s (some m) = rw current at l in keep m current l'

fail_with-IsLinked :
    (s : MeasurementSession) (o : Option SpeakerMeasurement) (x : String)
    → LinkedFor s o
    → LinkedFor s (fail_with x o)
fail_with-IsLinked s none x l = l
fail_with-IsLinked s (some m) x l = l

pub step-IsLinked :
    (url id : String) (c : Call) (s : MeasurementSession)
    → IsLinked s
    → IsLinked (step url id c s).session
unfolding step client_ready speaker_audio_ready recording_started playback_complete
    recording_uploaded get_session_status cancel_session handle_error broadcast_analysis_results
    start_speaker
step-IsLinked url id (Call.start_measurement now) s l =
    start_measurement-cases (λ o. IsLinked o.session) id now s (λ _. l)
      (λ r left. (In-get_elem? s.speakers s.current_speaker_index r left, refl))
step-IsLinked url id (Call.client_ready d) s l =
    with_measurement-IsLinked (ready_in url id d) s
      (λ m current l'. ready_in-IsLinked s m current l' url id d) l
step-IsLinked url id (Call.speaker_audio_ready d hash) s l =
    with_measurement-IsLinked (audio_ready_in id d hash) s
      (λ m current l'. audio_ready_in-IsLinked s m current l' id d hash) l
step-IsLinked url id (Call.recording_started d) s l =
    with_measurement-IsLinked (started_in id d) s
      (λ m current l'. started_in-IsLinked s m current l' id d) l
step-IsLinked url id (Call.playback_complete d) s l =
    with_measurement-IsLinked (playback_in url id d) s
      (λ m current l'. playback_in-IsLinked s m current l' url id d) l
step-IsLinked url id (Call.recording_uploaded now d name) s l =
    with_measurement-IsLinked (uploaded_in id now d) s
      (λ m current l'. uploaded_in-IsLinked s m current l' id now d) l
step-IsLinked url id Call.get_session_status s l = l
step-IsLinked url id (Call.cancel_session x) s l = fail_with-IsLinked s s.current_measurement x l
step-IsLinked url id (Call.handle_error d x code) s l =
    fail_with-IsLinked s s.current_measurement x l
step-IsLinked url id (Call.broadcast_analysis_results job results) s l = l

-- In a linked session, such as a new one, whatever calls come in: every broadcast goes only to
-- devices that the session was created with.
pub broadcasts-Addressed :
    (url id : String) (calls : List Call) (s : MeasurementSession)
    → IsLinked s
    → Addressed (all_device_ids s) (broadcasts url id calls s)
unfolding broadcasts
broadcasts-Addressed url id [] s l = Addressed-nil _
broadcasts-Addressed url id (c ∷ cs) s l =
    let s' : MeasurementSession = (step url id c s).session in
    Addressed-append _ _ _ (step-Addressed url id c s l) (
      subst (λ ids. Addressed ids (broadcasts url id cs s'))
        (all_device_ids-Kept s s' (step-Kept url id c s))
        (broadcasts-Addressed url id cs s' (step-IsLinked url id c s l)))
