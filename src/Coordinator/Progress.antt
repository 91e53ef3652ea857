-- ===== src/Coordinator/Progress.antt =====
-- How the calls of lobby/src/measurement_coordinator.py move a session through its speakers.
use sonalyze_backend.Prelude.{
  ℕ, String, ◌≡◌, refl, sym, ap, ◌∙◌, Option, List, [], ◌∷◌, ◌++◌, inl, inr, arith, Bool-cases,
  ◌==◌, all, ltb, length, length-append, ◌+◌,
}
use mathlib.Core.List.{append-nil, append_assoc}
use sonalyze_backend.Coordinator.Model.{Clients, SpeakerMeasurement, MeasurementSession, all_ready}
use sonalyze_backend.Coordinator.Start.{
  start_speaker, ready_in, client_ready, mark_ready, mark_first,
}
use sonalyze_backend.Coordinator.Recording.{
  audio_ready_in, speaker_audio_ready, started_in, recording_started, playback_in,
  playback_complete, next_speaker, uploaded_in, recording_uploaded, set_recording_started,
  set_uploaded,
}
use sonalyze_backend.Coordinator.Control.{
  cancel_session, handle_error, get_session_status, broadcast_analysis_results,
}
use sonalyze_backend.Coordinator.Table.{Call, step, run}
use sonalyze_backend.Coordinator.Cases.{with_measurement-cases, start_measurement-cases}

-- From `s` to `s'` the speakers in the slots `slots` were completed, and the index moved with them.
pub record Advanced (s s' : MeasurementSession) : Type 0 where
  pub slots : List String
  pub listed : s'.completed_measurements ≡ s.completed_measurements ++ slots
  pub counted : s'.current_speaker_index ≡ s.current_speaker_index + length slots

stay :
    (s s' : MeasurementSession)
    → s'.completed_measurements ≡ s.completed_measurements
    → s'.current_speaker_index ≡ s.current_speaker_index
    → Advanced s s'
stay s s' l c = record {
  slots = [];
  listed = l ∙ sym (append-nil s.completed_measurements);
  counted = omega arith;
}

Advanced-trans : (s t u : MeasurementSession) → Advanced s t → Advanced t u → Advanced s u
Advanced-trans s t u a b = record {
  slots = a.slots ++ b.slots;
  listed =
      b.listed
      ∙ (ap (λ (xs : List String). xs ++ b.slots) a.listed
          ∙ append_assoc s.completed_measurements a.slots b.slots);
  counted = omega (arith, a.counted, b.counted, length-append a.slots b.slots);
}

module _ (m : SpeakerMeasurement) (s : MeasurementSession) where
  ready_in-Advanced : (url id d : String) → Advanced s (ready_in url id d m s).session
  unfolding ready_in
  ready_in-Advanced url id d = elim (Bool-cases (all_ready (mark_ready d m s.clients) m)) [
    | inl t ↦ rw t (stay s _ refl refl)
    | inr f ↦ rw f (stay s _ refl refl)
  ]

  audio_ready_in-Advanced :
      (id d : String) (hash : Option String) → Advanced s (audio_ready_in id d hash m s).session
  unfolding audio_ready_in
  audio_ready_in-Advanced id d hash = elim (Bool-cases ((s.clients m.speaker).device_id == d)) [
    | inl t ↦ rw t (stay s _ refl refl)
    | inr f ↦ rw f (stay s _ refl refl)
  ]

  started_in-Advanced : (id d : String) → Advanced s (started_in id d m s).session
  unfolding started_in
  started_in-Advanced id d =
      let h : Clients = mark_first set_recording_started d m.microphones s.clients in
      elim (Bool-cases (all (λ r. (h r).recording_started) m.microphones)) [
        | inl t ↦ rw t (stay s _ refl refl)
        | inr f ↦ rw f (stay s _ refl refl)
      ]

  playback_in-Advanced : (url id d : String) → Advanced s (playback_in url id d m s).session
  unfolding playback_in
  playback_in-Advanced url id d = elim (Bool-cases ((s.clients m.speaker).device_id == d)) [
    | inl t ↦ rw t (stay s _ refl refl)
    | inr f ↦ rw f (stay s _ refl refl)
  ]

  -- The upload that completes the measurement adds the speaker's slot; any other adds nothing.
  uploaded_in-Advanced :
      (id : String) (now : ℕ) (d : String) → Advanced s (uploaded_in id now d m s).session
  unfolding uploaded_in next_speaker
  uploaded_in-Advanced id now d =
      let h : Clients = mark_first set_uploaded d m.microphones s.clients in
      elim (Bool-cases (all (λ r. (h r).recording_uploaded) m.microphones)) [
        | inl t ↦ rw t (elim (Bool-cases (ltb (s.current_speaker_index + 1) (length s.speakers))) [
          | inl a ↦
              rw a (record {
                slots = (h m.speaker).slot_id ∷ [];
                listed = refl;
                counted = omega arith;
              })
          | inr b ↦
              rw b (record {
                slots = (h m.speaker).slot_id ∷ [];
                listed = refl;
                counted = omega arith;
              })
        ])
        | inr f ↦ rw f (stay s _ refl refl)
      ]

step-Advanced :
    (url id : String) (c : Call) (s : MeasurementSession) → Advanced s (step url id c s).session
unfolding step client_ready speaker_audio_ready recording_started playback_complete
    recording_uploaded get_session_status cancel_session handle_error broadcast_analysis_results
    start_speaker
step-Advanced url id (Call.start_measurement now) s =
    start_measurement-cases (λ o. Advanced s o.session) id now s (λ _. stay s _ refl refl)
      (λ r _. stay s _ refl refl)
step-Advanced url id (Call.client_ready d) s =
    with_measurement-cases (λ o. Advanced s o.session) (ready_in url id d) s
      (λ _. stay s _ refl refl) (λ m _. ready_in-Advanced m s url id d)
step-Advanced url id (Call.speaker_audio_ready d hash) s =
    with_measurement-cases (λ o. Advanced s o.session) (audio_ready_in id d hash) s
      (λ _. stay s _ refl refl) (λ m _. audio_ready_in-Advanced m s id d hash)
step-Advanced url id (Call.recording_started d) s =
    with_measurement-cases (λ o. Advanced s o.session) (started_in id d) s (λ _. stay s _ refl refl)
      (λ m _. started_in-Advanced m s id d)
step-Advanced url id (Call.playback_complete d) s =
    with_measurement-cases (λ o. Advanced s o.session) (playback_in url id d) s
      (λ _. stay s _ refl refl) (λ m _. playback_in-Advanced m s url id d)
step-Advanced url id (Call.recording_uploaded now d name) s =
    with_measurement-cases (λ o. Advanced s o.session) (uploaded_in id now d) s
      (λ _. stay s _ refl refl) (λ m _. uploaded_in-Advanced m s id now d)
step-Advanced url id Call.get_session_status s = stay s _ refl refl
step-Advanced url id (Call.cancel_session x) s = stay s _ refl refl
step-Advanced url id (Call.handle_error d x code) s = stay s _ refl refl
step-Advanced url id (Call.broadcast_analysis_results job results) s = stay s _ refl refl

-- Whatever calls come in: the list of completed speakers only grows at its end, and the index of the
-- current speaker grows by exactly the number of entries added.
pub run-Advanced :
    (url id : String) (calls : List Call) (s : MeasurementSession) → Advanced s (run url id calls s)
unfolding run
run-Advanced url id [] s = stay s s refl refl
run-Advanced url id (c ∷ cs) s =
    let s' : MeasurementSession = (step url id c s).session in
    Advanced-trans s s' _ (step-Advanced url id c s) (run-Advanced url id cs s')
