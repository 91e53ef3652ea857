-- ===== src/Coordinator/Errors.antt =====
-- A call of lobby/src/measurement_coordinator.py that raises has changed nothing.
use sonalyze_backend.Prelude.{
  ℕ, String, ◌≡◌, refl, Option, some, [], ◌∷◌, inl, inr, arith, Bool-cases, Option-cases, ◌==◌, all,
  ltb, length, ◌+◌, Dict, lookup, insert,
}
use mathlib.Core.List.{append-nil}
use sonalyze_backend.Coordinator.Model.{Clients, SpeakerMeasurement, MeasurementSession}
use sonalyze_backend.Coordinator.Messages.{SessionError, err, Outcome}
use sonalyze_backend.Coordinator.Start.{start_speaker, ready_in, client_ready, mark_first}
use sonalyze_backend.Coordinator.Recording.{
  audio_ready_in, speaker_audio_ready, started_in, recording_started, playback_in,
  playback_complete, next_speaker, uploaded_in, recording_uploaded, set_recording_started,
  set_uploaded,
}
use sonalyze_backend.Coordinator.Control.{
  cancel_session, handle_error, get_session_status, broadcast_analysis_results,
}
use sonalyze_backend.Coordinator.Table.{World, Call, step, call}
use sonalyze_backend.Coordinator.Cases.{with_measurement-cases, start_measurement-cases}

-- An outcome that raises is the session as it was, and no broadcast.
abbrev pub IsAtomic : MeasurementSession → Outcome → Type 0
IsAtomic s o = (e : SessionError) → o.result ≡ err e → (o.session ≡ s) × (o.sent ≡ [])

module _ (m : SpeakerMeasurement) (s : MeasurementSession) where
  ready_in-IsAtomic : (url id d : String) → IsAtomic s (ready_in url id d m s)
  unfolding ready_in
  ready_in-IsAtomic url id d x e = ground arith

  audio_ready_in-IsAtomic :
      (id d : String) (hash : Option String) → IsAtomic s (audio_ready_in id d hash m s)
  unfolding audio_ready_in
  audio_ready_in-IsAtomic id d hash = elim (Bool-cases ((s.clients m.speaker).device_id == d)) [
    | inl t ↦ rw t (λ x e. cc)
    | inr f ↦ rw f (λ x e. (refl, refl))
  ]

  started_in-IsAtomic : (id d : String) → IsAtomic s (started_in id d m s)
  unfolding started_in
  started_in-IsAtomic id d =
      let h : Clients = mark_first set_recording_started d m.microphones s.clients in
      elim (Bool-cases (all (λ r. (h r).recording_started) m.microphones)) [
        | inl t ↦ rw t (λ x e. cc)
        | inr f ↦ rw f (λ x e. cc)
      ]

  playback_in-IsAtomic : (url id d : String) → IsAtomic s (playback_in url id d m s)
  unfolding playback_in
  playback_in-IsAtomic url id d = elim (Bool-cases ((s.clients m.speaker).device_id == d)) [
    | inl t ↦ rw t (λ x e. cc)
    | inr f ↦ rw f (λ x e. (refl, refl))
  ]

  uploaded_in-IsAtomic :
      (id : String) (now : ℕ) (d : String) → IsAtomic s (uploaded_in id now d m s)
  unfolding uploaded_in next_speaker
  uploaded_in-IsAtomic id now d =
      let h : Clients = mark_first set_uploaded d m.microphones s.clients in
      elim (Bool-cases (all (λ r. (h r).recording_uploaded) m.microphones)) [
        | inl t ↦ rw t (elim (Bool-cases (ltb (s.current_speaker_index + 1) (length s.speakers))) [
          | inl a ↦ rw a (λ x e. cc)
          | inr b ↦ rw b (λ x e. cc)
        ])
        | inr f ↦ rw f (λ x e. cc)
      ]

step-IsAtomic : (url id : String) (c : Call) (s : MeasurementSession) → IsAtomic s (step url id c s)
unfolding step client_ready speaker_audio_ready recording_started playback_complete
    recording_uploaded get_session_status cancel_session handle_error broadcast_analysis_results
    start_speaker
step-IsAtomic url id (Call.start_measurement now) s =
    start_measurement-cases (IsAtomic s) id now s (λ _ x e. cc) (λ r _ x e. cc)
step-IsAtomic url id (Call.client_ready d) s =
    with_measurement-cases (IsAtomic s) (ready_in url id d) s (λ _ x e. (refl, refl))
      (λ m _. ready_in-IsAtomic m s url id d)
step-IsAtomic url id (Call.speaker_audio_ready d hash) s =
    with_measurement-cases (IsAtomic s) (audio_ready_in id d hash) s (λ _ x e. (refl, refl))
      (λ m _. audio_ready_in-IsAtomic m s id d hash)
step-IsAtomic url id (Call.recording_started d) s =
    with_measurement-cases (IsAtomic s) (started_in id d) s (λ _ x e. (refl, refl))
      (λ m _. started_in-IsAtomic m s id d)
step-IsAtomic url id (Call.playback_complete d) s =
    with_measurement-cases (IsAtomic s) (playback_in url id d) s (λ _ x e. (refl, refl))
      (λ m _. playback_in-IsAtomic m s url id d)
step-IsAtomic url id (Call.recording_uploaded now d name) s =
    with_measurement-cases (IsAtomic s) (uploaded_in id now d) s (λ _ x e. (refl, refl))
      (λ m _. uploaded_in-IsAtomic m s id now d)
step-IsAtomic url id Call.get_session_status s = λ x e. cc
step-IsAtomic url id (Call.cancel_session r) s = λ x e. cc
step-IsAtomic url id (Call.handle_error d r code) s = λ x e. cc
step-IsAtomic url id (Call.broadcast_analysis_results job results) s = λ x e. cc

insert-lookup :
    {V : Type 0} (k : String) (v : V) (d : Dict V) → lookup k d ≡ some v → insert k v d ≡ d
unfolding lookup insert
insert-lookup k v [] e = cc
insert-lookup k v ((j, w) ∷ d) e = ground (arith, insert-lookup k v d)

-- A call that raises leaves the session table as it was and has broadcast nothing.
pub call-err :
    (id : String) (c : Call) (w : World) (e : SessionError)
    → (call id c w).0 ≡ err e
    → (call id c w).1 ≡ w
unfolding call
call-err id c w e h = elim (Option-cases (lookup id w.sessions)) [
  | inl missing ↦ rw (missing, call)
  | inr (s, found) ↦
      let raised : (step w.gateway_url id c s).result ≡ err e = rw (found, call) at h in
      let (same, silent) = step-IsAtomic w.gateway_url id c s e raised in
      rw (found, call, same, silent, insert-lookup id s w.sessions found, append-nil)
]
