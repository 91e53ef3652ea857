-- ===== src/Coordinator/Participants.antt =====
-- Who takes part in a session of lobby/src/measurement_coordinator.py is fixed when it is created,
-- and nobody else is sent anything.
use sonalyze_backend.Prelude.{
  ℕ, String, ◌≡◌, refl, ◌∙◌, Bool, Option, List, [], ◌∷◌, arith, inl, inr, Bool-cases, ◌==◌, all,
  ltb, length, ◌+◌,
}
use sonalyze_backend.Coordinator.Model.{
  Clients, modify, SpeakerMeasurement, SessionStatus, MeasurementSession, all_ready, device_ids,
  all_device_ids,
}
use sonalyze_backend.Coordinator.Start.{
  start_speaker, ready_in, client_ready, mark_ready, mark_first, for_each, set_ready,
  reset_microphone, reset_speaker,
}
use sonalyze_backend.Coordinator.Recording.{
  audio_ready_in, speaker_audio_ready, started_in, recording_started, playback_in,
  playback_complete, next_speaker, uploaded_in, recording_uploaded, set_audio_received,
  set_recording_started, set_finished, set_uploaded,
}
use sonalyze_backend.Coordinator.Control.{
  cancel_session, handle_error, get_session_status, broadcast_analysis_results,
}
use sonalyze_backend.Coordinator.Table.{Call, step}
use sonalyze_backend.Coordinator.Cases.{with_measurement-cases, start_measurement-cases}
use sonalyze_backend.Coordinator.Clients.{
  Same, Same-refl, Same-modify, Same-for_each, Same-mark_first,
}

-- What no call changes in a session.
pub record Kept (s s' : MeasurementSession) : Type 0 where
  pub same : Same s.clients s'.clients
  pub session_id : s'.session_id ≡ s.session_id
  pub job_id : s'.job_id ≡ s.job_id
  pub speakers : s'.speakers ≡ s.speakers
  pub microphones : s'.microphones ≡ s.microphones

pub device_ids-Same :
    (h h' : Clients) (rs : List ℕ) → Same h h' → device_ids h' rs ≡ device_ids h rs
device_ids-Same h h' [] same = refl
device_ids-Same h h' (r ∷ rs) same = cc ((same r).device_id, device_ids-Same h h' rs same)

pub all_device_ids-Kept :
    (s s' : MeasurementSession) → Kept s s' → all_device_ids s' ≡ all_device_ids s
unfolding all_device_ids
all_device_ids-Kept s s' k = rw (
  k.speakers,
  k.microphones,
  device_ids-Same s.clients s'.clients s.speakers k.same,
  device_ids-Same s.clients s'.clients s.microphones k.same,
)

-- the fields that calls assign to
abbrev pub mutated :
    MeasurementSession
    → Clients
    → Option SpeakerMeasurement
    → ℕ
    → List String
    → SessionStatus
    → MeasurementSession
mutated s h o i done st = record s {
  clients = h;
  current_speaker_index = i;
  current_measurement = o;
  completed_measurements = done;
  status = st;
}

pub Kept-mutated :
    (s : MeasurementSession) (h : Clients) (o : Option SpeakerMeasurement) (i : ℕ)
    (done : List String) (st : SessionStatus)
    → Same s.clients h
    → Kept s (mutated s h o i done st)
Kept-mutated s h o i done st same = record {
  same = same;
  session_id = refl;
  job_id = refl;
  speakers = refl;
  microphones = refl;
}

pub Kept-refl : (s : MeasurementSession) → Kept s s
Kept-refl s = record {
  same = Same-refl s.clients;
  session_id = refl;
  job_id = refl;
  speakers = refl;
  microphones = refl;
}

pub set_ready-Same : (d : String) (m : SpeakerMeasurement) (h : Clients) → Same h (mark_ready d m h)
unfolding mark_ready
set_ready-Same d m h q = elim (Bool-cases ((h m.speaker).device_id == d)) [
  | inl e ↦ rw e (Same-modify set_ready (λ c. ground arith) m.speaker h q)
  | inr e ↦ rw e (Same-mark_first set_ready (λ c. ground arith) d m.microphones h q)
]

pub reset-Same :
    (r : ℕ) (rs : List ℕ) (h : Clients)
    → Same h (modify r reset_speaker (for_each reset_microphone rs h))
reset-Same r rs h q =
    let a = Same-for_each reset_microphone (λ c. ground arith) rs h q in
    let b = Same-modify reset_speaker (λ c. ground arith) r (for_each reset_microphone rs h) q in
    record {
      device_id = b.device_id ∙ a.device_id;
      slot_id = b.slot_id ∙ a.slot_id;
      slot_label = b.slot_label ∙ a.slot_label;
    }

pub start_speaker-Kept :
    (id : String) (now r : ℕ) (s : MeasurementSession) → Kept s (start_speaker id now r s).session
unfolding start_speaker
start_speaker-Kept id now r s = Kept-mutated s _ _ _ _ _ (reset-Same r s.microphones s.clients)

module _ (m : SpeakerMeasurement) (s : MeasurementSession) where
  pub ready_in-Kept : (url id d : String) → Kept s (ready_in url id d m s).session
  unfolding ready_in
  ready_in-Kept url id d =
      let h : Clients = mark_ready d m s.clients in
      elim (Bool-cases (all_ready h m)) [
        | inl t ↦ rw t (Kept-mutated s h _ _ _ _ (set_ready-Same d m s.clients))
        | inr f ↦ rw f (Kept-mutated s h _ _ _ _ (set_ready-Same d m s.clients))
      ]

  pub audio_ready_in-Kept :
      (id d : String) (hash : Option String) → Kept s (audio_ready_in id d hash m s).session
  unfolding audio_ready_in
  audio_ready_in-Kept id d hash = elim (Bool-cases ((s.clients m.speaker).device_id == d)) [
    | inl t ↦ rw t (
        Kept-mutated s _ _ _ _ _
          (Same-modify set_audio_received (λ c. ground arith) m.speaker s.clients))
    | inr f ↦ rw f (Kept-refl s)
  ]

  pub started_in-Kept : (id d : String) → Kept s (started_in id d m s).session
  unfolding started_in
  started_in-Kept id d =
      let h : Clients = mark_first set_recording_started d m.microphones s.clients in
      let same : Same s.clients h =
        Same-mark_first set_recording_started (λ c. ground arith) d m.microphones s.clients in
      elim (Bool-cases (all (λ r. (h r).recording_started) m.microphones)) [
        | inl t ↦ rw t (Kept-mutated s h _ _ _ _ same)
        | inr f ↦ rw f (Kept-mutated s h _ _ _ _ same)
      ]

  pub playback_in-Kept : (url id d : String) → Kept s (playback_in url id d m s).session
  unfolding playback_in
  playback_in-Kept url id d = elim (Bool-cases ((s.clients m.speaker).device_id == d)) [
    | inl t ↦ rw t (
        Kept-mutated s _ _ _ _ _ (Same-modify set_finished (λ c. ground arith) m.speaker s.clients))
    | inr f ↦ rw f (Kept-refl s)
  ]

  pub next_speaker-Kept : (id : String) → Kept s (next_speaker id m s).session
  unfolding next_speaker
  next_speaker-Kept id = elim (Bool-cases (ltb s.current_speaker_index (length s.speakers))) [
    | inl t ↦ rw t (Kept-refl s)
    | inr f ↦ rw f (Kept-mutated s s.clients _ _ _ _ (Same-refl s.clients))
  ]

pub uploaded_in-Kept :
    (id : String) (now : ℕ) (d : String) (m : SpeakerMeasurement) (s : MeasurementSession)
    → Kept s (uploaded_in id now d m s).session
unfolding uploaded_in next_speaker
uploaded_in-Kept id now d m s =
    let h : Clients = mark_first set_uploaded d m.microphones s.clients in
    let same : Same s.clients h =
      Same-mark_first set_uploaded (λ c. ground arith) d m.microphones s.clients in
    let more : Bool = ltb (s.current_speaker_index + 1) (length s.speakers) in
    elim (Bool-cases (all (λ r. (h r).recording_uploaded) m.microphones)) [
      | inl t ↦ rw t (elim (Bool-cases more) [
        | inl a ↦ rw a (Kept-mutated s h _ _ _ _ same)
        | inr b ↦ rw b (Kept-mutated s h _ _ _ _ same)
      ])
      | inr f ↦ rw f (Kept-mutated s h _ _ _ _ same)
    ]

-- No call changes a session's id, its job, its lists of speakers and microphones, or the device and slot
-- of any of its clients.
pub step-Kept :
    (url id : String) (c : Call) (s : MeasurementSession) → Kept s (step url id c s).session
unfolding step client_ready speaker_audio_ready recording_started playback_complete
    recording_uploaded get_session_status cancel_session handle_error broadcast_analysis_results
step-Kept url id (Call.start_measurement now) s =
    start_measurement-cases (λ o. Kept s o.session) id now s
      (λ _. Kept-mutated s s.clients _ _ _ _ (Same-refl s.clients))
      (λ r _. start_speaker-Kept id now r s)
step-Kept url id (Call.client_ready d) s =
    with_measurement-cases (λ o. Kept s o.session) (ready_in url id d) s (λ _. Kept-refl s)
      (λ m _. ready_in-Kept m s url id d)
step-Kept url id (Call.speaker_audio_ready d hash) s =
    with_measurement-cases (λ o. Kept s o.session) (audio_ready_in id d hash) s (λ _. Kept-refl s)
      (λ m _. audio_ready_in-Kept m s id d hash)
step-Kept url id (Call.recording_started d) s =
    with_measurement-cases (λ o. Kept s o.session) (started_in id d) s (λ _. Kept-refl s)
      (λ m _. started_in-Kept m s id d)
step-Kept url id (Call.playback_complete d) s =
    with_measurement-cases (λ o. Kept s o.session) (playback_in url id d) s (λ _. Kept-refl s)
      (λ m _. playback_in-Kept m s url id d)
step-Kept url id (Call.recording_uploaded now d name) s =
    with_measurement-cases (λ o. Kept s o.session) (uploaded_in id now d) s (λ _. Kept-refl s)
      (λ m _. uploaded_in-Kept id now d m s)
step-Kept url id Call.get_session_status s = Kept-refl s
step-Kept url id (Call.cancel_session x) s = Kept-mutated s s.clients _ _ _ _ (Same-refl s.clients)
step-Kept url id (Call.handle_error d x code) s =
    Kept-mutated s s.clients _ _ _ _ (Same-refl s.clients)
step-Kept url id (Call.broadcast_analysis_results job results) s = Kept-refl s
