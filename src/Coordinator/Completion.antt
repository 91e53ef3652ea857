-- ===== src/Coordinator/Completion.antt =====
-- The upload reports of lobby/src/measurement_coordinator.py, one from each microphone: the last one
-- completes the speaker.
use sonalyze_backend.Prelude.{
  ℕ, ◌+◌, String, ◌≡◌, refl, ap, subst, sym, ◌∙◌, Bool, true, false, not, ◌||◌, some, List, [], ◌∷◌,
  ◌++◌, map, arith, inl, inr, Bool-cases, ◌==◌, eq_iff, All, In, ltb, length, if◌then◌else◌,
}
use sonalyze_backend.Coordinator.Model.{
  MeasurementClient, Clients, SpeakerMeasurement, SessionStatus, MeasurementSession,
  all_recordings_uploaded, device_ids,
}
use sonalyze_backend.Coordinator.Messages.{Outcome}
use sonalyze_backend.Coordinator.Start.{mark_first}
use sonalyze_backend.Coordinator.Recording.{
  recording_uploaded, uploaded_in, next_speaker, set_uploaded,
}
use sonalyze_backend.Coordinator.Table.{Call, step, run}
use sonalyze_backend.Coordinator.Cases.{with_measurement-some}
use sonalyze_backend.Coordinator.Clients.{Same, Same-mark_first}
use sonalyze_backend.Coordinator.Participants.{device_ids-Same}
use sonalyze_backend.Coordinator.Ready.{IsDistinct, mark_first-hits, all-In}
use sonalyze_backend.Coordinator.Deadlock.{mark_first-ne, all-false}

abbrev pub is_among : String → List String → Bool
is_among d [] = false
is_among d (e ∷ es) = (e == d) || is_among d es

-- The devices of which a report is missing are those of the microphones that have not uploaded.
abbrev pub Awaits : List String → Clients → List ℕ → Type 0
Awaits ds h rs = (r : ℕ) → In r rs → (h r).recording_uploaded ≡ not (is_among (h r).device_id ds)

is_among-fresh :
    (d : String) (ds : List String)
    → All (λ (e : String). (d == e) ≡ false) ds
    → is_among d ds ≡ false
is_among-fresh d [] h = refl
is_among-fresh d (e ∷ ds) h = ground (arith, eq_iff d e, eq_iff e d, is_among-fresh d ds h.1, h.0)

module _ (d : String) (h : Clients) (rs : List ℕ) where
  abbrev marked : Clients
  marked = mark_first set_uploaded d rs h

  marked-Same : Same h marked
  marked-Same = Same-mark_first set_uploaded (λ c. ground arith) d rs h

  -- A report marks the microphone of its device, and no other.
  marked-uploaded :
      (r : ℕ)
      → In r rs
      → IsDistinct (device_ids h rs)
      → (marked r).recording_uploaded ≡ ((h r).recording_uploaded || ((h r).device_id == d))
  marked-uploaded r i distinct = elim (Bool-cases ((h r).device_id == d)) [
    | inl hit ↦
        let at_device : (h r).device_id ≡ d = (eq_iff (h r).device_id d).0 hit in
        let set : (marked r).recording_uploaded ≡ true =
          subst (λ (x : String). (mark_first set_uploaded x rs h r).recording_uploaded ≡ true)
            at_device
            (mark_first-hits set_uploaded (λ c. c.recording_uploaded) (λ c. refl) h rs r i
              distinct) in
        ground (arith, set, hit)
    | inr miss ↦
        let same : marked r ≡ h r = mark_first-ne set_uploaded d rs h r miss in
        let kept : (marked r).recording_uploaded ≡ (h r).recording_uploaded =
          ap (λ (c : MeasurementClient). c.recording_uploaded) same in
        ground (arith, kept, miss)
  ]

  -- so that one report less is missing
  marked-Awaits :
      (ds : List String)
      → IsDistinct (device_ids h rs)
      → is_among d ds ≡ false
      → Awaits (d ∷ ds) h rs
      → Awaits ds marked rs
  marked-Awaits ds distinct fresh awaits r i =
      let device : (marked r).device_id ≡ (h r).device_id = (marked-Same r).device_id in
      let after = marked-uploaded r i distinct in
      let before = awaits r i in
      rw (after, device, before)
        (elim (Bool-cases ((h r).device_id == d)) [
          | inl hit ↦
              let at_device : (h r).device_id ≡ d = (eq_iff (h r).device_id d).0 hit in
              let none_left : is_among (h r).device_id ds ≡ false =
                ap (λ (x : String). is_among x ds) at_device ∙ fresh in
              ground (arith, hit, none_left)
          | inr miss ↦
              let other : (d == (h r).device_id) ≡ false =
                ground (arith, eq_iff (h r).device_id d, eq_iff d (h r).device_id, miss) in
              ground (arith, miss, other)
        ])

-- whether all recordings are in, by the reports that are missing
Awaits-nil :
    (h : Clients) (m : SpeakerMeasurement)
    → Awaits [] h m.microphones
    → all_recordings_uploaded h m ≡ true
unfolding all_recordings_uploaded
Awaits-nil h m awaits = all-In (λ r. (h r).recording_uploaded) m.microphones awaits

Awaits-cons :
    (d : String) (ds : List String) (h : Clients) (m : SpeakerMeasurement) (r : ℕ)
    → In r m.microphones
    → (h r).device_id ≡ d
    → Awaits (d ∷ ds) h m.microphones
    → all_recordings_uploaded h m ≡ false
unfolding all_recordings_uploaded
Awaits-cons d ds h m r i e awaits =
    all-false (λ q. (h q).recording_uploaded) m.microphones r i
      (let same : (d == (h r).device_id) ≡ true = (eq_iff d (h r).device_id).1 (sym e) in
        awaits r i ∙ ground (arith, same))

device_ids-In :
    (h : Clients) (rs : List ℕ) (d : String)
    → In d (device_ids h rs)
    → (r : ℕ) × In r rs × ((h r).device_id ≡ d)
device_ids-In h [] d i = elim i [ ]
device_ids-In h (r ∷ rs) d (inl e) = (r, inl refl, sym e)
device_ids-In h (r ∷ rs) d (inr i) = let (q, there, e) = device_ids-In h rs d i in (q, inr there, e)

-- The session has moved on by the speaker of `m`, and is completed if that was the last one.
abbrev pub HasCompleted : SpeakerMeasurement → MeasurementSession → MeasurementSession → Type 0
HasCompleted m s s' =
    (s'.current_speaker_index ≡ s.current_speaker_index + 1)
    × (s'.completed_measurements ≡ s.completed_measurements ++ (s.clients m.speaker).slot_id ∷ [])
    × (s'.status ≡ (
        if ltb (s.current_speaker_index + 1) (length s.speakers)
        then s.status
        else SessionStatus.completed))

module _ (id : String) (now : ℕ) (d name : String) (m : SpeakerMeasurement) (s : MeasurementSession)
    (current : s.current_measurement ≡ some m) where
  uploaded_in-last :
      all_recordings_uploaded (marked d s.clients m.microphones) m ≡ true
      → HasCompleted m s (uploaded_in id now d m s).session
  unfolding uploaded_in next_speaker
  uploaded_in-last done =
      let slot = (marked-Same d s.clients m.microphones m.speaker).slot_id in
      let listed = ap (λ x. s.completed_measurements ++ x ∷ []) slot in
      elim (Bool-cases (ltb (s.current_speaker_index + 1) (length s.speakers))) [
        | inl a ↦ rw done (rw a (refl, listed, refl))
        | inr b ↦ rw done (rw b (refl, listed, refl))
      ]

  recording_uploaded-last :
      all_recordings_uploaded (marked d s.clients m.microphones) m ≡ true
      → HasCompleted m s (recording_uploaded id now d name s).session
  unfolding recording_uploaded
  recording_uploaded-last done =
      subst (λ (o : Outcome). HasCompleted m s o.session)
        (sym (with_measurement-some (uploaded_in id now d) s m current)) (uploaded_in-last done)

  recording_uploaded-waiting :
      all_recordings_uploaded (marked d s.clients m.microphones) m ≡ false
      → (recording_uploaded id now d name s).session
        ≡ record s { clients = marked d s.clients m.microphones }
  unfolding recording_uploaded uploaded_in
  recording_uploaded-waiting missing =
      ap (λ (o : Outcome). o.session) (with_measurement-some (uploaded_in id now d) s m current)
      ∙ rw missing

module _ (url id : String) (now : ℕ) (name : String) (m : SpeakerMeasurement) where
  -- No two microphones of the current measurement share a device, and some devices, no two of them equal, are
  -- exactly those of the microphones that have not uploaded. Once each of these has reported its upload, in
  -- any order, the speaker has been completed once: its slot is appended to the completed ones, the index
  -- has moved on by one, and the session is completed if that was its last speaker.
  pub uploads_run-HasCompleted :
      (d : String) (ds : List String) (s : MeasurementSession)
      → s.current_measurement ≡ some m
      → IsDistinct (device_ids s.clients m.microphones)
      → IsDistinct (d ∷ ds)
      → All (λ (e : String). In e (device_ids s.clients m.microphones)) (d ∷ ds)
      → Awaits (d ∷ ds) s.clients m.microphones
      → HasCompleted m s (run url id (map (λ e. Call.recording_uploaded now e name) (d ∷ ds)) s)
  unfolding run step
  uploads_run-HasCompleted d [] s current distinct once present awaits =
      recording_uploaded-last id now d name m s current (
        Awaits-nil (marked d s.clients m.microphones) m
          (marked-Awaits d s.clients m.microphones [] distinct refl awaits))
  uploads_run-HasCompleted d (e ∷ ds) s current distinct once present awaits =
      let h : Clients = marked d s.clients m.microphones in
      let same : Same s.clients h = marked-Same d s.clients m.microphones in
      let devices : device_ids h m.microphones ≡ device_ids s.clients m.microphones =
        device_ids-Same s.clients h m.microphones same in
      let left : Awaits (e ∷ ds) h m.microphones =
        marked-Awaits d s.clients m.microphones (e ∷ ds) distinct (is_among-fresh d (e ∷ ds) once.0)
          awaits in
      let (r, there, of_e) = device_ids-In s.clients m.microphones e present.1.0 in
      let missing : all_recordings_uploaded h m ≡ false =
        Awaits-cons e ds h m r there ((same r).device_id ∙ of_e) left in
      let s' : MeasurementSession = record s { clients = h } in
      let rest : HasCompleted m s'
          (run url id (map (λ x. Call.recording_uploaded now x name) (e ∷ ds)) s') =
        uploads_run-HasCompleted e ds s' current (subst IsDistinct (sym devices) distinct) once.1
          (subst (λ (xs : List String). All (λ (x : String). In x xs) (e ∷ ds)) (sym devices)
            present.1)
          left in
      subst
        (λ t.
          HasCompleted m s (run url id (map (λ x. Call.recording_uploaded now x name) (e ∷ ds)) t))
        (sym (recording_uploaded-waiting id now d name m s current missing))
        (
          rest.0,
          rest.1 ∙ ap (λ x. s.completed_measurements ++ x ∷ []) (same m.speaker).slot_id,
          rest.2,
        )
