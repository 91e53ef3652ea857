-- ===== src/Coordinator/Ready.antt =====
-- The ready signals of lobby/src/measurement_coordinator.py complete where no two clients of a
-- measurement share a device.
use sonalyze_backend.Prelude.{
  ℕ, String, ◌≡◌, refl, ap, subst, sym, ◌∙◌, Bool, true, false, some, List, [], ◌∷◌, map, arith,
  inl, inr, ◌⊎◌, Bool-cases, ◌==◌, eq_iff, all, All, In, In-map,
}
use sonalyze_backend.Coordinator.Model.{
  MeasurementPhase, MeasurementClient, Clients, modify, SpeakerMeasurement, MeasurementSession,
  all_ready, device_ids,
}
use sonalyze_backend.Coordinator.Messages.{Outcome}
use sonalyze_backend.Coordinator.Start.{
  set_ready, mark_first, mark_ready, ready_in, client_ready, set_phase,
}
use sonalyze_backend.Coordinator.Table.{Call, step, run}
use sonalyze_backend.Coordinator.Cases.{with_measurement-some}
use sonalyze_backend.Coordinator.Evidence.{mark_ready-Grow}
use sonalyze_backend.Coordinator.Participants.{set_ready-Same, device_ids-Same}

abbrev pub IsDistinct : List String → Type 0
IsDistinct [] = Unit
IsDistinct (d ∷ ds) = All (λ (e : String). (d == e) ≡ false) ds × IsDistinct ds

-- the clients of a measurement, the speaker first
abbrev pub members : SpeakerMeasurement → List ℕ
members m = m.speaker ∷ m.microphones

All-In : (P : String → Type 0) (xs : List String) (x : String) → All P xs → In x xs → P x
All-In P [] x h i = elim i [ ]
All-In P (y ∷ ys) x h (inl e) = subst P (sym e) h.0
All-In P (y ∷ ys) x h (inr i) = All-In P ys x h.1 i

-- another client of the list has another device
apart :
    (h : Clients) (q r : ℕ) (qs : List ℕ)
    → In r qs
    → IsDistinct (device_ids h (q ∷ qs))
    → ((h q).device_id == (h r).device_id) ≡ false
apart h q r qs i distinct =
    All-In (λ (e : String). ((h q).device_id == e) ≡ false) (device_ids h qs) (h r).device_id
      distinct.0 (In-map (λ (x : ℕ). (h x).device_id) r qs i)

same_device : (h : Clients) (q r : ℕ) → r ≡ q → ((h q).device_id == (h r).device_id) ≡ true
same_device h q r e =
    (eq_iff (h q).device_id (h r).device_id).1 (ap (λ (x : ℕ). (h x).device_id) (sym e))

-- An assignment that sets a flag, made to the first client of a device.
module _ (f : MeasurementClient → MeasurementClient) (flag : MeasurementClient → Bool)
    (sets : (c : MeasurementClient) → flag (f c) ≡ true) where
  modify-hits : (h : Clients) (r q : ℕ) → r ≡ q → flag (modify q f h r) ≡ true
  modify-hits h r q e = ground (arith, sets (h r))

  pub mark_first-hits :
      (h : Clients) (rs : List ℕ) (r : ℕ)
      → In r rs
      → IsDistinct (device_ids h rs)
      → flag (mark_first f (h r).device_id rs h r) ≡ true
  unfolding mark_first
  mark_first-hits h [] r i distinct = elim i [ ]
  mark_first-hits h (q ∷ qs) r (inl e) distinct = rw (same_device h q r e) (modify-hits h r q e)
  mark_first-hits h (q ∷ qs) r (inr i) distinct =
      rw (apart h q r qs i distinct) (mark_first-hits h qs r i distinct.1)

mark_ready-hits :
    (h : Clients) (m : SpeakerMeasurement) (r : ℕ)
    → In r (members m)
    → IsDistinct (device_ids h (members m))
    → (mark_ready (h r).device_id m h r).is_ready ≡ true
unfolding mark_ready
mark_ready-hits h m r (inl e) distinct =
    rw (same_device h m.speaker r e)
      (modify-hits set_ready (λ c. c.is_ready) (λ c. refl) h r m.speaker e)
mark_ready-hits h m r (inr i) distinct =
    rw (apart h m.speaker r m.microphones i distinct)
      (mark_first-hits set_ready (λ c. c.is_ready) (λ c. refl) h m.microphones r i distinct.1)

-- What a ready signal does: it marks, and may move the measurement on.
client_ready-cases :
    (P : MeasurementSession → Type 0) (url id d : String) (m : SpeakerMeasurement)
    (s : MeasurementSession)
    → s.current_measurement ≡ some m
    → ((m' : SpeakerMeasurement) (s' : MeasurementSession)
        → s'.current_measurement ≡ some m'
        → members m' ≡ members m
        → s'.clients ≡ mark_ready d m s.clients
        → P s')
    → P (client_ready url id d s).session
unfolding client_ready ready_in
client_ready-cases P url id d m s current each =
    subst (λ (o : Outcome). P o.session)
      (sym (with_measurement-some (ready_in url id d) s m current))
      (elim (Bool-cases (all_ready (mark_ready d m s.clients) m)) [
        | inl t ↦ rw t (each (set_phase MeasurementPhase.speaker_downloading m) _ refl refl refl)
        | inr f ↦ rw f (each m _ current refl refl)
      ])

-- A client that is ready, or whose device is still to signal.
abbrev IsSignalled : Clients → ℕ → List String → Type 0
IsSignalled h r ds = ((h r).is_ready ≡ true) ⊎ In (h r).device_id ds

mark_ready-IsSignalled :
    (h : Clients) (m : SpeakerMeasurement) (r : ℕ) (d : String) (ds : List String)
    → In r (members m)
    → IsDistinct (device_ids h (members m))
    → IsSignalled h r (d ∷ ds)
    → IsSignalled (mark_ready d m h) r ds
mark_ready-IsSignalled h m r d ds i distinct (inl e) = inl ((mark_ready-Grow d m h r).is_ready e)
mark_ready-IsSignalled h m r d ds i distinct (inr (inl e)) = inl (
    subst (λ (x : String). (mark_ready x m h r).is_ready ≡ true) e
      (mark_ready-hits h m r i distinct))
mark_ready-IsSignalled h m r d ds i distinct (inr (inr x)) =
    inr (subst (λ (y : String). In y ds) (sym (set_ready-Same d m h r).device_id) x)

run-hits :
    (url id : String) (devices : List String) (m : SpeakerMeasurement) (r : ℕ)
    (s : MeasurementSession)
    → s.current_measurement ≡ some m
    → In r (members m)
    → IsDistinct (device_ids s.clients (members m))
    → IsSignalled s.clients r devices
    → ((run url id (map Call.client_ready devices) s).clients r).is_ready ≡ true
unfolding run step
run-hits url id [] m r s current i distinct (inl e) = e
run-hits url id [] m r s current i distinct (inr x) = elim x [ ]
run-hits url id (d ∷ ds) m r s current i distinct signalled =
    client_ready-cases (λ t. ((run url id (map Call.client_ready ds) t).clients r).is_ready ≡ true)
      url id d m s current
      (λ m' s' current' same marked.
        let h : Clients = mark_ready d m s.clients in
        let devices : device_ids s'.clients (members m') ≡ device_ids s.clients (members m) =
          ap (device_ids s'.clients) same
          ∙ ap (λ (k : Clients). device_ids k (members m)) marked
          ∙ device_ids-Same s.clients h (members m) (set_ready-Same d m s.clients) in
        run-hits url id ds m' r s' current' (subst (λ (rs : List ℕ). In r rs) (sym same) i)
          (subst IsDistinct (sym devices) distinct)
          (subst (λ (k : Clients). IsSignalled k r ds) (sym marked)
            (mark_ready-IsSignalled s.clients m r d ds i distinct signalled)))

pub all-In : (p : ℕ → Bool) (rs : List ℕ) → ((r : ℕ) → In r rs → p r ≡ true) → all p rs ≡ true
all-In p [] h = refl
all-In p (r ∷ rs) h = ground (arith, h r (inl refl), all-In p rs (λ q i. h q (inr i)))

-- Where no two clients of the current measurement share a device: once each of their devices has
-- signalled that it is ready, in any order and with any repetitions or signals from other devices, all
-- clients of the measurement are ready.
pub ready_run-completes :
    (url id : String) (devices : List String) (m : SpeakerMeasurement) (s : MeasurementSession)
    → s.current_measurement ≡ some m
    → IsDistinct (device_ids s.clients (members m))
    → All (λ (d : String). In d devices) (device_ids s.clients (members m))
    → all_ready (run url id (map Call.client_ready devices) s).clients m ≡ true
unfolding all_ready
ready_run-completes url id devices m s current distinct signalled = ground (
  arith,
  ready m.speaker (inl refl),
  all-In (λ r. (end.clients r).is_ready) m.microphones (λ r i. ready r (inr i)),
)
  where
    end : MeasurementSession
    end = run url id (map Call.client_ready devices) s

    ready : (r : ℕ) → In r (members m) → (end.clients r).is_ready ≡ true
    ready r i = run-hits url id devices m r s current i distinct (
        inr (
          All-In (λ (d : String). In d devices) (device_ids s.clients (members m))
            (s.clients r).device_id signalled
            (In-map (λ (x : ℕ). (s.clients x).device_id) r (members m) i)))
