-- ===== src/Coordinator/Deadlock.antt =====
-- A device that serves a session of lobby/src/measurement_coordinator.py both as the current speaker
-- and as a microphone: its ready signal reaches the speaker's object only.
use sonalyze_backend.Prelude.{
  ℕ, String, ◌≡◌, ◌≢◌, refl, sym, ap, subst, ◌∙◌, Bool, false, some, List, [], ◌∷◌, map, inl, inr,
  arith, Bool-cases, ◌==◌, all, In,
}
use sonalyze_backend.Coordinator.Model.{
  MeasurementClient, Clients, modify, SpeakerMeasurement, MeasurementSession, all_ready,
}
use sonalyze_backend.Coordinator.Start.{ready_in, client_ready, mark_ready, mark_first, set_ready}
use sonalyze_backend.Coordinator.Table.{Call, step, run}
use sonalyze_backend.Coordinator.Messages.{Outcome}
use sonalyze_backend.Coordinator.Cases.{with_measurement-some}
use sonalyze_backend.Coordinator.Participants.{set_ready-Same}

-- The microphone `r` has the speaker's device, is another object, and is not ready.
pub record IsShared (h : Clients) (speaker r : ℕ) : Type 0 where
  pub device : (h r).device_id ≡ (h speaker).device_id
  pub other : r ≢ speaker
  pub unready : (h r).is_ready ≡ false

modify-ne :
    (f : MeasurementClient → MeasurementClient) (r q : ℕ) (h : Clients)
    → q ≢ r
    → modify r f h q ≡ h q
modify-ne f r q h ne = ground arith

-- A device id that is not the client's leaves the client alone.
pub mark_first-ne :
    (f : MeasurementClient → MeasurementClient) (d : String) (rs : List ℕ) (h : Clients) (q : ℕ)
    → ((h q).device_id == d) ≡ false
    → mark_first f d rs h q ≡ h q
unfolding mark_first
mark_first-ne f d [] h q ne = refl
mark_first-ne f d (r ∷ rs) h q ne = elim (Bool-cases ((h r).device_id == d)) [
  | inl e ↦ rw e (modify-ne f r q h (λ same. cc (ne, e, ap (λ x. (h x).device_id == d) same)))
  | inr e ↦ rw e (mark_first-ne f d rs h q ne)
]

mark_ready-untouched :
    (d : String) (m : SpeakerMeasurement) (h : Clients) (r : ℕ)
    → IsShared h m.speaker r
    → mark_ready d m h r ≡ h r
unfolding mark_ready
mark_ready-untouched d m h r s = elim (Bool-cases ((h m.speaker).device_id == d)) [
  | inl e ↦ rw e (modify-ne set_ready m.speaker r h s.other)
  | inr e ↦
      rw e (mark_first-ne set_ready d m.microphones h r (ap (λ (x : String). x == d) s.device ∙ e))
]

mark_ready-IsShared :
    (d : String) (m : SpeakerMeasurement) (h : Clients) (r : ℕ)
    → IsShared h m.speaker r
    → IsShared (mark_ready d m h) m.speaker r
mark_ready-IsShared d m h r s = record {
  device =
      (set_ready-Same d m h r).device_id
      ∙ (s.device ∙ sym (set_ready-Same d m h m.speaker).device_id);
  other = s.other;
  unready = ap (λ (c : MeasurementClient). c.is_ready) (mark_ready-untouched d m h r s) ∙ s.unready;
}

pub all-false : (p : ℕ → Bool) (rs : List ℕ) (r : ℕ) → In r rs → p r ≡ false → all p rs ≡ false
all-false p [] r i e = elim i [ ]
all-false p (x ∷ rs) r (inl same) e = ground (arith, ap p same)
all-false p (x ∷ rs) r (inr i) e = ground (arith, all-false p rs r i e)

all_ready-IsShared :
    (h : Clients) (m : SpeakerMeasurement) (r : ℕ)
    → In r m.microphones
    → IsShared h m.speaker r
    → all_ready h m ≡ false
unfolding all_ready
all_ready-IsShared h m r i s =
    ground (arith, all-false (λ q. (h q).is_ready) m.microphones r i s.unready)

-- A ready signal that leaves a client unready only marks its client.
client_ready-waiting :
    (url id d : String) (m : SpeakerMeasurement) (s : MeasurementSession)
    → s.current_measurement ≡ some m
    → all_ready (mark_ready d m s.clients) m ≡ false
    → (client_ready url id d s).session ≡ record s { clients = mark_ready d m s.clients }
unfolding client_ready ready_in
client_ready-waiting url id d m s current unready =
    ap (λ (o : Outcome). o.session) (with_measurement-some (ready_in url id d) s m current)
    ∙ rw unready

-- `m` is being measured, and not everybody is ready.
abbrev pub Waits : SpeakerMeasurement → MeasurementSession → Type 0
Waits m s = (s.current_measurement ≡ some m) × (all_ready s.clients m ≡ false)

-- Where a microphone of the current measurement has the speaker's device, is another client, and is not
-- ready: after any ready signals, from any devices, the measurement is the same and not all are ready.
pub ready_run-Waits :
    (url id : String) (devices : List String) (m : SpeakerMeasurement) (r : ℕ)
    (s : MeasurementSession)
    → s.current_measurement ≡ some m
    → In r m.microphones
    → IsShared s.clients m.speaker r
    → Waits m (run url id (map Call.client_ready devices) s)
unfolding run step
ready_run-Waits url id [] m r s current i shared =
    (current, all_ready-IsShared s.clients m r i shared)
ready_run-Waits url id (d ∷ ds) m r s current i shared =
    let h : Clients = mark_ready d m s.clients in
    let next : IsShared h m.speaker r = mark_ready-IsShared d m s.clients r shared in
    let stays : all_ready h m ≡ false = all_ready-IsShared h m r i next in
    subst (λ t. Waits m (run url id (map Call.client_ready ds) t))
      (sym (client_ready-waiting url id d m s current stays))
      (ready_run-Waits url id ds m r (record s { clients = h }) current i next)
