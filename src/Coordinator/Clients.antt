-- ===== src/Coordinator/Clients.antt =====
-- What the loops of the coordinator leave alone in the client objects: the identity of every client,
-- and, but for the resets at a start, every flag that is set.
use sonalyze_backend.Prelude.{
  ℕ, ◌≡◌, refl, ◌∙◌, String, true, List, [], ◌∷◌, inl, inr, Bool-cases, nat_eq, ◌==◌,
}
use sonalyze_backend.Coordinator.Model.{MeasurementClient, Clients, modify}
use sonalyze_backend.Coordinator.Start.{for_each, mark_first}

-- two states of one client
pub record SameClient (c c' : MeasurementClient) : Type 0 where
  pub device_id : c'.device_id ≡ c.device_id
  pub slot_id : c'.slot_id ≡ c.slot_id
  pub slot_label : c'.slot_label ≡ c.slot_label

-- every flag that was set is still set
pub record Grown (c c' : MeasurementClient) : Type 0 where
  pub is_ready : c.is_ready ≡ true → c'.is_ready ≡ true
  pub is_finished : c.is_finished ≡ true → c'.is_finished ≡ true
  pub recording_uploaded : c.recording_uploaded ≡ true → c'.recording_uploaded ≡ true
  pub recording_started : c.recording_started ≡ true → c'.recording_started ≡ true
  pub audio_received : c.audio_received ≡ true → c'.audio_received ≡ true

abbrev pub Same : Clients → Clients → Type 0
Same h h' = (r : ℕ) → SameClient (h r) (h' r)

abbrev pub Grow : Clients → Clients → Type 0
Grow h h' = (r : ℕ) → Grown (h r) (h' r)

pub Same-refl : (h : Clients) → Same h h
Same-refl h r = record { device_id = refl; slot_id = refl; slot_label = refl }

pub Grow-refl : (h : Clients) → Grow h h
Grow-refl h r = record {
  is_ready = λ e. e;
  is_finished = λ e. e;
  recording_uploaded = λ e. e;
  recording_started = λ e. e;
  audio_received = λ e. e;
}

module _ (f : MeasurementClient → MeasurementClient) where
  module _ (same : (c : MeasurementClient) → SameClient c (f c)) where
    pub Same-modify : (r : ℕ) (h : Clients) → Same h (modify r f h)
    Same-modify r h q = elim (Bool-cases (nat_eq q r)) [
      | inl e ↦ rw e (same (h q))
      | inr e ↦ rw e (Same-refl h q)
    ]

    pub Same-for_each : (rs : List ℕ) (h : Clients) → Same h (for_each f rs h)
    unfolding for_each
    Same-for_each [] h q = Same-refl h q
    Same-for_each (r ∷ rs) h q =
        let a = Same-modify r h q in
        let b = Same-for_each rs (modify r f h) q in
        record {
          device_id = b.device_id ∙ a.device_id;
          slot_id = b.slot_id ∙ a.slot_id;
          slot_label = b.slot_label ∙ a.slot_label;
        }

    pub Same-mark_first :
        (device_id : String) (rs : List ℕ) (h : Clients) → Same h (mark_first f device_id rs h)
    unfolding mark_first
    Same-mark_first d [] h q = Same-refl h q
    Same-mark_first d (r ∷ rs) h q = elim (Bool-cases ((h r).device_id == d)) [
      | inl e ↦ rw e (Same-modify r h q)
      | inr e ↦ rw e (Same-mark_first d rs h q)
    ]

  module _ (grown : (c : MeasurementClient) → Grown c (f c)) where
    pub Grow-modify : (r : ℕ) (h : Clients) → Grow h (modify r f h)
    Grow-modify r h q = elim (Bool-cases (nat_eq q r)) [
      | inl e ↦ rw e (grown (h q))
      | inr e ↦ rw e (Grow-refl h q)
    ]

    pub Grow-mark_first :
        (device_id : String) (rs : List ℕ) (h : Clients) → Grow h (mark_first f device_id rs h)
    unfolding mark_first
    Grow-mark_first d [] h q = Grow-refl h q
    Grow-mark_first d (r ∷ rs) h q = elim (Bool-cases ((h r).device_id == d)) [
      | inl e ↦ rw e (Grow-modify r h q)
      | inr e ↦ rw e (Grow-mark_first d rs h q)
    ]
