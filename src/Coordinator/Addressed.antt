-- ===== src/Coordinator/Addressed.antt =====
-- Broadcasts to participants of a session, by their parts (lobby/src/measurement_coordinator.py).
use sonalyze_backend.Prelude.{
  ℕ, String, ◌≡◌, ap, subst, sym, ◌∙◌, Option, none, some, List, [], ◌∷◌, ◌++◌, inl, inr, get_elem?,
  In, In-append, In-append_left, In-append_right, In-map, suc, zero,
}
use sonalyze_backend.Coordinator.Model.{
  MeasurementPhase, SpeakerMeasurement, MeasurementSession, device_ids, all_device_ids,
}
use sonalyze_backend.Coordinator.Messages.{
  Message, Broadcast, broadcast_to_devices, broadcast_phase_update,
}
use sonalyze_backend.Coordinator.Participants.{Kept, all_device_ids-Kept, device_ids-Same}

-- `sent` goes to none but the devices `ids`.
abbrev pub Addressed : List String → List Broadcast → Type 0
Addressed ids sent = (b : Broadcast) → In b sent → (d : String) → In d b.targets → In d ids

-- The current measurement refers to a speaker of the session and to its microphones.
abbrev pub LinkedFor : MeasurementSession → Option SpeakerMeasurement → Type 0
LinkedFor s none = Unit
LinkedFor s (some m) = In m.speaker s.speakers × (m.microphones ≡ s.microphones)

abbrev pub IsLinked : MeasurementSession → Type 0
IsLinked s = LinkedFor s s.current_measurement

pub In-get_elem? : (xs : List ℕ) (i r : ℕ) → get_elem? xs i ≡ some r → In r xs
In-get_elem? [] i r e = cc
In-get_elem? (x ∷ xs) zero r e = inl (cc)
In-get_elem? (x ∷ xs) (suc i) r e = inr (In-get_elem? xs i r e)

module _ (ids : List String) where
  pub Addressed-nil : Addressed ids []
  Addressed-nil b h d t = elim h [ ]

  pub Addressed-append :
      (a b : List Broadcast) → Addressed ids a → Addressed ids b → Addressed ids (a ++ b)
  Addressed-append a b ha hb x h d t = elim (In-append x a b h) [
    | inl l ↦ ha x l d t
    | inr r ↦ hb x r d t
  ]

  send-Addressed :
      (targets : List String) (message : Message)
      → ((d : String) → In d targets → In d ids)
      → Addressed ids (broadcast_to_devices targets message)
  unfolding broadcast_to_devices
  send-Addressed [] message sub b h d t = elim h [ ]
  send-Addressed (x ∷ xs) message sub b (inl e) d t =
      sub d (subst (λ (c : Broadcast). In d c.targets) e t)
  send-Addressed (x ∷ xs) message sub b (inr h) d t = elim h [ ]

  send_one-Addressed :
      (d : String) (message : Message)
      → In d ids
      → Addressed ids (broadcast_to_devices (d ∷ []) message)
  send_one-Addressed d message h =
      send-Addressed (d ∷ []) message
        λ x. elim [ inl e ↦ subst (λ y. In y ids) (sym e) h | inr none_left ↦ elim none_left [ ] ]

module _ (s s' : MeasurementSession) (kept : Kept s s') where
  pub send_all-Addressed :
      (message : Message)
      → Addressed (all_device_ids s) (broadcast_to_devices (all_device_ids s') message)
  send_all-Addressed message =
      send-Addressed (all_device_ids s) (all_device_ids s') message
        (λ d t. subst (In d) (all_device_ids-Kept s s' kept) t)

  pub phase_update-Addressed :
      (p : MeasurementPhase) (extra : Option (ℕ × ℕ))
      → Addressed (all_device_ids s) (broadcast_phase_update s' p extra)
  unfolding broadcast_phase_update
  phase_update-Addressed p extra = send_all-Addressed _

  pub send_speaker-Addressed :
      (r : ℕ) (message : Message)
      → In r s.speakers
      → Addressed (all_device_ids s) (broadcast_to_devices ((s'.clients r).device_id ∷ []) message)
  unfolding all_device_ids
  send_speaker-Addressed r message h =
      send_one-Addressed (all_device_ids s) (s'.clients r).device_id message (
        subst (λ d. In d (all_device_ids s)) (sym (kept.same r).device_id)
          (In-append_left _ _ _ (In-map (λ q. (s.clients q).device_id) r s.speakers h)))

  pub send_microphones-Addressed :
      (rs : List ℕ) (message : Message)
      → rs ≡ s.microphones
      → Addressed (all_device_ids s) (broadcast_to_devices (device_ids s'.clients rs) message)
  unfolding all_device_ids
  send_microphones-Addressed rs message e =
      send-Addressed (all_device_ids s) (device_ids s'.clients rs) message λ d t.
        In-append_right _ (device_ids s.clients s.speakers) _ (
          subst (λ ds. In d ds)
            (device_ids-Same s.clients s'.clients rs kept.same ∙ ap (device_ids s.clients) e) t)
