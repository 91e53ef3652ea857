-- ===== src/Coordinator/Created.antt =====
-- A session as `create_session` of lobby/src/measurement_coordinator.py makes it.
use sonalyze_backend.Prelude.{
  ℕ, suc, ◌+◌, ◌≤◌, ◌<◌, String, ◌≡◌, refl, ap, subst, ◌∙◌, List, [], ◌∷◌, ◌++◌, map, length, arith,
  All, All-of, In,
}
use sonalyze_backend.Coordinator.Model.{
  ClientRole, Clients, MeasurementSession, device_ids, all_device_ids, modify, MeasurementClient,
}
use sonalyze_backend.Coordinator.Messages.{Broadcast}
use sonalyze_backend.Coordinator.Start.{
  ClientInfo, new_client, new_refs, new_clients, unallocated, create_session,
}
use sonalyze_backend.Coordinator.Table.{Call, broadcasts}
use sonalyze_backend.Coordinator.Addressed.{Addressed}
use sonalyze_backend.Coordinator.Linked.{broadcasts-Addressed}

modify-ne :
    (r q : ℕ) (f : MeasurementClient → MeasurementClient) (h : Clients)
    → r < q
    → (modify q f h r ≡ h r) × (modify r f h q ≡ h q)
modify-ne r q f h lt = ground arith

new_clients-below :
    (role : ClientRole) (r : ℕ) (cs : List ClientInfo) (h : Clients) (q : ℕ)
    → q < r
    → new_clients role r cs h q ≡ h q
unfolding new_clients
new_clients-below role r [] h q lt = refl
new_clients-below role r (c ∷ cs) h q lt =
    (modify-ne q r (λ _. new_client role c) (new_clients role (suc r) cs h) lt).0
    ∙ new_clients-below role (suc r) cs h q (omega (arith, lt))

new_clients-above :
    (role : ClientRole) (r : ℕ) (cs : List ClientInfo) (h : Clients) (q : ℕ)
    → r + length cs ≤ q
    → new_clients role r cs h q ≡ h q
unfolding new_clients
new_clients-above role r [] h q le = refl
new_clients-above role r (c ∷ cs) h q le =
    (modify-ne r q (λ _. new_client role c) (new_clients role (suc r) cs h) (omega (arith, le))).1
    ∙ new_clients-above role (suc r) cs h q (omega (arith, le))

-- the devices at the references of a list
device_ids-above :
    (f : MeasurementClient → MeasurementClient) (r q : ℕ) (cs : List ClientInfo) (h : Clients)
    → r < q
    → device_ids (modify r f h) (new_refs q cs) ≡ device_ids h (new_refs q cs)
unfolding new_refs
device_ids-above f r q [] h lt = refl
device_ids-above f r q (c ∷ cs) h lt =
    let first : modify r f h q ≡ h q = (modify-ne r q f h lt).1 in
    cc (first, device_ids-above f r (suc q) cs h (omega (arith, lt)))

new_clients-device_ids :
    (role : ClientRole) (r : ℕ) (cs : List ClientInfo) (h : Clients)
    → device_ids (new_clients role r cs h) (new_refs r cs) ≡ map (λ c. c.device_id) cs
unfolding new_clients new_refs
new_clients-device_ids role r [] h = refl
new_clients-device_ids role r (c ∷ cs) h =
    let rest : Clients = new_clients role (suc r) cs h in
    let first : (modify r (λ _. new_client role c) rest r).device_id ≡ c.device_id = ground arith in
    ap (λ d. d ∷ device_ids (modify r (λ _. new_client role c) rest) (new_refs (suc r) cs)) first
    ∙ ap (λ ds. c.device_id ∷ ds)
        (device_ids-above (λ _. new_client role c) r (suc r) cs rest (omega arith)
          ∙ new_clients-device_ids role (suc r) cs h)

device_ids-outside :
    (role : ClientRole) (cs : List ClientInfo) (h : Clients) (q : ℕ) (ms : List ClientInfo)
    → length cs ≤ q
    → device_ids (new_clients role 0 cs h) (new_refs q ms) ≡ device_ids h (new_refs q ms)
unfolding new_refs
device_ids-outside role cs h q [] le = refl
device_ids-outside role cs h q (m ∷ ms) le =
    let first : new_clients role 0 cs h q ≡ h q =
      new_clients-above role 0 cs h q (omega (arith, le)) in
    cc (first, device_ids-outside role cs h (suc q) ms (omega (arith, le)))

module _ (id : String) (now : ℕ) (job lobby : String) (speakers microphones : List ClientInfo) where
  -- the devices of the two lists of the request
  abbrev pub requested : List String
  requested = map (λ c. c.device_id) speakers ++ map (λ c. c.device_id) microphones

  -- The devices of a new session are those of the request, in its order, speakers first.
  pub create_session-all_device_ids :
      all_device_ids (create_session id now job lobby speakers microphones) ≡ requested
  unfolding create_session all_device_ids
  create_session-all_device_ids =
      let h : Clients =
        new_clients ClientRole.microphone (length speakers) microphones unallocated in
      cc (
        new_clients-device_ids ClientRole.speaker 0 speakers h,
        device_ids-outside ClientRole.speaker speakers h (length speakers) microphones
            (omega arith),
        new_clients-device_ids ClientRole.microphone (length speakers) microphones unallocated,
      )

  -- Whatever calls come in for a new session: every target of every broadcast is a device of the request
  -- that created it.
  pub create_session-Addressed :
      (url : String) (calls : List Call)
      → All
          (λ (b : Broadcast). All (λ (d : String). In d requested) b.targets)
          (broadcasts url id calls (create_session id now job lobby speakers microphones))
  unfolding create_session
  create_session-Addressed url calls =
      All-of _ _ (λ b sent. All-of _ _ (λ d target. addressed b sent d target))
    where
      new : MeasurementSession
      new = create_session id now job lobby speakers microphones

      addressed : Addressed requested (broadcasts url id calls new)
      addressed =
          subst (λ (ids : List String). Addressed ids (broadcasts url id calls new))
            create_session-all_device_ids (broadcasts-Addressed url id calls new tt)
