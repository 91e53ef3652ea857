-- ===== src/Storage/Upserts.antt =====
-- What an upsert of a device leaves in the table of the devices (upsert_device of
-- storage/src/app/routers/devices.py).
use sonalyze_backend.Prelude.{
  String, ◌≡◌, refl, ap, sym, ◌∙◌, true, false, Option, none, some, List, [], ◌∷◌, ◌++◌, ◌==◌, inl,
  inr, Bool-cases, eq_iff, eq_refl, arith, if◌then◌else◌,
}
use sonalyze_backend.Lobby.Rows.{find-append_new, find-append_ne}
use sonalyze_backend.Storage.Model.{Device, Database}
use sonalyze_backend.Storage.Rows.{get, has, replace}
use sonalyze_backend.Storage.Schemas.{DeviceCreate}
use sonalyze_backend.Storage.Common.{Framework, Stamp}
use sonalyze_backend.Storage.Devices
use sonalyze_backend.Storage.RoundTrip.{find-added}

-- The row that an upsert is to leave, column by column, from the row that held the external id.
abbrev pub stored_device : Stamp → DeviceCreate → Option Device → Device
stored_device stamp payload none = record {
  id = stamp.id;
  external_id = payload.external_id;
  label = payload.label;
  platform = payload.platform;
  meta = some payload.meta;
  created_at = stamp.now;
}
stored_device stamp payload (some d) = record {
  id = d.id;
  external_id = d.external_id;
  label = payload.label;
  platform = payload.platform;
  meta = some payload.meta;
  created_at = d.created_at;
}

module _ {A : Type 0} (key : A → String) (id : String) (new : A) (same : key new ≡ id) where
  get-replace_self :
      (rows : List A) → has key id rows ≡ true → get key id (replace key id new rows) ≡ some new
  unfolding get has replace
  get-replace_self [] e = cc e
  get-replace_self (r ∷ rows) e = elim (Bool-cases (key r == id)) [
    | inl hit ↦ rw (hit, (eq_iff (key new) id).1 same) refl
    | inr miss ↦ rw (miss, miss) (get-replace_self rows (rw miss at e))
  ]

  get-replace_ne :
      (j : String) (rows : List A)
      → (j == id) ≡ false
      → get key j (replace key id new rows) ≡ get key j rows
  unfolding get replace
  get-replace_ne j [] ne = refl
  get-replace_ne j (r ∷ rows) ne = ground (
    arith,
    eq_iff (key r) id,
    eq_iff (key r) j,
    eq_iff (key new) j,
    eq_iff j id,
    get-replace_ne j rows ne,
  )

holds :
    (external_id : String) (rows : List Device) (d : Device)
    → Devices.by_external_id external_id rows ≡ some d
    → ((d.external_id == external_id) ≡ true) × (has Device.id d.id rows ≡ true)
unfolding has
holds external_id [] d e = cc e
holds external_id (r ∷ rows) d e = elim (Bool-cases (r.external_id == external_id)) [
  | inl hit ↦
      let found : some r ≡ some d = rw hit at e in
      let same : r ≡ d = cc found in
      (
        ap (λ (x : Device). x.external_id == external_id) (sym same) ∙ hit,
        rw ((eq_iff r.id d.id).1 (ap Device.id same)) refl,
      )
  | inr miss ↦
      let (held, known) = holds external_id rows d (rw miss at e) in (held, ground (arith, known))
]

find-replaced :
    (external_id id : String) (new : Device) (rows : List Device) (old : Device)
    → new.external_id ≡ external_id
    → old.id ≡ id
    → Devices.by_external_id external_id rows ≡ some old
    → Devices.by_external_id external_id (replace Device.id id new rows) ≡ some new
unfolding replace
find-replaced external_id id new [] old same is_id e = cc e
find-replaced external_id id new (r ∷ rows) old same is_id e =
    elim (Bool-cases (r.external_id == external_id)) [
      | inl hit ↦
          let found : some r ≡ some old = rw hit at e in
          let is_old : r ≡ old = cc found in
          let at_id : r.id ≡ id = ap Device.id is_old ∙ is_id in
          rw (((eq_iff r.id id).1 at_id, (eq_iff new.external_id external_id).1 same)) refl
      | inr miss ↦
          let later : Devices.by_external_id external_id rows ≡ some old = rw miss at e in
          let rest = find-replaced external_id id new rows old same is_id later in
          let hit = (eq_iff new.external_id external_id).1 same in
          elim (Bool-cases (r.id == id)) [
            | inl at_id ↦ rw (at_id, hit) refl
            | inr other ↦ rw (other, miss) rest
          ]
    ]

module _ (fw : Framework) (stamp : Stamp) (payload : DeviceCreate) (db : Database) where
  upserted_found :
      (o : Option Device)
      → Devices.by_external_id payload.external_id db.devices ≡ o
      → Devices.by_external_id payload.external_id (Devices.upsert_row stamp payload o db.devices)
        ≡ some (Devices.upserted stamp payload o)
  unfolding Devices.upsert_row
  upserted_found none e =
      find-append_new (λ (d : Device). d.external_id == payload.external_id) db.devices
        (Devices.new_device stamp payload) e (eq_refl payload.external_id)
  upserted_found (some d) e =
      find-replaced payload.external_id d.id (Devices.upserted stamp payload (some d)) db.devices d
        ((eq_iff d.external_id payload.external_id).0 (holds payload.external_id db.devices d e).0)
        refl e

  upserted_at :
      (o : Option Device) (j : String)
      → Devices.by_external_id payload.external_id db.devices ≡ o
      → has Device.id stamp.id db.devices ≡ false
      → get Device.id j (Devices.upsert_row stamp payload o db.devices) ≡ (
          if j == (stored_device stamp payload o).id
          then some (stored_device stamp payload o)
          else get Device.id j db.devices)
  unfolding Devices.upsert_row
  upserted_at none j e fresh = elim (Bool-cases (j == stamp.id)) [
    | inl hit ↦
        let at_id : stamp.id ≡ j = sym ((eq_iff j stamp.id).0 hit) in
        rw hit (
          ap (λ k. get Device.id k (db.devices ++ Devices.new_device stamp payload ∷ []))
            (sym at_id)
          ∙ unfold get in find-added Device.id db.devices (Devices.new_device stamp payload) fresh)
    | inr miss ↦ rw miss (
        unfold get in
        find-append_ne (λ (d : Device). d.id == j) db.devices (Devices.new_device stamp payload)
          (ground (arith, eq_iff j stamp.id, eq_iff stamp.id j)))
  ]
  upserted_at (some d) j e fresh = elim (Bool-cases (j == d.id)) [
    | inl hit ↦
        let at_id : j ≡ d.id = (eq_iff j d.id).0 hit in
        rw hit (
          ap
            (λ k.
              get Device.id k
                (replace Device.id d.id (Devices.upserted stamp payload (some d)) db.devices))
            at_id
          ∙ get-replace_self Device.id d.id (Devices.upserted stamp payload (some d)) refl
              db.devices (holds payload.external_id db.devices d e).1)
    | inr miss ↦ rw miss (
        get-replace_ne Device.id d.id (Devices.upserted stamp payload (some d)) refl j db.devices
          miss)
  ]

  no_violation :
      (o : Option Device)
      → has Device.id stamp.id db.devices ≡ false
      → Devices.upsert_violation stamp o db.devices ≡ none
  no_violation none fresh = rw fresh refl
  no_violation (some d) fresh = refl

  stored_lem :
      (o : Option Device) → Devices.upserted stamp payload o ≡ stored_device stamp payload o
  stored_lem none = refl
  stored_lem (some d) = refl

  -- An upsert of a device under an id that no device has leaves, under its external id, a row with the label,
  -- the platform and the metadata of the request: a new row with that id and the time of the request, or the
  -- old row of the external id with its id and time of creation. No other id finds anything else than before,
  -- and a GET of the external id then answers what the upsert has answered.
  pub upsert_device-find :
      (j : String)
      → has Device.id stamp.id db.devices ≡ false
      → let (answer, after) = Devices.upsert_device fw stamp payload db in
        let row =
          stored_device stamp payload (Devices.by_external_id payload.external_id db.devices) in
        (Devices.by_external_id payload.external_id after.devices ≡ some row)
        × (get Device.id j after.devices
            ≡ (if j == row.id then some row else get Device.id j db.devices))
        × ((Devices.get_device_by_external_id fw payload.external_id after).0 ≡ answer)
  unfolding Devices.upsert_device Devices.get_device_by_external_id
  upsert_device-find j fresh =
      let found = Devices.by_external_id payload.external_id db.devices in
      rw (no_violation found fresh) (
        upserted_found found refl ∙ ap some (stored_lem found),
        upserted_at found j refl fresh,
        rw (upserted_found found refl) refl,
      )
