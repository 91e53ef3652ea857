-- ===== src/Storage/NullMeta.antt =====
-- A JSON column that a patch sets to null (patch_device of storage/src/app/routers/devices.py and
-- `DevicePatch`, `DeviceOut` of storage/src/app/schemas.py).
use sonalyze_backend.Prelude.{
  String, ◌≡◌, refl, ap, ◌∙◌, Bool, false, none, some, List, [], ◌∷◌, ◌==◌, inl, inr, Bool-cases,
  eq_iff, if◌then◌else◌,
}
use sonalyze_backend.Storage.Model.{Device, Database}
use sonalyze_backend.Storage.Rows.{get, replace}
use sonalyze_backend.Storage.Schemas.{Change, DevicePatch}
use sonalyze_backend.Storage.Answers.{is_valid}
use sonalyze_backend.Storage.Common.{Framework, Body, body, http, respond, patch_nullable}
use sonalyze_backend.Storage.Devices.{patch_device, get_device, patch_device_row}

-- the row that an assignment has changed
get-replace :
    {A : Type 0} (key : A → String) (id : String) (new old : A) (rows : List A)
    → key new ≡ id
    → get key id rows ≡ some old
    → get key id (replace key id new rows) ≡ some new
unfolding get replace
get-replace key id new old [] same e = cc e
get-replace key id new old (r ∷ rows) same e = elim (Bool-cases (key r == id)) [
  | inl hit ↦ rw (hit, (eq_iff (key new) id).1 same) refl
  | inr miss ↦ rw (miss, miss) (get-replace key id new old rows same (rw miss at e))
]

get-key :
    {A : Type 0} (key : A → String) (id : String) (old : A) (rows : List A)
    → get key id rows ≡ some old
    → key old ≡ id
unfolding get
get-key key id old [] e = cc e
get-key key id old (r ∷ rows) e = elim (Bool-cases (key r == id)) [
  | inl hit ↦
      let found : some r ≡ some old = rw hit at e in
      let same : old ≡ r = cc found in ap key same ∙ (eq_iff (key r) id).0 hit
  | inr miss ↦ get-key key id old rows (rw miss at e)
]

module _ (fw : Framework) (db : Database) (id : String) (payload : DevicePatch) (old : Device) where
  -- What a patch of a device that is there answers is what its id is answered with afterwards.
  patch_device-get_device :
      get Device.id id db.devices ≡ some old
      → ((patch_device fw id payload db).0
          ≡ respond fw (Body.device (patch_device_row payload old)))
        × ((get_device fw id (patch_device fw id payload db).1).0
            ≡ (patch_device fw id payload db).0)
  unfolding get_device patch_device
  patch_device-get_device there =
      let at_id : old.id ≡ id = get-key Device.id id old db.devices there in
      rw there (
        refl,
        rw (get-replace Device.id id (patch_device_row payload old) old db.devices at_id there)
            refl,
      )

  -- When the response model rejects a device without metadata, a patch that sets the metadata to null is
  -- answered by 500 and is nevertheless kept: the GET of the device that follows is answered by 500 too.
  pub patch_device-null :
      ((d : Device) → d.meta ≡ none → is_valid fw (Body.device d) ≡ false)
      → get Device.id id db.devices ≡ some old
      → payload.meta ≡ Change.null
      → ((patch_device fw id payload db).0 ≡ http 500 "Internal Server Error")
        × ((get_device fw id (patch_device fw id payload db).1).0
            ≡ http 500 "Internal Server Error")
  patch_device-null rejects there null_meta =
      let both = patch_device-get_device there in
      let no_meta : (patch_device_row payload old).meta ≡ none =
        ap (λ c. patch_nullable c old.meta) null_meta in
      let rejected = rejects (patch_device_row payload old) no_meta in
      let answer : (patch_device fw id payload db).0 ≡ http 500 "Internal Server Error" =
        both.0
        ∙ ap
            (λ (b : Bool).
              if b
              then body (Body.device (patch_device_row payload old))
              else http 500 "Internal Server Error")
            rejected in
      (answer, both.1 ∙ answer)
