-- ===== src/Storage/Devices.antt =====
-- storage/src/app/routers/devices.py
use sonalyze_backend.Prelude.{
  String, not, Option, none, some, List, [], ◌∷◌, ◌++◌, map, ◌==◌, select, find,
}
use sonalyze_backend.Json.{ℤ}
use sonalyze_backend.Storage.Model.{
  Device, Lobby, Participant, Measurement, SimulationJob, Database,
}
use sonalyze_backend.Storage.Rows.{get, has, without, replace, newest_first, page, forget}
use sonalyze_backend.Storage.Schemas.{DeviceCreate, DevicePatch}
use sonalyze_backend.Storage.Common.{
  Violation, unique, Body, Endpoint, Stamp, Framework, uncaught, not_found, respond, commit,
  with_row, show, fails, patch_nullable,
}

abbrev pub new_device : Stamp → DeviceCreate → Device
new_device stamp payload = record {
  id = stamp.id;
  external_id = payload.external_id;
  label = payload.label;
  platform = payload.platform;
  meta = some payload.meta;
  created_at = stamp.now;
}

abbrev pub by_external_id : String → List Device → Option Device
by_external_id external_id rows = find (λ (d : Device). d.external_id == external_id) rows

-- `on_conflict_do_update`: the row that the statement returns, from the one that holds the external id
abbrev pub upserted : Stamp → DeviceCreate → Option Device → Device
upserted stamp payload none = new_device stamp payload
upserted stamp payload (some device) = record device {
  label = payload.label;
  platform = payload.platform;
  meta = some payload.meta;
}

unfoldable pub upsert_row : Stamp → DeviceCreate → Option Device → List Device → List Device
unfolding replace
upsert_row stamp payload none rows = rows ++ upserted stamp payload none ∷ []
upsert_row stamp payload (some device) rows =
    replace Device.id device.id (upserted stamp payload (some device)) rows

abbrev pub upsert_violation : Stamp → Option Device → List Device → Option Violation
upsert_violation stamp none rows = fails (has Device.id stamp.id rows) (unique "devices_pkey")
upsert_violation stamp (some device) rows = none

abbrev pub patch_device_row : DevicePatch → Device → Device
patch_device_row payload device = record device {
  label = patch_nullable payload.label device.label;
  platform = patch_nullable payload.platform device.platform;
  meta = patch_nullable payload.meta device.meta;
}

-- what the foreign keys do when a device goes
unfoldable pub without_device : String → Database → Database
unfolding without
without_device id db = record db {
  devices = without Device.id id db.devices;
  lobbies =
      map (λ (l : Lobby). record l { creator_device_id = forget id l.creator_device_id })
        db.lobbies;
  participants = select (λ (p : Participant). not (p.device_id == id)) db.participants;
  measurements =
      map
        (λ (m : Measurement). record m { created_by_device_id = forget id m.created_by_device_id })
        db.measurements;
  simulation_jobs =
      map
        (λ (j : SimulationJob). record j {
          requested_by_device_id = forget id j.requested_by_device_id;
        })
        db.simulation_jobs;
}

module _ (fw : Framework) where
  unfoldable pub upsert_device : Stamp → DeviceCreate → Endpoint
  unfolding upsert_row has
  upsert_device stamp payload db =
      let found = by_external_id payload.external_id db.devices in
      commit fw uncaught (upsert_violation stamp found db.devices)
        (Body.device (upserted stamp payload found))
        (record db { devices = upsert_row stamp payload found db.devices }) db

  unfoldable pub list_devices : ℤ → ℤ → Endpoint
  unfolding newest_first page
  list_devices limit offset db = (
    respond fw (
        Body.devices
          (page limit offset (newest_first Device.id fw.precedes Device.created_at db.devices))),
    db,
  )

  unfoldable pub get_device : String → Endpoint
  unfolding get not_found
  get_device id db = show fw "device" Body.device (get Device.id id db.devices) db

  unfoldable pub get_device_by_external_id : String → Endpoint
  unfolding not_found
  get_device_by_external_id external_id db =
      show fw "device" Body.device (by_external_id external_id db.devices) db

  unfoldable pub patch_device : String → DevicePatch → Endpoint
  unfolding get replace not_found
  patch_device id payload db =
      with_row "device" (get Device.id id db.devices)
        (λ (device : Device).
          commit fw uncaught none (Body.device (patch_device_row payload device)) (record db {
            devices = replace Device.id id (patch_device_row payload device) db.devices;
          }))
        db

  unfoldable pub delete_device : String → Endpoint
  unfolding get not_found without_device
  delete_device id db =
      with_row "device" (get Device.id id db.devices)
        (λ (device : Device). commit fw uncaught none Body.deleted (without_device id db)) db
