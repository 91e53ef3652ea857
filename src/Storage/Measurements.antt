-- ===== src/Storage/Measurements.antt =====
-- storage/src/app/routers/measurements.py
use sonalyze_backend.Prelude.{String, ◌&&◌, not, Option, none, some, [], ◌∷◌, ◌++◌, ◌==◌, select}
use sonalyze_backend.Json.{ℤ}
use sonalyze_backend.Storage.Model.{Device, Lobby, Measurement, AnalysisOutput, Database}
use sonalyze_backend.Storage.Rows.{get, has, without, replace, newest_first, page, matches_optional}
use sonalyze_backend.Storage.Schemas.{MeasurementCreate, MeasurementPatch}
use sonalyze_backend.Storage.Common.{
  Violation, unique, foreign_key, Body, Endpoint, Stamp, Framework, uncaught, not_found, respond,
  commit, with_row, show, ◌orelse◌, fails, refers, patch_nullable, patch, no_null, or_default,
}

abbrev pub new_measurement : Stamp → MeasurementCreate → Measurement
new_measurement stamp payload = record {
  id = stamp.id;
  lobby_id = payload.lobby_id;
  created_by_device_id = payload.created_by_device_id;
  kind = or_default "raw" payload.kind;
  sample_rate_hz = payload.sample_rate_hz;
  channels = payload.channels;
  raw_blob_ref = payload.raw_blob_ref;
  raw_bytes = payload.raw_bytes;
  raw_sha256 = payload.raw_sha256;
  meta = some payload.meta;
  started_at = payload.started_at;
  stopped_at = payload.stopped_at;
  created_at = stamp.now;
}

abbrev pub measurement_violation : Database → Measurement → Option Violation
measurement_violation db m =
    fails (has Measurement.id m.id db.measurements) (unique "measurements_pkey")
    orelse fails (not (refers Lobby.id m.lobby_id db.lobbies))
        (foreign_key "measurements_lobby_id_fkey")
    orelse fails (not (refers Device.id m.created_by_device_id db.devices))
        (foreign_key "measurements_created_by_device_id_fkey")

abbrev pub patch_measurement_row : MeasurementPatch → Measurement → Measurement
patch_measurement_row payload m = record m {
  kind = patch payload.kind m.kind;
  sample_rate_hz = patch_nullable payload.sample_rate_hz m.sample_rate_hz;
  channels = patch_nullable payload.channels m.channels;
  raw_blob_ref = patch_nullable payload.raw_blob_ref m.raw_blob_ref;
  raw_bytes = patch_nullable payload.raw_bytes m.raw_bytes;
  raw_sha256 = patch_nullable payload.raw_sha256 m.raw_sha256;
  meta = patch_nullable payload.meta m.meta;
  started_at = patch_nullable payload.started_at m.started_at;
  stopped_at = patch_nullable payload.stopped_at m.stopped_at;
}

-- what the foreign key of the analysis outputs does when a measurement goes
unfoldable pub without_measurement : String → Database → Database
unfolding without
without_measurement id db = record db {
  measurements = without Measurement.id id db.measurements;
  analysis_outputs =
      select (λ (a : AnalysisOutput). not (a.measurement_id == id)) db.analysis_outputs;
}

module _ (fw : Framework) where
  unfoldable pub create_measurement : Stamp → MeasurementCreate → Endpoint
  unfolding has
  create_measurement stamp payload db =
      let row = new_measurement stamp payload in
      commit fw uncaught (measurement_violation db row) (Body.measurement row)
        (record db { measurements = db.measurements ++ row ∷ [] }) db

  unfoldable pub list_measurements : Option String → Option String → ℤ → ℤ → Endpoint
  unfolding newest_first page
  list_measurements lobby_id created_by_device_id limit offset db = (
    respond fw (
        Body.measurements (
          page limit offset (
            newest_first Measurement.id fw.precedes Measurement.created_at (
              select
                (λ (m : Measurement).
                  matches_optional lobby_id m.lobby_id
                  && matches_optional created_by_device_id m.created_by_device_id)
                db.measurements)))),
    db,
  )

  unfoldable pub get_measurement : String → Endpoint
  unfolding get not_found
  get_measurement id db =
      show fw "measurement" Body.measurement (get Measurement.id id db.measurements) db

  unfoldable pub patch_measurement : String → MeasurementPatch → Endpoint
  unfolding get replace not_found
  patch_measurement id payload db =
      with_row "measurement" (get Measurement.id id db.measurements)
        (λ (m : Measurement).
          commit fw uncaught (no_null "kind" payload.kind)
            (Body.measurement (patch_measurement_row payload m))
            (record db {
              measurements =
                  replace Measurement.id id (patch_measurement_row payload m) db.measurements;
            }))
        db

  unfoldable pub delete_measurement : String → Endpoint
  unfolding get not_found without_measurement
  delete_measurement id db =
      with_row "measurement" (get Measurement.id id db.measurements)
        (λ (m : Measurement). commit fw uncaught none Body.deleted (without_measurement id db)) db
