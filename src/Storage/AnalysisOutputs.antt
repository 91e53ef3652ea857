-- ===== src/Storage/AnalysisOutputs.antt =====
-- storage/src/app/routers/analysis_outputs.py
use sonalyze_backend.Prelude.{String, not, Option, none, some, [], ◌∷◌, ◌++◌, select}
use sonalyze_backend.Json.{ℤ}
use sonalyze_backend.Storage.Model.{Measurement, AnalysisOutput, Database}
use sonalyze_backend.Storage.Rows.{get, has, without, replace, newest_first, page, matches}
use sonalyze_backend.Storage.Schemas.{AnalysisOutputCreate, AnalysisOutputPatch}
use sonalyze_backend.Storage.Common.{
  Violation, unique, foreign_key, Body, Endpoint, Stamp, Framework, uncaught, not_found, respond,
  commit, with_row, show, ◌orelse◌, fails, patch_nullable, patch, no_null, or_default,
}

abbrev pub new_analysis_output : Stamp → AnalysisOutputCreate → AnalysisOutput
new_analysis_output stamp payload = record {
  id = stamp.id;
  measurement_id = payload.measurement_id;
  type = payload.type;
  status = or_default "created" payload.status;
  result = some payload.result;
  created_at = stamp.now;
}

abbrev pub analysis_output_violation : Database → AnalysisOutput → Option Violation
analysis_output_violation db a =
    fails (has AnalysisOutput.id a.id db.analysis_outputs) (unique "analysis_outputs_pkey")
    orelse fails (not (has Measurement.id a.measurement_id db.measurements))
        (foreign_key "analysis_outputs_measurement_id_fkey")

abbrev pub patch_analysis_output_row : AnalysisOutputPatch → AnalysisOutput → AnalysisOutput
patch_analysis_output_row payload a = record a {
  status = patch payload.status a.status;
  result = patch_nullable payload.result a.result;
}

module _ (fw : Framework) where
  unfoldable pub create_analysis_output : Stamp → AnalysisOutputCreate → Endpoint
  unfolding has
  create_analysis_output stamp payload db =
      let row = new_analysis_output stamp payload in
      commit fw uncaught (analysis_output_violation db row) (Body.analysis_output row)
        (record db { analysis_outputs = db.analysis_outputs ++ row ∷ [] }) db

  unfoldable pub list_analysis_outputs : Option String → ℤ → ℤ → Endpoint
  unfolding newest_first page
  list_analysis_outputs measurement_id limit offset db = (
    respond fw (
        Body.analysis_outputs (
          page limit offset (
            newest_first AnalysisOutput.id fw.precedes AnalysisOutput.created_at (
              select (λ (a : AnalysisOutput). matches measurement_id a.measurement_id)
                db.analysis_outputs)))),
    db,
  )

  unfoldable pub get_analysis_output : String → Endpoint
  unfolding get not_found
  get_analysis_output id db =
      show fw "analysis output" Body.analysis_output (get AnalysisOutput.id id db.analysis_outputs)
        db

  unfoldable pub patch_analysis_output : String → AnalysisOutputPatch → Endpoint
  unfolding get replace not_found
  patch_analysis_output id payload db =
      with_row "analysis output" (get AnalysisOutput.id id db.analysis_outputs)
        (λ (a : AnalysisOutput).
          commit fw uncaught (no_null "status" payload.status)
            (Body.analysis_output (patch_analysis_output_row payload a))
            (record db {
              analysis_outputs =
                  replace AnalysisOutput.id id (patch_analysis_output_row payload a)
                    db.analysis_outputs;
            }))
        db

  unfoldable pub delete_analysis_output : String → Endpoint
  unfolding get not_found without
  delete_analysis_output id db =
      with_row "analysis output" (get AnalysisOutput.id id db.analysis_outputs)
        (λ (a : AnalysisOutput).
          commit fw uncaught none Body.deleted
            (record db { analysis_outputs = without AnalysisOutput.id id db.analysis_outputs }))
        db
