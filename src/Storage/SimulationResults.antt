-- ===== src/Storage/SimulationResults.antt =====
-- storage/src/app/routers/simulation_results.py
use sonalyze_backend.Prelude.{
  String, not, Option, none, some, List, [], ◌∷◌, ◌++◌, ◌==◌, select, find,
}
use sonalyze_backend.Json.{ℤ}
use sonalyze_backend.Storage.Model.{SimulationJob, SimulationResult, Database}
use sonalyze_backend.Storage.Rows.{get, has, without, replace, newest_first, page, matches}
use sonalyze_backend.Storage.Schemas.{SimulationResultCreate, SimulationResultPatch}
use sonalyze_backend.Storage.Common.{
  Violation, unique, foreign_key, Body, Endpoint, Stamp, Framework, map_integrity_error, uncaught,
  not_found, respond, commit, with_row, show, ◌orelse◌, fails, patch_nullable,
}

abbrev pub new_simulation_result : Stamp → SimulationResultCreate → SimulationResult
new_simulation_result stamp payload = record {
  id = stamp.id;
  job_id = payload.job_id;
  result = some payload.result;
  created_at = stamp.now;
}

abbrev pub by_job : String → List SimulationResult → Option SimulationResult
by_job job_id rows = find (λ (r : SimulationResult). r.job_id == job_id) rows

abbrev pub simulation_result_violation : Database → SimulationResult → Option Violation
simulation_result_violation db r =
    fails (has SimulationResult.id r.id db.simulation_results) (unique "simulation_results_pkey")
    orelse fails (has SimulationResult.job_id r.job_id db.simulation_results)
        (unique "uq_simulation_results_job")
    orelse fails (not (has SimulationJob.id r.job_id db.simulation_jobs))
        (foreign_key "simulation_results_job_id_fkey")

abbrev pub patch_simulation_result_row : SimulationResultPatch → SimulationResult → SimulationResult
patch_simulation_result_row payload r = record r { result = patch_nullable payload.result r.result }

module _ (fw : Framework) where
  unfoldable pub create_simulation_result : Stamp → SimulationResultCreate → Endpoint
  unfolding has map_integrity_error
  create_simulation_result stamp payload db =
      let row = new_simulation_result stamp payload in
      commit fw (map_integrity_error fw "simulation result already exists for job")
        (simulation_result_violation db row) (Body.simulation_result row)
        (record db { simulation_results = db.simulation_results ++ row ∷ [] }) db

  unfoldable pub list_simulation_results : Option String → ℤ → ℤ → Endpoint
  unfolding newest_first page
  list_simulation_results job_id limit offset db = (
    respond fw (
        Body.simulation_results (
          page limit offset (
            newest_first SimulationResult.id fw.precedes SimulationResult.created_at
              (select (λ (r : SimulationResult). matches job_id r.job_id) db.simulation_results)))),
    db,
  )

  unfoldable pub get_simulation_result : String → Endpoint
  unfolding get not_found
  get_simulation_result id db =
      show fw "simulation result" Body.simulation_result
        (get SimulationResult.id id db.simulation_results) db

  unfoldable pub get_simulation_result_by_job : String → Endpoint
  unfolding not_found
  get_simulation_result_by_job job_id db =
      show fw "simulation result" Body.simulation_result (by_job job_id db.simulation_results) db

  unfoldable pub patch_simulation_result : String → SimulationResultPatch → Endpoint
  unfolding get replace not_found
  patch_simulation_result id payload db =
      with_row "simulation result" (get SimulationResult.id id db.simulation_results)
        (λ (r : SimulationResult).
          commit fw uncaught none (Body.simulation_result (patch_simulation_result_row payload r))
            (record db {
              simulation_results =
                  replace SimulationResult.id id (patch_simulation_result_row payload r)
                    db.simulation_results;
            }))
        db

  unfoldable pub delete_simulation_result : String → Endpoint
  unfolding get not_found without
  delete_simulation_result id db =
      with_row "simulation result" (get SimulationResult.id id db.simulation_results)
        (λ (r : SimulationResult).
          commit fw uncaught none Body.deleted (record db {
            simulation_results = without SimulationResult.id id db.simulation_results;
          }))
        db
