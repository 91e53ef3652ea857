-- ===== src/Storage/SimulationJobs.antt =====
-- storage/src/app/routers/simulation_jobs.py
use sonalyze_backend.Prelude.{String, ◌&&◌, not, Option, none, some, [], ◌∷◌, ◌++◌, ◌==◌, select}
use sonalyze_backend.Json.{ℤ}
use sonalyze_backend.Storage.Model.{Device, Lobby, SimulationJob, SimulationResult, Database}
use sonalyze_backend.Storage.Rows.{
  get, has, without, replace, newest_first, page, matches, matches_optional,
}
use sonalyze_backend.Storage.Schemas.{SimulationJobCreate, SimulationJobPatch}
use sonalyze_backend.Storage.Common.{
  Violation, unique, foreign_key, Body, Endpoint, Stamp, Framework, uncaught, not_found, respond,
  commit, with_row, show, ◌orelse◌, fails, refers, patch_nullable, patch, no_null, or_default,
}

abbrev pub new_simulation_job : Stamp → SimulationJobCreate → SimulationJob
new_simulation_job stamp payload = record {
  id = stamp.id;
  requested_by_device_id = payload.requested_by_device_id;
  lobby_id = payload.lobby_id;
  status = or_default "queued" payload.status;
  params = some payload.params;
  created_at = stamp.now;
  started_at = none;
  finished_at = none;
  error = none;
}

abbrev pub simulation_job_violation : Database → SimulationJob → Option Violation
simulation_job_violation db j =
    fails (has SimulationJob.id j.id db.simulation_jobs) (unique "simulation_jobs_pkey")
    orelse fails (not (refers Device.id j.requested_by_device_id db.devices))
        (foreign_key "simulation_jobs_requested_by_device_id_fkey")
    orelse fails (not (refers Lobby.id j.lobby_id db.lobbies))
        (foreign_key "simulation_jobs_lobby_id_fkey")

abbrev pub patch_simulation_job_row : SimulationJobPatch → SimulationJob → SimulationJob
patch_simulation_job_row payload j = record j {
  status = patch payload.status j.status;
  params = patch_nullable payload.params j.params;
  started_at = patch_nullable payload.started_at j.started_at;
  finished_at = patch_nullable payload.finished_at j.finished_at;
  error = patch_nullable payload.error j.error;
}

-- what the foreign key of the results does when a job goes
unfoldable pub without_simulation_job : String → Database → Database
unfolding without
without_simulation_job id db = record db {
  simulation_jobs = without SimulationJob.id id db.simulation_jobs;
  simulation_results =
      select (λ (r : SimulationResult). not (r.job_id == id)) db.simulation_results;
}

module _ (fw : Framework) where
  unfoldable pub create_simulation_job : Stamp → SimulationJobCreate → Endpoint
  unfolding has
  create_simulation_job stamp payload db =
      let row = new_simulation_job stamp payload in
      commit fw uncaught (simulation_job_violation db row) (Body.simulation_job row)
        (record db { simulation_jobs = db.simulation_jobs ++ row ∷ [] }) db

  unfoldable pub list_simulation_jobs : Option String → Option String → ℤ → ℤ → Endpoint
  unfolding newest_first page
  list_simulation_jobs lobby_id status limit offset db = (
    respond fw (
        Body.simulation_jobs (
          page limit offset (
            newest_first SimulationJob.id fw.precedes SimulationJob.created_at (
              select
                (λ (j : SimulationJob).
                  matches_optional lobby_id j.lobby_id && matches status j.status)
                db.simulation_jobs)))),
    db,
  )

  unfoldable pub get_simulation_job : String → Endpoint
  unfolding get not_found
  get_simulation_job id db =
      show fw "simulation job" Body.simulation_job (get SimulationJob.id id db.simulation_jobs) db

  unfoldable pub patch_simulation_job : String → SimulationJobPatch → Endpoint
  unfolding get replace not_found
  patch_simulation_job id payload db =
      with_row "simulation job" (get SimulationJob.id id db.simulation_jobs)
        (λ (j : SimulationJob).
          commit fw uncaught (no_null "status" payload.status)
            (Body.simulation_job (patch_simulation_job_row payload j))
            (record db {
              simulation_jobs =
                  replace SimulationJob.id id (patch_simulation_job_row payload j)
                    db.simulation_jobs;
            }))
        db

  unfoldable pub delete_simulation_job : String → Endpoint
  unfolding get not_found without_simulation_job
  delete_simulation_job id db =
      with_row "simulation job" (get SimulationJob.id id db.simulation_jobs)
        (λ (j : SimulationJob). commit fw uncaught none Body.deleted (without_simulation_job id db))
        db
