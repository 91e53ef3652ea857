-- ===== src/Measurement/Jobs.antt =====
-- measurement/src/app/storage.py, and the routes create_job, get_job and upload of
-- measurement/src/app/api/routes.py. The directory of a job is a record of its files.
use Prim.Native.String.{◌++◌ as ◌<>◌}
use sonalyze_backend.Prelude.{
  ℕ, zero, suc, ◌+◌, String, Bool, Option, none, some, List, [], ◌++◌, map, length, take, drop,
  is_empty, ltb, if◌then◌else◌, Dict, lookup, insert, remove,
}
use sonalyze_backend.Json.{Value}

-- `map.json`, `job_meta.json`, `results/analysis.json` and the files in `uploads`
pub record Job : Type 0 where
  pub map : Option Value
  pub meta : Option Value
  pub analysis : Option Value
  pub uploads : Dict (List ℕ)

abbrev pub empty_job : Job
empty_job = record { map = none; meta = none; analysis = none; uploads = [] }

-- the directories under `root_dir`, by the id of the job
abbrev pub LocalJobStore : Type 0
LocalJobStore = Dict Job

abbrev pub or_empty : Option Job → Job
or_empty none = empty_job
or_empty (some job) = job

unfoldable pub job_of : String → LocalJobStore → Job
unfolding lookup
job_of id store = or_empty (lookup id store)

-- `ensure_job` makes the directory where it is not there, and an assignment to a file changes it.
unfoldable pub write : String → (Job → Job) → LocalJobStore → LocalJobStore
unfolding job_of insert
write id change store = insert id (change (job_of id store)) store

unfoldable pub ensure_job : String → LocalJobStore → LocalJobStore
unfolding write
ensure_job id store = write id (λ job. job) store

-- The names are in the order of `sorted`.
pub record JobView : Type 0 where
  pub job_id : String
  pub map : Value
  pub meta : Value
  pub uploads : List String
  pub results : Option Value

pub data Answer : Type 0 where
  created : String → Answer
  view : JobView → Answer
  uploaded : String → String → ℕ → Answer
  http : ℕ → Answer

unfoldable pub create_job : String → Value → Value → LocalJobStore → Answer × LocalJobStore
unfolding write
create_job uuid map meta store =
    (created uuid, write uuid (λ job. record job { map = some map; meta = some meta }) store)

-- A file that is not there raises, which is answered by 500.
abbrev pub show_job :
    (List String → List String) → String → Option Value → Option Value → Job → Answer
show_job sorted id (some m) (some meta) job = view (record {
  job_id = id;
  map = m;
  meta = meta;
  uploads = sorted (map (λ (u : String × List ℕ). u.0) job.uploads);
  results = job.analysis;
})
show_job sorted id _ _ job = http 500

unfoldable pub get_job :
    (List String → List String) → String → LocalJobStore → Answer × LocalJobStore
unfolding ensure_job job_of
get_job sorted id store =
    let job = job_of id store in (show_job sorted id job.map job.meta job, ensure_job id store)

-- What the loop over the chunks of an upload comes to.
pub data Received : Type 0 where
  complete : List ℕ → ℕ → Received
  too_large : Received
  starved : Received

-- `content.read(1024 * 1024)`
unfoldable pub chunk_size : ℕ
chunk_size = 1048576

-- the loop, with the size and the content that are written so far, and the bytes that are left
unfoldable pub receive : ℕ → ℕ → ℕ → ℕ → List ℕ → List ℕ → Received
receive at_most zero max_bytes size written left = starved
receive at_most (suc fuel) max_bytes size written left =
    let chunk = take at_most left in
    let size' = size + length chunk in
    let following = receive at_most fuel max_bytes size' (written ++ chunk) (drop at_most left) in
    if is_empty chunk
    then complete written size
    else if ltb max_bytes size'
    then too_large
    else following

-- `path.with_suffix(path.suffix + ".tmp")`
abbrev pub tmp_name : String → String
tmp_name name = name <> ".tmp"

-- `tmp_path.replace(path)`, and `tmp_path.unlink(…)`: the temporary file has taken the place of what had
-- its name.
unfoldable pub stored : String → List ℕ → Job → Job
unfolding insert remove
stored name content job = record job {
  uploads = insert name content (remove (tmp_name name) job.uploads);
}

unfoldable pub discarded : String → Job → Job
unfolding remove
discarded name job = record job { uploads = remove (tmp_name name) job.uploads }

unfoldable pub finish : String → String → Received → LocalJobStore → Answer × LocalJobStore
unfolding write stored discarded
finish id name (complete content size) store =
    (uploaded id name size, write id (stored name content) store)
finish id name too_large store = (http 413, write id (discarded name) store)
finish id name starved store = (http 500, store)

-- `is_safe` is the match of `_SAFE_UPLOAD_RE`.
unfoldable pub upload :
    (String → Bool) → ℕ → String → String → List ℕ → LocalJobStore → Answer × LocalJobStore
unfolding chunk_size receive finish
upload is_safe max_bytes id name content store =
    if is_safe name
    then finish id name (receive chunk_size (suc (length content)) max_bytes 0 [] content) store
    else (http 400, store)
