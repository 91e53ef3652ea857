-- ===== src/Measurement/Tests.antt =====
-- The job store and the upload route of measurement/src/app on a small store.
use sonalyze_backend.Prelude.{◌≡◌, refl, true, none, [], ◌∷◌}
use sonalyze_backend.Json.{Value}
use sonalyze_backend.Measurement.Jobs.{
  LocalJobStore, view, uploaded, http, create_job, get_job, upload, job_of,
}
use sonalyze_backend.Measurement.Uploads.{file_of, file_after, upload-job_of}

abbrev store : LocalJobStore
store =
    (
      "j",
      record {
        map = none;
        meta = none;
        analysis = none;
        uploads = ("take", 1 ∷ []) ∷ ("take.tmp", 2 ∷ []) ∷ [];
      },
    )
    ∷ []

-- three bytes, of which three are allowed
upload-job_of_example :
    let (answer, after) = upload (λ n. true) 3 "j" "take" (7 ∷ 8 ∷ 9 ∷ []) store in
    (answer ≡ uploaded "j" "take" 3)
    × (file_of "j" "take.tmp" after
        ≡ file_after true "take" (7 ∷ 8 ∷ 9 ∷ []) "take.tmp" (file_of "j" "take.tmp" store))
    × ((job_of "j" after).map ≡ (job_of "j" store).map)
    × ((job_of "j" after).meta ≡ (job_of "j" store).meta)
    × ((job_of "j" after).analysis ≡ (job_of "j" store).analysis)
upload-job_of_example =
    upload-job_of "j" "take" (7 ∷ 8 ∷ 9 ∷ []) 3 store (λ n. true) "j" "take.tmp" refl

-- a job that is not there is answered by 500, and there is one afterwards
get_job-unknown :
    ((get_job (λ names. names) "new" store).0 ≡ http 500)
    × ((get_job (λ names. names) "new" (create_job "new" Value.null Value.null store).1).0
        ≡ view (record {
          job_id = "new";
          map = Value.null;
          meta = Value.null;
          uploads = [];
          results = none;
        }))
unfolding get_job create_job
get_job-unknown = (refl, refl)
