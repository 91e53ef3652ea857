-- ===== src/Measurement/Uploads.antt =====
-- The upload route of measurement/src/app/api/routes.py: the loop over the chunks, and the files after it.
use sonalyze_backend.Prelude.{
  ℕ, zero, suc, ◌+◌, ◌≤◌, ◌<◌, String, ◌≡◌, refl, ap, sym, ◌∙◌, Bool, true, false, ◌&&◌, Option,
  none, some, List, [], ◌∷◌, ◌++◌, length, take, drop, ltb, leb, arith, inl, inr, Bool-cases, ◌==◌,
  if◌then◌else◌, lookup, remove, lookup-insert, lookup-remove, take-drop, append_assoc,
  length-append, eq_refl, eq_iff,
}
use sonalyze_backend.Measurement.Jobs.{
  Job, LocalJobStore, job_of, write, uploaded, http, Received, complete, too_large, chunk_size,
  receive, finish, stored, discarded, upload, tmp_name, or_empty,
}

append_nil : (xs : List ℕ) → xs ++ [] ≡ xs
append_nil [] = refl
append_nil (x ∷ xs) = ap (λ (ys : List ℕ). x ∷ ys) (append_nil xs)

-- With more fuel than bytes, the loop ends with the whole content and its size where that is at most the
-- maximum, and refuses it otherwise.
receive-enough :
    (c fuel max_bytes size : ℕ) (written left : List ℕ)
    → length left < fuel
    → size ≤ max_bytes
    → receive (suc c) fuel max_bytes size written left ≡ (
        if leb (size + length left) max_bytes
        then complete (written ++ left) (size + length left)
        else too_large)
unfolding receive
receive-enough c zero max_bytes size written left enough fits = ground (arith, enough)
receive-enough c (suc fuel) max_bytes size written [] enough fits =
    let n : size + 0 ≡ size = omega arith in
    let small : leb size max_bytes ≡ true = ground (arith, fits) in
    rw (n, append_nil written) (rw small refl)
receive-enough c (suc fuel) max_bytes size written (a ∷ left) enough fits =
    let whole : length (take c left) + length (drop c left) ≡ length left =
      sym (length-append (take c left) (drop c left))
      ∙ ap (λ (xs : List ℕ). length xs) (take-drop c left) in
    let size' : ℕ = size + suc (length (take c left)) in
    elim (Bool-cases (ltb max_bytes size')) [
      | inl over ↦
          let large : leb (size + suc (length left)) max_bytes ≡ false =
            ground (arith, over, whole) in
          rw (over, large) refl
      | inr under ↦
          let small : size' ≤ max_bytes = ground (arith, under) in
          let rest =
            receive-enough c fuel max_bytes size' (written ++ a ∷ take c left) (drop c left)
              (omega (arith, enough, whole)) small in
          let sum : size' + length (drop c left) ≡ size + suc (length left) =
            omega (arith, whole) in
          let text : (written ++ (a ∷ take c left)) ++ drop c left ≡ written ++ (a ∷ left) =
            append_assoc written (a ∷ take c left) (drop c left)
            ∙ ap (λ (xs : List ℕ). written ++ (a ∷ xs)) (take-drop c left) in
          rw under (rest ∙ rw (sum, text) refl)
    ]

job_of-write :
    (id j : String) (change : Job → Job) (store : LocalJobStore)
    → job_of j (write id change store)
      ≡ (if id == j then change (job_of id store) else job_of j store)
unfolding write job_of
job_of-write id j change store =
    ap or_empty (lookup-insert id j (change (or_empty (lookup id store))) store) ∙ branch (id == j)
  where
    branch :
        (b : Bool)
        → or_empty (if b then some (change (or_empty (lookup id store))) else lookup j store)
          ≡ (if b then change (or_empty (lookup id store)) else or_empty (lookup j store))
    branch true = refl
    branch false = refl

job_of-written :
    (id : String) (change : Job → Job) (store : LocalJobStore)
    → job_of id (write id change store) ≡ change (job_of id store)
job_of-written id change store = job_of-write id id change store ∙ rw (eq_refl id) refl

abbrev pub file_of : String → String → LocalJobStore → Option (List ℕ)
file_of id name store = lookup name (job_of id store).uploads

-- What an upload leaves of a file, by whether it fits.
abbrev pub file_after : Bool → String → List ℕ → String → Option (List ℕ) → Option (List ℕ)
file_after fits name content other before =
    if (name == other) && fits
    then some content
    else if tmp_name name == other
    then none
    else before

module _ (id name : String) (content : List ℕ) (max_bytes : ℕ) (store : LocalJobStore) where
  received :
      receive chunk_size (suc (length content)) max_bytes 0 [] content
      ≡ (if leb (length content) max_bytes then complete content (length content) else too_large)
  unfolding chunk_size
  received =
      let zero_left : 0 + length content ≡ length content = omega arith in
      receive-enough 1048575 (suc (length content)) max_bytes 0 [] content (omega arith)
        (omega arith)
      ∙ rw zero_left refl

  outcome : Bool → Received
  outcome fits = if fits then complete content (length content) else too_large

  finished-own :
      (fits : Bool) (other : String)
      → file_of id other (finish id name (outcome fits) store).1
        ≡ file_after fits name content other (file_of id other store)
  unfolding finish outcome stored discarded
  finished-own true other =
      ap (λ (job : Job). lookup other job.uploads) (job_of-written id (stored name content) store)
      ∙ lookup-insert name other content (remove (tmp_name name) (job_of id store).uploads)
      ∙ ground (arith, lookup-remove (tmp_name name) other (job_of id store).uploads)
  finished-own false other =
      ap (λ (job : Job). lookup other job.uploads) (job_of-written id (discarded name) store)
      ∙ lookup-remove (tmp_name name) other (job_of id store).uploads
      ∙ ground arith

  -- what the assignment to a job's uploads leaves of the rest of it
  finished-kept :
      {V : Type 0} (field : Job → V) (j : String) (fits : Bool)
      → field (stored name content (job_of id store)) ≡ field (job_of id store)
      → field (discarded name (job_of id store)) ≡ field (job_of id store)
      → field (job_of j (finish id name (outcome fits) store).1) ≡ field (job_of j store)
  unfolding finish outcome
  finished-kept field j fits accepted refused = go fits
    where
      written :
          (change : Job → Job)
          → field (change (job_of id store)) ≡ field (job_of id store)
          → field (job_of j (write id change store)) ≡ field (job_of j store)
      written change same = elim (Bool-cases (id == j)) [
        | inl hit ↦
            let at_id : id ≡ j = (eq_iff id j).0 hit in
            ap field (job_of-write id j change store)
            ∙ rw hit (same ∙ ap (λ i. field (job_of i store)) at_id)
        | inr miss ↦ ap field (job_of-write id j change store) ∙ rw miss refl
      ]

      go :
          (b : Bool)
          → field (job_of j (finish id name (outcome b) store).1) ≡ field (job_of j store)
      go true = written (stored name content) accepted
      go false = written (discarded name) refused

  answered :
      (fits : Bool)
      → (finish id name (outcome fits) store).0
        ≡ (if fits then uploaded id name (length content) else http 413)
  unfolding finish outcome
  answered true = refl
  answered false = refl

  other_job :
      (j : String)
      → (id == j) ≡ false
      → (fits : Bool) → job_of j (finish id name (outcome fits) store).1 ≡ job_of j store
  unfolding finish outcome
  other_job j miss true = job_of-write id j (stored name content) store ∙ rw miss refl
  other_job j miss false = job_of-write id j (discarded name) store ∙ rw miss refl

  finished :
      (fits : Bool) (j other : String)
      → ((finish id name (outcome fits) store).0
          ≡ (if fits then uploaded id name (length content) else http 413))
        × (file_of j other (finish id name (outcome fits) store).1 ≡ (
            if id == j
            then file_after fits name content other (file_of id other store)
            else file_of j other store))
        × ((job_of j (finish id name (outcome fits) store).1).map ≡ (job_of j store).map)
        × ((job_of j (finish id name (outcome fits) store).1).meta ≡ (job_of j store).meta)
        × ((job_of j (finish id name (outcome fits) store).1).analysis ≡ (job_of j store).analysis)
  finished fits j other = (
    answered fits,
    files,
    finished-kept Job.map j fits (unfold stored in refl) (unfold discarded in refl),
    finished-kept Job.meta j fits (unfold stored in refl) (unfold discarded in refl),
    finished-kept Job.analysis j fits (unfold stored in refl) (unfold discarded in refl),
  )
    where
      files : file_of j other (finish id name (outcome fits) store).1 ≡ (
          if id == j
          then file_after fits name content other (file_of id other store)
          else file_of j other store)
      files = elim (Bool-cases (id == j)) [
        | inl hit ↦
            let at_id : id ≡ j = (eq_iff id j).0 hit in
            rw hit (
              ap (λ i. file_of i other (finish id name (outcome fits) store).1) (sym at_id)
              ∙ finished-own fits other)
        | inr miss ↦ rw miss (ap (λ (job : Job). lookup other job.uploads) (other_job j miss fits))
      ]

  -- An upload with a safe name ends: it is accepted, and stored whole under its name in its job, if and only
  -- if it is at most the maximum, and otherwise refused with 413 and the file of that name kept. Either way
  -- the upload with the name and `.tmp` is gone, and all other uploads of that job, all uploads of other
  -- jobs, and the map, the meta data and the analysis of every job are as they were.
  pub upload-job_of :
      (is_safe : String → Bool) (j other : String)
      → is_safe name ≡ true
      → let fits = leb (length content) max_bytes in
        let (answer, after) = upload is_safe max_bytes id name content store in
        (answer ≡ (if fits then uploaded id name (length content) else http 413))
        × (file_of j other after ≡ (
            if id == j
            then file_after fits name content other (file_of id other store)
            else file_of j other store))
        × ((job_of j after).map ≡ (job_of j store).map)
        × ((job_of j after).meta ≡ (job_of j store).meta)
        × ((job_of j after).analysis ≡ (job_of j store).analysis)
  unfolding upload outcome
  upload-job_of is_safe j other safe =
      rw (safe, received) (finished (leb (length content) max_bytes) j other)
