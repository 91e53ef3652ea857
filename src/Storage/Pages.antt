-- ===== src/Storage/Pages.antt =====
-- The lists of the routers in storage/src/app/routers: their order, which is the database's where times are
-- equal, and the pages that `limit` and `offset` cut from them.
use sonalyze_backend.Prelude.{
  take, drop, ℕ, zero, suc, ◌+◌, ◌*◌, ◌≤◌, String, ◌≡◌, refl, ap, ◌∙◌, Bool, true, List, [], ◌∷◌,
  ◌++◌, length, count, arith,
}
use native.Mathlib.Numerals.{unary_clauses}
use sonalyze_backend.Json.{ℤ, pos, negsuc}
use sonalyze_backend.Storage.Orders.{
  IsNewestFirst, HasDistinctTimes, newest_first-IsNewestFirst, count-newest_first,
  newest_first-distinct,
}
use sonalyze_backend.Storage.Rows.{limit_of, offset_of, page, newest_first}

-- A page is never empty of room and never longer than 500 rows.
limit_of-bounds : (limit : ℤ) → (1 ≤ limit_of limit) × (limit_of limit ≤ 500)
limit_of-bounds (pos zero) = (omega arith, omega arith)
limit_of-bounds (pos (suc n)) = ground arith
limit_of-bounds (negsuc n) = (omega arith, omega arith)

module _ {A : Type 0} where
  length-take : (n : ℕ) (xs : List A) → length (take n xs) ≤ n
  length-take zero xs = omega arith
  length-take (suc n) [] = omega arith
  length-take (suc n) (x ∷ xs) = omega (arith, length-take n xs)

  count-length : (xs : List A) → count (λ x. true) xs ≡ length xs
  count-length [] = refl
  count-length (x ∷ xs) = omega (arith, count-length xs)

  take-add : (m n : ℕ) (xs : List A) → take (m + n) xs ≡ take m xs ++ take n (drop m xs)
  take-add zero n xs = let e : 0 + n ≡ n = omega arith in ap (λ k. take k xs) e
  take-add (suc m) zero [] = simp unary_clauses refl
  take-add (suc m) (suc n) [] = simp unary_clauses refl
  take-add (suc m) n (x ∷ xs) =
      let e : suc m + n ≡ suc (m + n) = omega arith in
      ap (λ k. take k (x ∷ xs)) e ∙ ap (λ (ys : List A). x ∷ ys) (take-add m n xs)

  drop-drop : (m n : ℕ) (xs : List A) → drop n (drop m xs) ≡ drop (m + n) xs
  drop-drop zero n xs = let e : n ≡ 0 + n = omega arith in ap (λ k. drop k xs) e
  drop-drop (suc m) zero [] = simp unary_clauses refl
  drop-drop (suc m) (suc n) [] = simp unary_clauses refl
  drop-drop (suc m) n (x ∷ xs) =
      let e : suc (m + n) ≡ suc m + n = omega arith in
      drop-drop m n xs ∙ ap (λ k. drop k (x ∷ xs)) e

  take-all : (n : ℕ) (xs : List A) → length xs ≤ n → take n xs ≡ xs
  take-all zero [] h = refl
  take-all zero (x ∷ xs) h = ground (arith, h)
  take-all (suc n) [] h = refl
  take-all (suc n) (x ∷ xs) h = ap (λ (ys : List A). x ∷ ys) (take-all n xs (omega (arith, h)))

  -- the pages of `n` requests that list the rows in one order
  pages : ℤ → ℕ → ℕ → List A → List A
  unfolding page
  pages limit start zero rows = []
  pages limit start (suc n) rows =
      page limit (pos start) rows ++ pages limit (start + limit_of limit) n rows

  pages-take :
      (limit : ℤ) (start n : ℕ) (rows : List A)
      → pages limit start n rows ≡ take (n * limit_of limit) (drop start rows)
  unfolding pages page
  pages-take limit start zero rows =
      let e : 0 ≡ 0 * limit_of limit = omega arith in ap (λ k. take k (drop start rows)) e
  pages-take limit start (suc n) rows =
      let step : (suc n) * limit_of limit ≡ limit_of limit + n * limit_of limit = omega arith in
      rw
        (
          pages-take limit (start + limit_of limit) n rows,
          step,
          take-add (limit_of limit) (n * limit_of limit) (drop start rows),
          drop-drop start (limit_of limit) rows,
        )
        refl

module _ {A : Type 0} (key : A → String) (time : A → ℕ) where
  -- the answers to `n` requests, each at the offset where the page before it ends; `ties` is the order of
  -- rows of one time at the request with an offset
  unfoldable pub all_pages : (ℕ → String → String → Bool) → ℤ → ℕ → ℕ → List A → List A
  unfolding page newest_first
  all_pages ties limit start zero rows = []
  all_pages ties limit start (suc n) rows =
      page limit (pos start) (newest_first key (ties start) time rows)
      ++ all_pages ties limit (start + limit_of limit) n rows

  all_pages-pages :
      (ties : ℕ → String → String → Bool) (precedes : String → String → Bool) (limit : ℤ)
      (start n : ℕ) (rows : List A)
      → HasDistinctTimes key time rows
      → all_pages ties limit start n rows
        ≡ pages limit start n (newest_first key precedes time rows)
  unfolding all_pages pages
  all_pages-pages ties precedes limit start zero rows h = refl
  all_pages-pages ties precedes limit start (suc n) rows h =
      rw
        (
          newest_first-distinct key time (ties start) precedes rows h,
          all_pages-pages ties precedes limit (start + limit_of limit) n rows h,
        )
        refl

  -- Where no two rows of a table have the same time, enough successive pages, whatever the limit and however
  -- the database would order rows of one time at each request, are together the rows of the table, newest
  -- first and each as often as the table has it, and no page has more than 500 rows.
  pub all_pages-newest_first :
      (ties : ℕ → String → String → Bool) (limit offset : ℤ) (n : ℕ) (rows : List A) (p : A → Bool)
      → HasDistinctTimes key time rows
      → length rows ≤ n * limit_of limit
      → IsNewestFirst key time (all_pages ties limit 0 n rows)
        × (count p (all_pages ties limit 0 n rows) ≡ count p rows)
        × (length (page limit offset (newest_first key (ties 0) time rows)) ≤ 500)
  unfolding page
  all_pages-newest_first ties limit offset n rows p distinct enough =
      let whole : all_pages ties limit 0 n rows ≡ newest_first key (ties 0) time rows =
        all_pages-pages ties (ties 0) limit 0 n rows distinct
        ∙ pages-take limit 0 n (newest_first key (ties 0) time rows)
        ∙ take-all (n * limit_of limit) (newest_first key (ties 0) time rows) (
            omega (
              arith,
              enough,
              count-newest_first key time (ties 0) (λ r. true) rows,
              count-length rows,
              count-length (newest_first key (ties 0) time rows),
            )) in
      (
        rw whole (newest_first-IsNewestFirst key time (ties 0) rows),
        rw whole (count-newest_first key time (ties 0) p rows),
        omega (
          arith,
          length-take (limit_of limit)
              (drop (offset_of offset) (newest_first key (ties 0) time rows)),
          limit_of-bounds limit,
        ),
      )
