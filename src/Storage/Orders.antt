-- ===== src/Storage/Orders.antt =====
-- The order of the lists of the storage service: `ORDER BY created_at DESC`, with the database's choice among
-- rows of one time (storage/src/app/routers).
use sonalyze_backend.Prelude.{
  ℕ, ◌≤◌, String, ◌≡◌, ◌≢◌, refl, ap, ◌∙◌, Bool, List, [], ◌∷◌, count, arith, inl, inr, Bool-cases,
  All,
}
use sonalyze_backend.Storage.Keys.{All-imp}
use sonalyze_backend.Storage.Rows.{comes_first, insert_newest, newest_first}

module _ {A : Type 0} (key : A → String) (time : A → ℕ) where
  -- No row is older than the row after it.
  abbrev pub IsNewestFirst : List A → Type 0
  IsNewestFirst [] = Unit
  IsNewestFirst (r ∷ rows) = All (λ q. time q ≤ time r) rows × IsNewestFirst rows

  -- No two rows have the same time.
  abbrev pub HasDistinctTimes : List A → Type 0
  HasDistinctTimes [] = Unit
  HasDistinctTimes (r ∷ rows) = All (λ q. time q ≢ time r) rows × HasDistinctTimes rows

  module _ (precedes : String → String → Bool) where
    insert_newest-All :
        (P : A → Type 0) (r : A) (rows : List A)
        → P r
        → All P rows
        → All P (insert_newest key precedes time r rows)
    unfolding insert_newest
    insert_newest-All P r [] h hs = (h, tt)
    insert_newest-All P r (q ∷ rows) h hs = elim (Bool-cases (comes_first key precedes time r q)) [
      | inl e ↦ rw e (h, hs)
      | inr e ↦ rw e (hs.0, insert_newest-All P r rows h hs.1)
    ]

    newest_first-All :
        (P : A → Type 0) (rows : List A) → All P rows → All P (newest_first key precedes time rows)
    unfolding newest_first
    newest_first-All P [] h = tt
    newest_first-All P (r ∷ rows) h =
        insert_newest-All P r (newest_first key precedes time rows) h.0
          (newest_first-All P rows h.1)

    insert_newest-IsNewestFirst :
        (r : A) (rows : List A)
        → IsNewestFirst rows
        → IsNewestFirst (insert_newest key precedes time r rows)
    unfolding insert_newest
    insert_newest-IsNewestFirst r [] h = (tt, tt)
    insert_newest-IsNewestFirst r (q ∷ rows) h =
        elim (Bool-cases (comes_first key precedes time r q)) [
          | inl e ↦
              let newer : time q ≤ time r = ground (arith, e) in
              rw e ((newer, All-imp _ _ rows (λ a o. omega (arith, o, newer)) h.0), h)
          | inr e ↦
              let older : time r ≤ time q = ground (arith, e) in
              rw e (
                insert_newest-All (λ a. time a ≤ time q) r rows older h.0,
                insert_newest-IsNewestFirst r rows h.1,
              )
        ]

    pub newest_first-IsNewestFirst :
        (rows : List A) → IsNewestFirst (newest_first key precedes time rows)
    unfolding newest_first
    newest_first-IsNewestFirst [] = tt
    newest_first-IsNewestFirst (r ∷ rows) =
        insert_newest-IsNewestFirst r (newest_first key precedes time rows)
          (newest_first-IsNewestFirst rows)

    count-insert_newest :
        (p : A → Bool) (r : A) (rows : List A)
        → count p (insert_newest key precedes time r rows) ≡ count p (r ∷ rows)
    unfolding insert_newest
    count-insert_newest p r [] = refl
    count-insert_newest p r (q ∷ rows) = elim (Bool-cases (comes_first key precedes time r q)) [
      | inl e ↦ rw e refl
      | inr e ↦ rw e (ground (arith, count-insert_newest p r rows))
    ]

    pub count-newest_first :
        (p : A → Bool) (rows : List A)
        → count p (newest_first key precedes time rows) ≡ count p rows
    unfolding newest_first
    count-newest_first p [] = refl
    count-newest_first p (r ∷ rows) = ground (
      arith,
      count-insert_newest p r (newest_first key precedes time rows),
      count-newest_first p rows,
    )

  -- Rows of distinct times have one order, whatever the database would do with others.
  module _ (s t : String → String → Bool) where
    comes_first-distinct :
        (r q : A) → time q ≢ time r → comes_first key s time r q ≡ comes_first key t time r q
    comes_first-distinct r q ne = ground arith

    insert_newest-distinct :
        (r : A) (rows : List A)
        → All (λ q. time q ≢ time r) rows
        → insert_newest key s time r rows ≡ insert_newest key t time r rows
    unfolding insert_newest
    insert_newest-distinct r [] h = refl
    insert_newest-distinct r (q ∷ rows) h =
        rw (comes_first-distinct r q h.0, insert_newest-distinct r rows h.1) refl

    pub newest_first-distinct :
        (rows : List A)
        → HasDistinctTimes rows
        → newest_first key s time rows ≡ newest_first key t time rows
    unfolding newest_first
    newest_first-distinct [] h = refl
    newest_first-distinct (r ∷ rows) h =
        ap (insert_newest key s time r) (newest_first-distinct rows h.1)
        ∙ insert_newest-distinct r (newest_first key t time rows)
            (newest_first-All t (λ q. time q ≢ time r) rows h.0)
