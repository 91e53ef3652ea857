-- ===== src/Storage/Rows.antt =====
-- What the routers of storage/src/app/routers do to the rows of a table, by SQLAlchemy's session and by
-- `select`. `key` is the primary key of a row.
use sonalyze_backend.Prelude.{
  take, drop, ℕ, zero, suc, String, Bool, true, false, not, Option, none, some, List, [], ◌∷◌, ◌==◌,
  ltb, leb, if◌then◌else◌, select, find,
}
use sonalyze_backend.Json.{ℤ, pos, negsuc}

module _ {A : Type 0} (key : A → String) where
  -- `db.get(Model, id)`
  unfoldable pub get : String → List A → Option A
  get id rows = find (λ r. key r == id) rows

  unfoldable pub has : String → List A → Bool
  has id [] = false
  has id (r ∷ rows) = let rest = has id rows in if key r == id then true else rest

  -- the rows that are left by `db.delete`
  unfoldable pub without : String → List A → List A
  without id rows = select (λ r. not (key r == id)) rows

  -- the rows after an assignment to the attributes of one
  unfoldable pub replace : String → A → List A → List A
  replace id new [] = []
  replace id new (r ∷ rows) =
      let rest = replace id new rows in (if key r == id then new else r) ∷ rest

-- `ORDER BY time DESC`. The order of rows of one time is the database's choice, `precedes`, which may differ
-- from request to request.
module _ {A : Type 0} (key : A → String) (precedes : String → String → Bool) (time : A → ℕ) where
  abbrev pub comes_first : A → A → Bool
  comes_first r q =
      if ltb (time q) (time r)
      then true
      else if ltb (time r) (time q)
      then false
      else precedes (key r) (key q)

  unfoldable pub insert_newest : A → List A → List A
  insert_newest r [] = r ∷ []
  insert_newest r (q ∷ rows) =
      let rest = insert_newest r rows in if comes_first r q then r ∷ q ∷ rows else q ∷ rest

  unfoldable pub newest_first : List A → List A
  unfolding insert_newest
  newest_first [] = []
  newest_first (r ∷ rows) = insert_newest r (newest_first rows)

-- `min(max(limit, 1), 500)`
abbrev pub limit_of : ℤ → ℕ
limit_of (pos zero) = 1
limit_of (pos (suc n)) = if leb (suc n) 500 then suc n else 500
limit_of (negsuc n) = 1

-- `max(offset, 0)`
abbrev pub offset_of : ℤ → ℕ
offset_of (pos n) = n
offset_of (negsuc n) = 0

module _ {A : Type 0} where
  -- `.limit(limit).offset(offset)`, after the two lines that bound them
  unfoldable pub page : ℤ → ℤ → List A → List A
  page limit offset rows = take (limit_of limit) (drop (offset_of offset) rows)

-- A filter that a request may leave out.
abbrev pub matches : Option String → String → Bool
matches none value = true
matches (some wanted) value = value == wanted

abbrev pub matches_optional : Option String → Option String → Bool
matches_optional none value = true
matches_optional (some wanted) none = false
matches_optional (some wanted) (some value) = value == wanted

-- `ON DELETE SET NULL`: a reference, after the row `id` is deleted
abbrev pub forget : String → Option String → Option String
forget id none = none
forget id (some r) = if r == id then none else some r
