-- ===== src/Simulation/Polygon.antt =====
-- `_points_close` and `_build_polygon_from_segments` of
-- simulation/src/sonalyze_simulation/payload_adapter.py: the polygon that wall segments chain up to.
use sonalyze_backend.Prelude.{
  ℕ, zero, suc, Bool, ◌&&◌, Option, none, some, List, [], ◌∷◌, length, ltb, if◌then◌else◌,
}
use sonalyze_backend.Json.{pos, negsuc}
use sonalyze_backend.Simulation.Python.{Python}

pub record Point (F : Type 0) : Type 0 where
  pub x : F
  pub y : F

abbrev pub Segment : Type 0 → Type 0
Segment F = Point F × Point F

-- `polygon[-1]`, for a list that is not empty
abbrev pub last : {A : Type 0} → A → List A → A
last a [] = a
last a (b ∷ bs) = last b bs

-- `polygon.pop()`
abbrev pub but_last : {A : Type 0} → A → List A → List A
but_last a [] = []
but_last a (b ∷ bs) = a ∷ but_last b bs

module _ {F : Type 0} (py : Python F) where
  unfoldable pub points_close : Point F → Point F → Bool
  points_close a b =
      py.le (py.abs (py.sub a.x b.x)) (py.decimal (pos 1) (negsuc 2))
      && py.le (py.abs (py.sub a.y b.y)) (py.decimal (pos 1) (negsuc 2))

  -- the first unused segment that touches `current`: its other end, and the segments that are left
  unfoldable pub find_next : Point F → List (Segment F) → Option (Point F × List (Segment F))
  unfolding points_close
  find_next current [] = none
  find_next current ((start, end) ∷ unused) =
      let later = find_next current unused in
      if points_close start current
      then some (end, unused)
      else if points_close end current
      then some (start, unused)
      else elim later [ none ↦ none | some (p, left) ↦ some (p, (start, end) ∷ left) ]

  -- the `while` loop: the points it appends, and the segments that it leaves unused
  unfoldable pub chain : ℕ → Point F → List (Segment F) → List (Point F) × List (Segment F)
  unfolding find_next
  chain zero current unused = ([], unused)
  chain (suc fuel) current unused = elim (find_next current unused) [
    | none ↦ ([], unused)
    | some (p, left) ↦ let (points, rest) = chain fuel p left in (p ∷ points, rest)
  ]

  -- the polygon without its last point, where that closes it
  unfoldable pub without_closing : List (Point F) → List (Point F)
  unfolding points_close
  without_closing [] = []
  without_closing (p ∷ points) =
      if ltb 2 (length (p ∷ points)) && points_close p (last p points)
      then but_last p points
      else p ∷ points

  -- the points that are not close to the one kept before them
  unfoldable pub clean_after : Point F → List (Point F) → List (Point F)
  unfolding points_close
  clean_after before [] = []
  clean_after before (p ∷ points) =
      let skipped = clean_after before points in
      let kept = clean_after p points in if points_close before p then skipped else p ∷ kept

  unfoldable pub clean : List (Point F) → List (Point F)
  unfolding clean_after
  clean [] = []
  clean (p ∷ points) = p ∷ clean_after p points

  unfoldable pub build_polygon_from_segments : List (Segment F) → List (Point F)
  unfolding chain without_closing clean
  build_polygon_from_segments [] = []
  build_polygon_from_segments ((start, end) ∷ unused) =
      let cleaned = clean (without_closing (start ∷ end ∷ (chain (length unused) end unused).0)) in
      if ltb (length cleaned) 3 then [] else cleaned
