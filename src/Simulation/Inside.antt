-- ===== src/Simulation/Inside.antt =====
-- The functions `_point_in_polygon`, `_polygon_centroid`, `_clamp_inside_bounds` and
-- `_snap_point_inside_polygon`, and the class `_RoomBounds`, of
-- simulation/src/sonalyze_simulation/payload_adapter.py.
use sonalyze_backend.Prelude.{
  Bool, true, false, not, ◌&&◌, Option, none, some, List, [], ◌∷◌, length, map, if◌then◌else◌,
}
use sonalyze_backend.Json.{pos, negsuc}
use sonalyze_backend.Simulation.Python.{Python, min, max, whole, half}
use sonalyze_backend.Simulation.Polygon.{Point}

pub record RoomBounds (F : Type 0) : Type 0 where
  pub min_x : F
  pub max_x : F
  pub min_y : F
  pub max_y : F
  pub height : F

-- `!=` on truth values
abbrev pub differ : Bool → Bool → Bool
differ true b = not b
differ false b = b

-- each point with the one after it, the last with the first
abbrev pub edges_to : {A : Type 0} → A → A → List A → List (A × A)
edges_to first p [] = (p, first) ∷ []
edges_to first p (q ∷ points) = (p, q) ∷ edges_to first q points

abbrev pub edges : {A : Type 0} → List A → List (A × A)
edges [] = []
edges (p ∷ points) = edges_to p p points

module _ {F : Type 0} (py : Python F) where
  unfoldable pub width : RoomBounds F → F
  width b = max py (py.sub b.max_x b.min_x) (py.decimal (pos 1) (negsuc 1))

  unfoldable pub depth : RoomBounds F → F
  depth b = max py (py.sub b.max_y b.min_y) (py.decimal (pos 1) (negsuc 1))

  unfoldable pub clamp_height : RoomBounds F → F → F
  clamp_height b preferred =
      let capped =
        min py (py.sub b.height (py.decimal (pos 5) (negsuc 1)))
          (max py preferred (py.decimal (pos 5) (negsuc 1))) in
      if py.le capped (whole py 0)
      then max py (py.mul b.height (py.decimal (pos 5) (negsuc 0))) (py.decimal (pos 1) (negsuc 0))
      else capped

  -- whether the ray from the point crosses an edge, which turns `inside` round
  unfoldable pub crosses : Point F → Point F × Point F → Bool
  crosses p (a, b) =
      (differ (py.lt p.y a.y) (py.lt p.y b.y) && not (py.is_zero (py.sub b.y a.y)))
      && py.lt p.x (py.add (py.div (py.mul (py.sub b.x a.x) (py.sub p.y a.y)) (py.sub b.y a.y)) a.x)

  unfoldable pub crossings : Point F → Bool → List (Point F × Point F) → Bool
  unfolding crosses
  crossings p inside [] = inside
  crossings p inside (e ∷ es) = crossings p (differ (crosses p e) inside) es

  unfoldable pub point_in_polygon : Point F → List (Point F) → Bool
  unfolding crossings
  point_in_polygon p polygon = crossings p false (edges polygon)

  -- the sums of the loop in `_polygon_centroid`: the area and the two moments
  unfoldable pub moments : F × F × F → List (Point F × Point F) → F × F × F
  moments acc [] = acc
  moments (area, cx, cy) ((a, b) ∷ es) =
      let cross = py.sub (py.mul a.x b.y) (py.mul b.x a.y) in
      moments
        (
          py.add area cross,
          py.add cx (py.mul (py.add a.x b.x) cross),
          py.add cy (py.mul (py.add a.y b.y) cross),
        )
        es

  abbrev sum : F → List F → F
  sum acc [] = acc
  sum acc (a ∷ as') = sum (py.add acc a) as'

  unfoldable pub polygon_centroid : List (Point F) → Option (Point F)
  unfolding moments
  polygon_centroid [] = none
  polygon_centroid (p ∷ points) =
      let polygon : List (Point F) = p ∷ points in
      let n = whole py (length polygon) in
      let (area_acc, cx_acc, cy_acc) =
        moments (whole py 0, whole py 0, whole py 0) (edges polygon) in
      let area = py.mul area_acc (py.decimal (pos 5) (negsuc 0)) in
      if py.lt (py.abs area) (py.decimal (pos 1) (negsuc 8))
      then some (record {
        x = py.div (sum (whole py 0) (map Point.x polygon)) n;
        y = py.div (sum (whole py 0) (map Point.y polygon)) n;
      })
      else some (record {
        x = py.div cx_acc (py.mul (whole py 6) area);
        y = py.div cy_acc (py.mul (whole py 6) area);
      })

  unfoldable pub clamp_inside_bounds : F → F → F → F
  clamp_inside_bounds value minimum maximum =
      let span = py.sub maximum minimum in
      let margin =
        max py (py.mul span (py.decimal (pos 1) (negsuc 1))) (py.decimal (pos 1) (negsuc 1)) in
      let lower = py.add minimum margin in
      let upper = py.sub maximum margin in
      if py.le maximum minimum
      then minimum
      else if py.le upper lower
      then half py (py.add minimum maximum)
      else min py (max py value lower) upper

  abbrev pub fractions : List F
  fractions =
      py.decimal (pos 1) (pos 0)
      ∷ py.decimal (pos 75) (negsuc 1)
      ∷ py.decimal (pos 5) (negsuc 0)
      ∷ py.decimal (pos 25) (negsuc 1)
      ∷ py.decimal (pos 1) (negsuc 0)
      ∷ py.decimal (pos 0) (pos 0)
      ∷ []

  -- the loop over the fractions, and the centroid where none of them fits
  unfoldable pub pull : Point F → F → F → List (Point F) → List F → Point F
  unfolding point_in_polygon
  pull centroid dx dy polygon [] = centroid
  pull centroid dx dy polygon (fraction ∷ rest) =
      let later = pull centroid dx dy polygon rest in
      let test : Point F = record {
        x = py.add centroid.x (py.mul dx fraction);
        y = py.add centroid.y (py.mul dy fraction);
      } in
      if point_in_polygon test polygon then test else later

  abbrev pub clamp_into : RoomBounds F → Point F → Point F
  unfolding clamp_inside_bounds
  clamp_into b p = record {
    x = clamp_inside_bounds p.x b.min_x b.max_x;
    y = clamp_inside_bounds p.y b.min_y b.max_y;
  }

  -- a point that is outside, by the centroid of the polygon
  unfoldable pub snap_to : Point F → List (Point F) → RoomBounds F → Option (Point F) → Point F
  unfolding point_in_polygon pull clamp_inside_bounds
  snap_to candidate polygon b none = clamp_into b candidate
  snap_to candidate polygon b (some centroid) =
      let dx = py.sub candidate.x centroid.x in
      let dy = py.sub candidate.y centroid.y in
      let tiny = py.decimal (pos 1) (negsuc 5) in
      if point_in_polygon centroid polygon
      then (if py.lt (py.abs dx) tiny && py.lt (py.abs dy) tiny
          then centroid
          else pull centroid dx dy polygon fractions)
      else clamp_into b candidate

  unfoldable pub snap_point_inside_polygon : Point F → List (Point F) → RoomBounds F → Point F
  unfolding point_in_polygon polygon_centroid snap_to
  snap_point_inside_polygon candidate polygon b =
      if point_in_polygon candidate polygon
      then candidate
      else snap_to candidate polygon b (polygon_centroid polygon)
