-- ===== src/Simulation/Rooms.antt =====
-- `_convert_room_model`, `_collect_segments` and `_convert_furniture_boxes` of
-- simulation/src/sonalyze_simulation/payload_adapter.py.
use sonalyze_backend.Prelude.{◌||◌, Option, none, some, List, [], ◌∷◌, if◌then◌else◌}
use sonalyze_backend.Simulation.Python.{
  Value, list, dict, Items, nil, cons, Fields, Outcome, ok, ◌>>=◌, Python, get, get_or, min, max,
  whole, half,
}
use sonalyze_backend.Simulation.Numbers.{positive_float}
use sonalyze_backend.Simulation.Points.{Position, position, three_point2d, three_point3d}
use sonalyze_backend.Simulation.Polygon.{Point, Segment}
use sonalyze_backend.Simulation.Inside.{RoomBounds}
use sonalyze_backend.Simulation.Materials.{MaterialSpec}

-- the entry of a box in the list of furniture
pub record Box (F : Type 0) : Type 0 where
  pub id : Value F
  pub min_m : Position F
  pub max_m : Position F

pub record RoomSpec (F : Type 0) : Type 0 where
  pub corners_m : List (Point F)
  pub height_m : F
  pub wall_material : MaterialSpec F
  pub floor_material : MaterialSpec F
  pub ceiling_material : MaterialSpec F

pub record RoomConversion (F : Type 0) : Type 0 where
  pub room_spec : RoomSpec F
  pub bounds : RoomBounds F
  pub furniture : List (Box F)
  pub polygon : List (Point F)
  pub raw_furniture : Items F

module _ {F : Type 0} where
  abbrev pub add_segment : Option (Point F) → Option (Point F) → List (Segment F) → List (Segment F)
  add_segment (some a) (some b) later = (a, b) ∷ later
  add_segment _ _ later = later

  abbrev pub add_box : Option (Box F) → List (Box F) → List (Box F)
  add_box none later = later
  add_box (some b) later = b ∷ later

  -- `min` and `max` of a coordinate over a polygon that is not empty
  abbrev pub fold_points : (F → F → F) → (Point F → F) → F → List (Point F) → F
  fold_points f coordinate acc [] = acc
  fold_points f coordinate acc (p ∷ points) = fold_points f coordinate (f acc (coordinate p)) points

module _ {F : Type 0} (py : Python F) where
  unfoldable pub collect_from : Items F → Outcome (List (Segment F))
  unfolding get_or three_point2d
  collect_from nil = ok []
  collect_from (cons (dict wall) walls) =
      let following = collect_from walls in
      three_point2d py (get "start" wall) >>= λ start. three_point2d py (get "end" wall) >>= λ stop.
      following >>= λ later. ok (add_segment start stop later)
  collect_from (cons _ walls) = collect_from walls

  unfoldable pub collect_segments : Value F → Outcome (List (Segment F))
  unfolding collect_from
  collect_segments (list walls) = collect_from walls
  collect_segments _ = ok []

  -- the box of a piece of furniture, by its position and its three dimensions
  unfoldable pub box_of : F → Value F → Position F → F → F → F → Box F
  box_of room_height id p width depth height = record {
    id = id;
    min_m =
        position (py.sub p.x (half py width)) (py.sub p.y (half py depth))
          (max py (whole py 0) p.z);
    max_m =
        position (py.add p.x (half py width)) (py.add p.y (half py depth))
          (min py room_height (py.add p.z height));
  }

  -- the box of an entry with dimensions and a position, where no dimension is `<= 0`
  unfoldable pub furniture_box :
      F → Value F → Fields F → Option (Position F) → Outcome (Option (Box F))
  unfolding get_or positive_float box_of
  furniture_box room_height id dims none = ok none
  furniture_box room_height id dims (some p) =
      let zero = whole py 0 in
      positive_float py (get "width" dims) zero >>= λ width.
      positive_float py (get "depth" dims) zero >>= λ depth.
      positive_float py (get "height" dims) zero >>= λ height. ok (
        if py.le width zero || py.le depth zero || py.le height zero
        then none
        else some (box_of room_height id p width depth height))

  unfoldable pub furniture_entry : F → Fields F → Value F → Outcome (Option (Box F))
  unfolding get_or three_point3d furniture_box
  furniture_entry room_height entry (dict dims) =
      three_point3d py (get "position" entry) >>= furniture_box room_height (get "id" entry) dims
  furniture_entry room_height entry _ = ok none

  unfoldable pub convert_furniture_boxes : F → Items F → Outcome (List (Box F))
  unfolding get_or furniture_entry
  convert_furniture_boxes room_height nil = ok []
  convert_furniture_boxes room_height (cons (dict entry) items) =
      let following = convert_furniture_boxes room_height items in
      furniture_entry room_height entry (get "dimensions" entry) >>= λ box.
      following >>= λ later. ok (add_box box later)
  convert_furniture_boxes room_height (cons _ items) = convert_furniture_boxes room_height items

  -- the rectangle around the origin, where the walls give no polygon
  unfoldable pub or_rectangle : F → F → List (Point F) → List (Point F)
  or_rectangle width depth [] =
      let half_w = half py width in
      let half_d = half py depth in
      let low_w = py.neg half_w in
      let low_d = py.neg half_d in
      record { x = low_w; y = low_d }
      ∷ record { x = half_w; y = low_d }
      ∷ record { x = half_w; y = half_d }
      ∷ record { x = low_w; y = half_d }
      ∷ []
  or_rectangle width depth (p ∷ points) = p ∷ points

  unfoldable pub bounds_of : F → List (Point F) → RoomBounds F
  bounds_of height [] = record {
    min_x = whole py 0;
    max_x = whole py 0;
    min_y = whole py 0;
    max_y = whole py 0;
    height = height;
  }
  bounds_of height (p ∷ points) = record {
    min_x = fold_points (min py) Point.x p.x points;
    max_x = fold_points (max py) Point.x p.x points;
    min_y = fold_points (min py) Point.y p.y points;
    max_y = fold_points (max py) Point.y p.y points;
    height = height;
  }
