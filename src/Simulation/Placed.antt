-- ===== src/Simulation/Placed.antt =====
-- Where `_snap_point_inside_polygon` puts a point, and with it the default source and microphone
-- (simulation/src/sonalyze_simulation/payload_adapter.py).
use sonalyze_backend.Prelude.{◌≡◌, true, ◌&&◌, some, List, [], ◌∷◌, inl, inr, Bool-cases}
use sonalyze_backend.Json.{pos, negsuc}
use sonalyze_backend.Simulation.Python.{Python}
use sonalyze_backend.Simulation.Polygon.{Point}
use sonalyze_backend.Simulation.Inside.{
  RoomBounds, point_in_polygon, polygon_centroid, pull, snap_to, fractions,
  snap_point_inside_polygon,
}
use sonalyze_backend.Simulation.Emitters.{Emitter, default_source, default_microphone}

-- the place of an emitter on the floor
abbrev pub floor_point : {F : Type 0} → Emitter F → Point F
floor_point e = record { x = e.position_m.x; y = e.position_m.y }

module _ {F : Type 0} (py : Python F) (polygon : List (Point F)) where
  pull-inside :
      (centroid : Point F) (dx dy : F) (rest : List F)
      → point_in_polygon py centroid polygon ≡ true
      → point_in_polygon py (pull py centroid dx dy polygon rest) polygon ≡ true
  unfolding pull
  pull-inside centroid dx dy [] inside = inside
  pull-inside centroid dx dy (fraction ∷ rest) inside =
      let test : Point F = record {
        x = py.add centroid.x (py.mul dx fraction);
        y = py.add centroid.y (py.mul dy fraction);
      } in
      elim (Bool-cases (point_in_polygon py test polygon)) [
        | inl e ↦ rw e e
        | inr e ↦ rw e (pull-inside centroid dx dy rest inside)
      ]

  snap_to-inside :
      (candidate : Point F) (b : RoomBounds F) (centroid : Point F)
      → point_in_polygon py centroid polygon ≡ true
      → point_in_polygon py (snap_to py candidate polygon b (some centroid)) polygon ≡ true
  unfolding snap_to
  snap_to-inside candidate b centroid inside =
      let dx = py.sub candidate.x centroid.x in
      let dy = py.sub candidate.y centroid.y in
      let tiny = py.decimal (pos 1) (negsuc 5) in
      rw inside (elim (Bool-cases (py.lt (py.abs dx) tiny && py.lt (py.abs dy) tiny)) [
        | inl e ↦ rw e inside
        | inr e ↦ rw e (pull-inside centroid dx dy (fractions py) inside)
      ])

  snap-inside :
      (candidate : Point F) (b : RoomBounds F) (centroid : Point F)
      → polygon_centroid py polygon ≡ some centroid
      → point_in_polygon py centroid polygon ≡ true
      → point_in_polygon py (snap_point_inside_polygon py candidate polygon b) polygon ≡ true
  unfolding snap_point_inside_polygon
  snap-inside candidate b centroid is_centroid inside =
      elim (Bool-cases (point_in_polygon py candidate polygon)) [
        | inl e ↦ rw e e
        | inr e ↦ rw (e, is_centroid) (snap_to-inside candidate b centroid inside)
      ]

  -- In a room whose centroid is inside its polygon, the default source and the default microphone stand
  -- inside it.
  pub default-inside :
      (b : RoomBounds F) (centroid : Point F)
      → polygon_centroid py polygon ≡ some centroid
      → point_in_polygon py centroid polygon ≡ true
      → (point_in_polygon py (floor_point (default_source py b polygon)) polygon ≡ true)
        × (point_in_polygon py (floor_point (default_microphone py b polygon)) polygon ≡ true)
  unfolding default_source default_microphone
  default-inside b centroid is_centroid inside =
      (snap-inside _ b centroid is_centroid inside, snap-inside _ b centroid is_centroid inside)
