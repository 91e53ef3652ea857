-- ===== src/Simulation/Emitters.antt =====
-- The sources and microphones of simulation/src/sonalyze_simulation/payload_adapter.py:
-- `_extract_emitters_from_payload` to `_convert_emitters`, `_default_source` and `_default_microphone`.
use Prim.Native.String.{◌++◌ as ◌<>◌}
use sonalyze_backend.Prelude.{
  ℕ, suc, String, Option, none, some, List, [], ◌∷◌, ◌++◌, if◌then◌else◌,
}
use sonalyze_backend.Json.{pos, negsuc}
use sonalyze_backend.Simulation.Python.{
  Value, null, int, list, dict, Items, nil, cons, Fields, Outcome, ok, ◌>>=◌, Python, entries, get,
  truthy,
}
use sonalyze_backend.Simulation.Points.{Position, position, coerce_position}
use sonalyze_backend.Simulation.Polygon.{Point}
use sonalyze_backend.Simulation.Inside.{
  RoomBounds, width, depth, clamp_height, snap_point_inside_polygon,
}

pub record Emitter (F : Type 0) : Type 0 where
  pub id : String
  pub position_m : Position F

module _ {F : Type 0} where
  -- the entries under one key; a key that is not there has the same none as one that is null
  abbrev pub entries_of : Value F → List (Value F)
  entries_of null = []
  entries_of (list vs) = entries vs
  entries_of value = value ∷ []

  abbrev pub entries_at : Fields F → List String → List (Value F)
  entries_at fields [] = []
  entries_at fields (key ∷ keys) = entries_of (get key fields) ++ entries_at fields keys

  unfoldable pub collect_emitter_entries : Value F → List String → List (Value F)
  collect_emitter_entries (dict fields) keys = entries_at fields keys
  collect_emitter_entries _ keys = []

  unfoldable pub nested_devices : Value F → Value F
  nested_devices (dict fields) = get "devices" fields
  nested_devices _ = null

  -- the entries of all rooms that are dictionaries
  unfoldable pub aggregated : List String → Items F → List (Value F)
  unfolding collect_emitter_entries nested_devices
  aggregated keys nil = []
  aggregated keys (cons (dict room) rooms) =
      collect_emitter_entries (dict room) keys
      ++ collect_emitter_entries (nested_devices (dict room)) keys
      ++ aggregated keys rooms
  aggregated keys (cons _ rooms) = aggregated keys rooms

  abbrev pub aggregated_in : List String → Value F → List (Value F)
  unfolding aggregated
  aggregated_in keys (list rooms) = aggregated keys rooms
  aggregated_in keys _ = []

  -- the first list that is not empty
  abbrev pub or_entries : List (Value F) → List (Value F) → List (Value F)
  or_entries [] others = others
  or_entries (e ∷ es) others = e ∷ es

  unfoldable pub extract_emitters_from_payload : Value F → Fields F → List String → List (Value F)
  unfolding collect_emitter_entries nested_devices aggregated
  extract_emitters_from_payload payload room_model keys =
      or_entries (collect_emitter_entries payload keys) (
        or_entries (collect_emitter_entries (nested_devices payload) keys) (
          or_entries (collect_emitter_entries (dict room_model) keys) (
            or_entries (collect_emitter_entries (nested_devices (dict room_model)) keys)
              (aggregated_in keys (get "rooms" room_model)))))

  -- one turn of the loop of `_convert_emitters`, before those that follow
  abbrev pub keep : String → Option (Position F) → List (Emitter F) → List (Emitter F)
  keep id none later = later
  keep id (some p) later = record { id = id; position_m = p } ∷ later

  -- the default where the list is empty
  abbrev pub or_default : Emitter F → List (Emitter F) → List (Emitter F)
  or_default default [] = default ∷ []
  or_default default (e ∷ es) = e ∷ es

module _ {F : Type 0} (py : Python F) where
  -- `f"{prefix}-{idx}"`
  abbrev pub numbered : String → ℕ → String
  numbered prefix idx = prefix <> "-" <> py.str (int (pos idx))

  abbrev pub emitter_id : String → ℕ → Value F → String
  emitter_id prefix idx (dict fields) =
      if truthy py (get "id" fields) then py.str (get "id" fields) else numbered prefix idx
  emitter_id prefix idx _ = numbered prefix idx

  -- `enumerate(items, start=idx)`
  unfoldable pub convert_emitters : String → ℕ → List (Value F) → Outcome (List (Emitter F))
  unfolding coerce_position
  convert_emitters prefix idx [] = ok []
  convert_emitters prefix idx (entry ∷ rest) =
      let following = convert_emitters prefix (suc idx) rest in
      coerce_position py entry >>= λ coords.
      following >>= λ later. ok (keep (emitter_id prefix idx entry) coords later)

  abbrev pub emitter_at : String → Point F → F → Emitter F
  emitter_at id p z = record { id = id; position_m = position p.x p.y z }

  unfoldable pub default_source : RoomBounds F → List (Point F) → Emitter F
  unfolding width depth clamp_height snap_point_inside_polygon
  default_source b polygon =
      emitter_at "src-default"
        (snap_point_inside_polygon py
          (record {
            x = py.add b.min_x (py.mul (py.decimal (pos 25) (negsuc 1)) (width py b));
            y = py.add b.min_y (py.mul (py.decimal (pos 25) (negsuc 1)) (depth py b));
          })
          polygon b)
        (clamp_height py b (py.decimal (pos 15) (negsuc 0)))

  unfoldable pub default_microphone : RoomBounds F → List (Point F) → Emitter F
  unfolding width depth clamp_height snap_point_inside_polygon
  default_microphone b polygon =
      emitter_at "mic-default"
        (snap_point_inside_polygon py
          (record {
            x = py.sub b.max_x (py.mul (py.decimal (pos 25) (negsuc 1)) (width py b));
            y = py.sub b.max_y (py.mul (py.decimal (pos 25) (negsuc 1)) (depth py b));
          })
          polygon b)
        (clamp_height py b (py.decimal (pos 12) (negsuc 0)))
