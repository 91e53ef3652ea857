-- ===== src/Simulation/Payload.antt =====
-- `_convert_room_model` and `normalize_simulation_payload` of
-- simulation/src/sonalyze_simulation/payload_adapter.py.
use sonalyze_backend.Prelude.{String, Bool, true, false, some, List, [], ◌∷◌, if◌then◌else◌}
use sonalyze_backend.Json.{ℤ, pos, negsuc}
use sonalyze_backend.Simulation.Python.{
  Value, null, text, list, dict, Items, nil, cons, Fields, end, value_error, Outcome, ok, raised,
  ◌>>=◌, Python, get, get_or, has_key, get_attr, or_else, whole,
}
use sonalyze_backend.Simulation.Numbers.{coerce_bool, coerce_int, coerce_float, positive_float}
use sonalyze_backend.Simulation.Polygon.{build_polygon_from_segments}
use sonalyze_backend.Simulation.Materials.{extract_material_spec}
use sonalyze_backend.Simulation.Emitters.{
  Emitter, extract_emitters_from_payload, convert_emitters, default_source, default_microphone,
  or_default,
}
use sonalyze_backend.Simulation.Rooms.{
  Box, RoomSpec, RoomConversion, collect_segments, convert_furniture_boxes, or_rectangle, bounds_of,
}

-- the dictionary `converted`
pub record Converted (F : Type 0) : Type 0 where
  pub room : RoomSpec F
  pub furniture : List (Box F)
  pub raw_furniture : Items F
  pub sample_rate_hz : ℤ
  pub max_order : ℤ
  pub air_absorption : Bool
  pub rir_duration_s : F
  pub include_rir : Bool
  pub sources : List (Emitter F)
  pub microphones : List (Emitter F)

-- What is returned: the payload itself, or the dictionary that was built.
pub data Normalized (F : Type 0) : Type 0 where
  given : Fields F → Normalized F
  built : Converted F → Normalized F

module _ {F : Type 0} where
  -- a dictionary, or an empty one
  abbrev pub fields_or_none : Value F → Fields F
  fields_or_none (dict fields) = fields
  fields_or_none _ = end

  -- a list, or an empty one
  abbrev pub items_or_none : Value F → Items F
  items_or_none (list vs) = vs
  items_or_none _ = nil

  -- `rooms[0]`, with the two checks before it
  unfoldable pub first_room : Value F → Outcome (Fields F)
  first_room (list (cons (dict room) rooms)) = ok room
  first_room _ = raised value_error

  -- the value under a key of the payload where it is there, and else that of the room model
  unfoldable pub own_or : String → Fields F → Fields F → Value F
  unfolding has_key get_or
  own_or key payload room_model =
      if has_key key payload then get key payload else get key room_model

  -- the payload, where its room is a dictionary
  abbrev pub with_room : Fields F → Value F → Outcome (Normalized F) → Outcome (Normalized F)
  with_room payload (dict room) otherwise = ok (given payload)
  with_room payload _ otherwise = otherwise

module _ {F : Type 0} (py : Python F) where
  unfoldable pub height_value : Fields F → Fields F → Fields F → Value F
  unfolding get_or
  height_value end room room_model = or_else py (get "height" room) (get "height" room_model)
  height_value dims room room_model = get "height" dims

  unfoldable pub convert_room : Fields F → Fields F → Outcome (RoomConversion F)
  unfolding get_or height_value positive_float collect_segments build_polygon_from_segments
      or_rectangle bounds_of extract_material_spec convert_furniture_boxes
  convert_room room_model room =
      let dims = fields_or_none (get "dimensions" room) in
      let four = whole py 4 in
      positive_float py (get "width" dims) four >>= λ width.
      positive_float py (get "depth" dims) four >>= λ depth.
      positive_float py (height_value dims room room_model) (py.decimal (pos 28) (negsuc 0))
      >>= λ height. collect_segments py (get "walls" room) >>= λ segments.
          let polygon = or_rectangle py width depth (build_polygon_from_segments py segments) in
          let materials =
            or_else py (get "materials" room_model)
              (or_else py (get "materials" room) (dict end)) in
          get_attr "wall" materials >>= λ wall. extract_material_spec py wall >>= λ wall_material.
          get_attr "floor" materials >>= λ floor.
          extract_material_spec py floor >>= λ floor_material.
          get_attr "ceiling" materials >>= λ ceiling.
          extract_material_spec py ceiling >>= λ ceiling_material.
          let raw = items_or_none (get_or "furniture" (list nil) room) in
          convert_furniture_boxes py height raw >>= λ furniture. ok (record {
            room_spec = record {
              corners_m = polygon;
              height_m = height;
              wall_material = wall_material;
              floor_material = floor_material;
              ceiling_material = ceiling_material;
            };
            bounds = bounds_of py height polygon;
            furniture = furniture;
            polygon = polygon;
            raw_furniture = raw;
          })

  unfoldable pub convert_room_model : Fields F → Outcome (RoomConversion F)
  unfolding get_or first_room convert_room
  convert_room_model room_model = first_room (get "rooms" room_model) >>= convert_room room_model

  unfoldable pub ensure_object : Value F → Outcome (Fields F)
  ensure_object (dict fields) = ok fields
  ensure_object (text s) = elim (py.loads s) [
    | some (dict fields) ↦ ok fields
    | _ ↦ raised value_error
  ]
  ensure_object _ = raised value_error

  -- the payload itself where it holds the rooms
  abbrev pub or_payload : Fields F → Value F → Value F → Outcome (Fields F)
  unfolding ensure_object
  or_payload payload null (list rooms) = ok payload
  or_payload payload null _ = raised value_error
  or_payload payload model rooms = ensure_object model

  unfoldable pub extract_room_model : Fields F → Outcome (Fields F)
  unfolding get_or ensure_object
  extract_room_model payload =
      or_payload payload (or_else py (get "room_model" payload) (get "roomModel" payload))
        (get "rooms" payload)

  -- `normalize_simulation_payload` from its second half, on the model and the geometry
  unfoldable pub convert_payload : Fields F → Fields F → RoomConversion F → Outcome (Converted F)
  unfolding get_or own_or coerce_int coerce_bool coerce_float extract_emitters_from_payload
      convert_emitters default_source default_microphone
  convert_payload payload model geometry =
      let either : String → Value F = λ key. or_else py (get key payload) (get key model) in
      coerce_int py (either "sample_rate_hz") (pos 16000) (pos 1) >>= λ sample_rate_hz.
      coerce_int py (either "max_order") (pos 12) (pos 0) >>= λ max_order.
      coerce_float py (either "rir_duration_s") (whole py 2) (py.decimal (pos 1) (negsuc 1))
      >>= λ rir_duration_s.
          convert_emitters py "src" 1 (
            extract_emitters_from_payload (dict payload) model
              ("sources" ∷ "loudspeakers" ∷ "speakers" ∷ []))
          >>= λ sources.
              convert_emitters py "mic" 1 (
                extract_emitters_from_payload (dict payload) model
                  ("microphones" ∷ "mics" ∷ "receivers" ∷ "microphone" ∷ []))
              >>= λ microphones. ok (record {
                room = geometry.room_spec;
                furniture = geometry.furniture;
                raw_furniture = geometry.raw_furniture;
                sample_rate_hz = sample_rate_hz;
                max_order = max_order;
                air_absorption = coerce_bool py (own_or "air_absorption" payload model) true;
                rir_duration_s = rir_duration_s;
                include_rir = coerce_bool py (own_or "include_rir" payload model) false;
                sources = or_default (default_source py geometry.bounds geometry.polygon) sources;
                microphones =
                    or_default (default_microphone py geometry.bounds geometry.polygon) microphones;
              })

  unfoldable pub build : Fields F → Outcome (Normalized F)
  unfolding extract_room_model convert_room_model convert_payload
  build payload = extract_room_model payload >>= λ model. convert_room_model model >>= λ geometry.
      convert_payload payload model geometry >>= λ converted. ok (built converted)

  unfoldable pub normalize_simulation_payload : Value F → Outcome (Normalized F)
  unfolding get_or build
  normalize_simulation_payload (dict payload) =
      with_room payload (get "room" payload) (build payload)
  normalize_simulation_payload _ = raised value_error
