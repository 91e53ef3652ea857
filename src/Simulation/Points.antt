-- ===== src/Simulation/Points.antt =====
-- `_three_point2d`, `_three_point3d` and `_coerce_position` of
-- simulation/src/sonalyze_simulation/payload_adapter.py. A value that comes from JSON is no tuple.
use sonalyze_backend.Prelude.{
  String, Bool, not, ◌&&◌, ◌||◌, Option, none, some, ◌==◌, if◌then◌else◌,
}
use sonalyze_backend.Json.{pos, negsuc}
use sonalyze_backend.Simulation.Python.{
  Value, null, bool, int, float, text, list, dict, Items, nil, cons, Fields, end, field, Outcome,
  ok, ◌>>=◌, Python, has_key, get, get_or, is_null, or_else, float_of, whole,
}
use sonalyze_backend.Simulation.Numbers.{float_or_none}
use sonalyze_backend.Simulation.Polygon.{Point}

pub record Position (F : Type 0) : Type 0 where
  pub x : F
  pub y : F
  pub z : F

module _ {F : Type 0} where
  abbrev pub position : F → F → F → Position F
  position x y z = record { x = x; y = y; z = z }

  abbrev pub found : Position F → Outcome (Option (Position F))
  found p = ok (some p)

module _ {F : Type 0} (py : Python F) where
  abbrev pub zero_float : Value F
  zero_float = float (whole py 0)

  -- the three numbers, of which the first that is none raises
  unfoldable pub three : Value F → Value F → Value F → Outcome (Position F)
  three a b c =
      float_of py a >>= λ x. float_of py b >>= λ y. float_of py c >>= λ z. ok (position x y z)

  unfoldable pub three_point2d : Value F → Outcome (Option (Point F))
  unfolding get_or
  three_point2d (dict fields) =
      let point = float_of py (get_or "x" zero_float fields) >>= λ x.
      float_of py (get_or "z" (get_or "y" zero_float fields) fields) >>= λ y.
      ok (some (record { x = x; y = y })) in
      if is_null (get "x" fields) then ok none else point
  three_point2d (list (cons a (cons b rest))) =
      float_of py a >>= λ x. float_of py b >>= λ y. ok (some (record { x = x; y = y }))
  three_point2d _ = ok none

  -- a position that is written out in a dictionary
  abbrev pub point3d_fields : Fields F → Outcome (Option (Position F))
  unfolding get_or
  point3d_fields fields =
      let point = float_of py (get_or "x" zero_float fields) >>= λ x.
      float_of py (get_or "z" (get_or "y" zero_float fields) fields) >>= λ horizontal_y.
      float_of py (get_or "y" zero_float fields) >>= λ vertical.
      found (position x horizontal_y vertical) in
      if is_null (get "x" fields) then ok none else point

  abbrev pub point3d_items : Items F → Outcome (Option (Position F))
  unfolding three
  point3d_items (cons a (cons b (cons c rest))) = three a b c >>= found
  point3d_items _ = ok none

  -- `point3d_under key fields` follows `fields[key]`, where the key is there.
  unfoldable mutual
    pub three_point3d : Value F → Outcome (Option (Position F))
    three_point3d (dict fields) = elim (point3d_under "position" fields) [
      | none ↦ point3d_fields fields
      | some r ↦ r
    ]
    three_point3d (list vs) = point3d_items vs
    three_point3d null = ok none
    three_point3d (bool b) = ok none
    three_point3d (int n) = ok none
    three_point3d (float x) = ok none
    three_point3d (text s) = ok none

    pub point3d_under : String → Fields F → Option (Outcome (Option (Position F)))
    point3d_under key end = none
    point3d_under key (field k v rest) =
        let here = three_point3d v in
        let later = point3d_under key rest in if k == key then some here else later

  abbrev is_cartesian : String → Bool
  is_cartesian system = system == "xyz" || system == "pyroom" || system == "cartesian"

  -- `str(value.get("coordinate_system") or value.get("coordinateSystem") or "").lower()`
  abbrev coordinate_system : Fields F → String
  coordinate_system fields = py.lower (
      py.str (
        or_else py (get "coordinate_system" fields)
          (or_else py (get "coordinateSystem" fields) (text ""))))

  -- the coordinates in the order of the keys, where all three are numbers
  unfoldable pub cartesian : Fields F → Outcome (Option (Position F))
  unfolding float_or_none get_or
  cartesian fields = float_or_none py (get "x" fields) >>= λ x.
      float_or_none py (get "y" fields) >>= λ y. float_or_none py (get "z" fields) >>= λ z.
      ok (elim x [
        | none ↦ none
        | some a ↦ elim y [
          | none ↦ none
          | some b ↦ elim z [ none ↦ none | some c ↦ some (position a b c) ]
        ]
      ])

  -- the coordinates of a client, whose `y` points up
  unfoldable pub upright : Fields F → Outcome (Option (Position F))
  unfolding get_or three
  upright fields =
      let one = float (whole py 1) in
      three (get_or "x" zero_float fields) (get_or "z" (get_or "y" zero_float fields) fields)
        (get_or "y" (get_or "height" one fields) fields)
      >>= found

  abbrev pub has_xyz : Fields F → Bool
  has_xyz fields = has_key "x" fields && has_key "y" fields && has_key "z" fields

  -- the rest of `_coerce_position` for a dictionary without the two keys
  unfoldable pub coordinates : Fields F → Outcome (Option (Position F))
  unfolding has_key get_or three cartesian upright
  coordinates fields =
      let plain =
        if not (is_null (get "x" fields))
          && (not (is_null (get "z" fields)) || not (is_null (get "y" fields)))
        then upright fields
        else if has_xyz fields
        then three (get "x" fields) (get "y" fields) (get "z" fields) >>= found
        else ok none in
      if is_cartesian (coordinate_system fields)
      then (cartesian fields >>= λ maybe. elim maybe [ none ↦ plain | some p ↦ ok (some p) ])
      else plain

  abbrev pub coerce_items : Items F → Outcome (Option (Position F))
  unfolding three
  coerce_items (cons a (cons b (cons c rest))) = three a b c >>= found
  coerce_items (cons a (cons b nil)) = three a b (float (py.decimal (pos 12) (negsuc 0))) >>= found
  coerce_items _ = ok none

  unfoldable mutual
    unfolding coordinates

    pub coerce_position : Value F → Outcome (Option (Position F))
    coerce_position (dict fields) = elim (position_under "position_m" fields) [
      | some r ↦ r
      | none ↦ elim (position_under "position" fields) [ some r ↦ r | none ↦ coordinates fields ]
    ]
    coerce_position (list vs) = coerce_items vs
    coerce_position null = ok none
    coerce_position (bool b) = ok none
    coerce_position (int n) = ok none
    coerce_position (float x) = ok none
    coerce_position (text s) = ok none

    pub position_under : String → Fields F → Option (Outcome (Option (Position F)))
    position_under key end = none
    position_under key (field k v rest) =
        let here = coerce_position v in
        let later = position_under key rest in if k == key then some here else later
