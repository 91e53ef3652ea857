-- ===== src/Simulation/Tests.antt =====
-- The payload adapter of the simulation service on small payloads. The floats here are numbers of
-- thousandths, with a sign.
use sonalyze_backend.Prelude.{
  ℕ, zero, suc, ◌+◌, ◌-◌, ◌*◌, ◌/◌, ◌^◌, ◌≡◌, refl, Bool, true, false, not, none, List, [], ◌∷◌,
  length, ltb, nat_eq, arith, if◌then◌else◌,
}
use sonalyze_backend.Json.{ℤ, pos, negsuc}
use sonalyze_backend.Simulation.Python.{
  Value, text, list, dict, nil, cons, end, field, ok, raised, value_error, Python,
}
use sonalyze_backend.Simulation.Numbers.{int_lt}
use sonalyze_backend.Simulation.Polygon.{
  Point, Segment, last, find_next, chain, build_polygon_from_segments,
}
use sonalyze_backend.Simulation.Inside.{differ, RoomBounds, point_in_polygon, polygon_centroid}
use sonalyze_backend.Simulation.Materials.{MaterialSpec}
use sonalyze_backend.Simulation.Emitters.{default_source, default_microphone}
use sonalyze_backend.Simulation.Payload.{Converted, normalize_simulation_payload}
use sonalyze_backend.Simulation.Chain.{chain-enough}
use sonalyze_backend.Simulation.Placed.{floor_point, default-inside}
use sonalyze_backend.Simulation.Usable.{IsUsable, normalize-IsUsable}

abbrev diff : ℕ → ℕ → ℤ
diff a b = if ltb a b then negsuc (b - a - 1) else pos (a - b)

abbrev add : ℤ → ℤ → ℤ
add (pos a) (pos b) = pos (a + b)
add (pos a) (negsuc b) = diff a (b + 1)
add (negsuc a) (pos b) = diff b (a + 1)
add (negsuc a) (negsuc b) = negsuc (a + b + 1)

abbrev neg : ℤ → ℤ
neg (pos zero) = pos 0
neg (pos (suc n)) = negsuc n
neg (negsuc n) = pos (suc n)

abbrev size : ℤ → ℕ
size (pos a) = a
size (negsuc n) = suc n

abbrev is_negative : ℤ → Bool
is_negative (pos a) = false
is_negative (negsuc n) = true

-- the number of a size, with the sign of a product
abbrev signed : ℤ → ℤ → ℕ → ℤ
signed a b n = if differ (is_negative a) (is_negative b) then neg (pos n) else pos n

abbrev decimal : ℤ → ℤ → ℤ
decimal m (pos e) = signed m (pos 0) (size m * 10 ^ e * 1000)
decimal m (negsuc e) = signed m (pos 0) (size m * 1000 / 10 ^ (e + 1))

abbrev thousandths : Python ℤ
thousandths = record {
  decimal = decimal;
  add = add;
  sub = λ a b. add a (neg b);
  mul = λ a b. signed a b (size a * size b / 1000);
  div = λ a b. signed a b (size a * 1000 / size b);
  neg = neg;
  abs = λ a. pos (size a);
  lt = int_lt;
  le = λ a b. not (int_lt b a);
  is_zero = λ a. nat_eq (size a) 0;
  is_finite = λ a. true;
  float_of_int = λ n. ok (decimal n (pos 0));
  float_of_text = λ s. raised value_error;
  int_of_float = λ a. ok (signed a (pos 0) (size a / 1000));
  int_of_text = λ s. raised value_error;
  str = λ v. "";
  strip = λ s. s;
  lower = λ s. s;
  loads = λ s. none;
}

abbrev at : ℕ → ℕ → Point ℤ
at x y = record { x = pos (x * 1000); y = pos (y * 1000) }

abbrev square : List (Point ℤ)
square = at 0 0 ∷ at 4 0 ∷ at 4 4 ∷ at 0 4 ∷ []

abbrev bounds : RoomBounds ℤ
bounds = record {
  min_x = pos 0;
  max_x = pos 4000;
  min_y = pos 0;
  max_y = pos 4000;
  height = pos 3000;
}

default-inside_example :
    (point_in_polygon thousandths (floor_point (default_source thousandths bounds square)) square
      ≡ true)
    × (point_in_polygon thousandths
          (floor_point (default_microphone thousandths bounds square))
          square
        ≡ true)
unfolding polygon_centroid point_in_polygon
default-inside_example = default-inside thousandths square bounds (at 2 2) refl refl

-- three walls, of which the last is turned round, and one that touches no other
abbrev walls : List (Segment ℤ)
walls = (at 4 0, at 4 4) ∷ (at 9 9, at 8 8) ∷ (at 0 4, at 4 4) ∷ []

chain-enough_example :
    (find_next thousandths
        (last (at 4 0) (chain thousandths 5 (at 4 0) walls).0)
        (chain thousandths 5 (at 4 0) walls).1
      ≡ none)
    × (length (chain thousandths 5 (at 4 0) walls).0 + length (chain thousandths 5 (at 4 0) walls).1
        ≡ 3)
    × (chain thousandths 3 (at 4 0) walls ≡ chain thousandths 5 (at 4 0) walls)
chain-enough_example = chain-enough thousandths 5 (at 4 0) walls (omega arith)

walls-chain : build_polygon_from_segments thousandths ((at 0 0, at 4 0) ∷ walls) ≡ square
unfolding build_polygon_from_segments
walls-chain = refl

abbrev payload : Value ℤ
payload = dict (
    field "room_model"
      (dict (field "rooms" (list (cons (dict (field "id" (text "r") end)) nil)) end)) end)

abbrev default_spec_in_thousandths : MaterialSpec ℤ
default_spec_in_thousandths = record { absorption = pos 200; scattering = pos 50 }

-- a room without dimensions, walls or emitters
abbrev converted : Converted ℤ
converted = record {
  room = record {
    corners_m =
        record { x = negsuc 1999; y = negsuc 1999 }
        ∷ record { x = pos 2000; y = negsuc 1999 }
        ∷ record { x = pos 2000; y = pos 2000 }
        ∷ record { x = negsuc 1999; y = pos 2000 }
        ∷ [];
    height_m = pos 2800;
    wall_material = default_spec_in_thousandths;
    floor_material = default_spec_in_thousandths;
    ceiling_material = default_spec_in_thousandths;
  };
  furniture = [];
  raw_furniture = nil;
  sample_rate_hz = pos 16000;
  max_order = pos 12;
  air_absorption = true;
  rir_duration_s = pos 2000;
  include_rir = false;
  sources =
      record {
        id = "src-default";
        position_m = record { x = negsuc 999; y = negsuc 999; z = pos 1500 };
      }
      ∷ [];
  microphones =
      record {
        id = "mic-default";
        position_m = record { x = pos 1000; y = pos 1000; z = pos 1200 };
      }
      ∷ [];
}

normalize-IsUsable_example : IsUsable converted
unfolding normalize_simulation_payload
normalize-IsUsable_example = normalize-IsUsable thousandths payload converted refl
