-- ===== src/Simulation/Usable.antt =====
-- What `normalize_simulation_payload` of simulation/src/sonalyze_simulation/payload_adapter.py builds.
use sonalyze_backend.Prelude.{
  String, ◌≤◌, ◌≡◌, refl, subst, sym, false, List, [], ◌∷◌, length, inl, inr, Bool-cases,
  if◌then◌else◌, arith,
}
use sonalyze_backend.Json.{ℤ, pos, negsuc}
use sonalyze_backend.Simulation.Python.{
  Value, null, bool, int, float, text, dict, list, nil, end, get_attr, Fields, Raised, type_error,
  value_error, overflow_error, attribute_error, Outcome, ok, raised, ◌>>=◌, Python, get, get_or,
  or_else, whole, int_of,
}
use sonalyze_backend.Simulation.Numbers.{int_lt, recover, coerce_int, coerce_float, positive_float}
use sonalyze_backend.Simulation.Polygon.{Point, build_polygon_from_segments}
use sonalyze_backend.Simulation.Chain.{IsOutline, build_polygon-IsOutline}
use sonalyze_backend.Simulation.Materials.{extract_material_spec}
use sonalyze_backend.Simulation.Emitters.{
  Emitter, or_default, convert_emitters, extract_emitters_from_payload,
}
use sonalyze_backend.Simulation.Rooms.{
  convert_furniture_boxes, RoomConversion, or_rectangle, collect_segments,
}
use sonalyze_backend.Simulation.Payload.{
  items_or_none, fields_or_none, height_value, Converted, Normalized, given, built, convert_room,
  convert_room_model, convert_payload, extract_room_model, build, with_room,
  normalize_simulation_payload, first_room,
}

-- A property of what is returned.
abbrev Holds : {A : Type 0} → (A → Type 0) → Outcome A → Type 0
Holds P (ok a) = P a
Holds P (raised x) = Unit

bind-Holds :
    {A B : Type 0} (P : B → Type 0) (m : Outcome A) (f : A → Outcome B)
    → ((a : A) → m ≡ ok a → Holds P (f a))
    → Holds P (m >>= f)
bind-Holds P (ok a) f h = h a refl
bind-Holds P (raised x) f h = tt

Holds-ok : {A : Type 0} (P : A → Type 0) (m : Outcome A) (a : A) → Holds P m → m ≡ ok a → P a
Holds-ok P (ok b) a h e = let same : b ≡ a = cc e in subst P same h
Holds-ok P (raised x) a h e = cc e

-- A request that the engine can run on: a room of three corners or more, a sample rate of at least 1, an
-- order that is not negative, and a source and a microphone.
pub record IsUsable {F : Type 0} (c : Converted F) : Type 0 where
  pub corners : 3 ≤ length c.room.corners_m
  pub sample_rate : int_lt c.sample_rate_hz (pos 1) ≡ false
  pub order : int_lt c.max_order (pos 0) ≡ false
  pub source : 1 ≤ length c.sources
  pub microphone : 1 ≤ length c.microphones

recover-ok :
    {A : Type 0} (default : A) (e : Raised) (a : A)
    → recover default (raised e) ≡ ok a
    → a ≡ default
recover-ok default type_error a h = cc h
recover-ok default value_error a h = cc h
recover-ok default overflow_error a h = cc h
recover-ok default attribute_error a h = cc h

module _ {F : Type 0} where
  or_default-length :
      (default : Emitter F) (es : List (Emitter F)) → 1 ≤ length (or_default default es)
  or_default-length default [] = omega arith
  or_default-length default (e ∷ es) = omega arith

  abbrev IsGood : Normalized F → Type 0
  IsGood (given payload) = Unit
  IsGood (built c) = IsUsable c

module _ {F : Type 0} (py : Python F) where
  coerce_int-bound :
      (value : Value F) (default minimum n : ℤ)
      → int_lt default minimum ≡ false
      → int_lt minimum minimum ≡ false
      → coerce_int py value default minimum ≡ ok n
      → int_lt n minimum ≡ false
  unfolding coerce_int
  coerce_int-bound value default minimum n hd hm e = from (int_of py value) e
    where
      from :
          (o : Outcome ℤ)
          → elim o [
            | ok integer ↦ ok (if int_lt integer minimum then minimum else integer)
            | raised x ↦ recover default (raised x)
          ]
            ≡ ok n
          → int_lt n minimum ≡ false
      from (ok i) e = elim (Bool-cases (int_lt i minimum)) [
        | inl below ↦
            let f : ok minimum ≡ ok n = rw below at e in
            let g : minimum ≡ n = cc f in subst (λ (k : ℤ). int_lt k minimum ≡ false) g hm
        | inr above ↦
            let f : ok i ≡ ok n = rw above at e in
            let g : i ≡ n = cc f in subst (λ (k : ℤ). int_lt k minimum ≡ false) g above
      ]
      from (raised x) e =
          let g = recover-ok default x n e in subst (λ (k : ℤ). int_lt k minimum ≡ false) (sym g) hd

  or_rectangle-length :
      (width depth : F) (points : List (Point F))
      → IsOutline py points
      → 3 ≤ length (or_rectangle py width depth points)
  unfolding or_rectangle
  or_rectangle-length width depth [] h = omega arith
  or_rectangle-length width depth (p ∷ points) h = omega (arith, h.0)

  convert_room-corners :
      (room_model room : Fields F)
      → Holds
          (λ (g : RoomConversion F). 3 ≤ length g.room_spec.corners_m)
          (convert_room py room_model room)
  unfolding convert_room
  convert_room-corners room_model room =
      let P : RoomConversion F → Type 0 = λ g. 3 ≤ length g.room_spec.corners_m in
      let dims = fields_or_none (get "dimensions" room) in
      bind-Holds P (positive_float py (get "width" dims) (whole py 4)) _ (λ width w.
        bind-Holds P (positive_float py (get "depth" dims) (whole py 4)) _ (λ depth d.
          bind-Holds P
            (positive_float py (height_value py dims room room_model)
              (py.decimal (pos 28) (negsuc 0)))
            _
            (λ height h. bind-Holds P (collect_segments py (get "walls" room)) _ (λ segments s.
              let corners =
                or_rectangle-length width depth (build_polygon_from_segments py segments)
                  (build_polygon-IsOutline py segments) in
              let materials =
                or_else py (get "materials" room_model)
                  (or_else py (get "materials" room) (dict end)) in
              bind-Holds P (get_attr "wall" materials) _ (λ wall m1.
                bind-Holds P (extract_material_spec py wall) _ (λ wall_material m2.
                  bind-Holds P (get_attr "floor" materials) _ (λ floor m3.
                    bind-Holds P (extract_material_spec py floor) _ (λ floor_material m4.
                      bind-Holds P (get_attr "ceiling" materials) _ (λ ceiling m5.
                        bind-Holds P (extract_material_spec py ceiling) _ (λ ceiling_material m6.
                          bind-Holds P
                            (convert_furniture_boxes py height
                              (items_or_none (get_or "furniture" (list nil) room)))
                            _ (λ furniture m7. corners)))))))))))

  convert_payload-IsUsable :
      (payload model : Fields F) (g : RoomConversion F)
      → 3 ≤ length g.room_spec.corners_m
      → Holds IsUsable (convert_payload py payload model g)
  unfolding convert_payload
  convert_payload-IsUsable payload model g corners =
      let either : String → Value F = λ key. or_else py (get key payload) (get key model) in
      bind-Holds IsUsable (coerce_int py (either "sample_rate_hz") (pos 16000) (pos 1)) _
        (λ rate is_rate.
          bind-Holds IsUsable (coerce_int py (either "max_order") (pos 12) (pos 0)) _
            (λ order is_order.
              bind-Holds IsUsable
                (coerce_float py (either "rir_duration_s") (whole py 2)
                  (py.decimal (pos 1) (negsuc 1)))
                _
                (λ duration d.
                  bind-Holds IsUsable
                    (convert_emitters py "src" 1 (
                      extract_emitters_from_payload (dict payload) model
                        ("sources" ∷ "loudspeakers" ∷ "speakers" ∷ [])))
                    _
                    (λ sources s.
                      bind-Holds IsUsable
                        (convert_emitters py "mic" 1 (
                          extract_emitters_from_payload (dict payload) model
                            ("microphones" ∷ "mics" ∷ "receivers" ∷ "microphone" ∷ [])))
                        _
                        (λ microphones m. record {
                          corners = corners;
                          sample_rate =
                              coerce_int-bound _ (pos 16000) (pos 1) rate refl refl is_rate;
                          order = coerce_int-bound _ (pos 12) (pos 0) order refl refl is_order;
                          source = or_default-length _ sources;
                          microphone = or_default-length _ microphones;
                        })))))

  build-IsGood : (payload : Fields F) → Holds IsGood (build py payload)
  unfolding build convert_room_model
  build-IsGood payload = bind-Holds IsGood (extract_room_model py payload) _ (λ model m.
      bind-Holds IsGood (first_room (get "rooms" model) >>= convert_room py model) _ (λ g is_g.
        bind-Holds IsGood (convert_payload py payload model g) _ (λ c is_c.
          Holds-ok IsUsable (convert_payload py payload model g) c
            (convert_payload-IsUsable payload model g (
              Holds-ok (λ (r : RoomConversion F). 3 ≤ length r.room_spec.corners_m)
                (first_room (get "rooms" model) >>= convert_room py model) g
                (bind-Holds (λ (r : RoomConversion F). 3 ≤ length r.room_spec.corners_m)
                  (first_room (get "rooms" model)) (convert_room py model)
                  (λ room r. convert_room-corners model room))
                is_g))
            is_c)))

  -- A payload that is converted gives a request that the engine can run on: three corners or more, a sample
  -- rate of at least 1, an order that is not negative, a source and a microphone.
  pub normalize-IsUsable :
      (payload : Value F) (c : Converted F)
      → normalize_simulation_payload py payload ≡ ok (built c)
      → IsUsable c
  unfolding normalize_simulation_payload
  normalize-IsUsable (dict payload) c e =
      Holds-ok IsGood (with_room payload (get "room" payload) (build py payload)) (built c)
        (either (get "room" payload)) e
    where
      either : (room : Value F) → Holds IsGood (with_room payload room (build py payload))
      either (dict room) = tt
      either null = build-IsGood payload
      either (bool b) = build-IsGood payload
      either (int n) = build-IsGood payload
      either (float x) = build-IsGood payload
      either (text s) = build-IsGood payload
      either (list vs) = build-IsGood payload
  normalize-IsUsable null c e = cc e
  normalize-IsUsable (bool b) c e = cc e
  normalize-IsUsable (int n) c e = cc e
  normalize-IsUsable (float x) c e = cc e
  normalize-IsUsable (text s) c e = cc e
  normalize-IsUsable (list vs) c e = cc e
