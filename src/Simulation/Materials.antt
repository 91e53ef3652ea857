-- ===== src/Simulation/Materials.antt =====
-- simulation/src/sonalyze_simulation/materials.py, and `_extract_material_spec` of payload_adapter.py.
use sonalyze_backend.Prelude.{String, Option, none, some, List, [], ◌∷◌, ◌==◌, if◌then◌else◌, find}
use sonalyze_backend.Json.{pos, negsuc}
use sonalyze_backend.Simulation.Python.{
  Value, float, text, list, dict, Fields, type_error, Outcome, ok, raised, ◌>>=◌, Python, get,
  get_or, is_null, truthy, or_else, float_of, whole,
}

pub record MaterialInfo (F : Type 0) : Type 0 where
  pub id : String
  pub display_name : String
  pub absorption : F
  pub scattering : F

pub record MaterialSpec (F : Type 0) : Type 0 where
  pub absorption : F
  pub scattering : F

module _ {F : Type 0} (py : Python F) where
  abbrev material : String → String → F → F → MaterialInfo F
  material id name a s = record { id = id; display_name = name; absorption = a; scattering = s }

  -- `_MATERIALS`
  unfoldable pub materials : List (MaterialInfo F)
  materials =
      material "concrete" "Concrete" (py.decimal (pos 2) (negsuc 1)) (py.decimal (pos 5) (negsuc 1))
      ∷ material "brick" "Brick (unpainted)" (py.decimal (pos 3) (negsuc 1))
          (py.decimal (pos 10) (negsuc 1))
      ∷ material "marble" "Marble / Tile" (py.decimal (pos 1) (negsuc 1))
          (py.decimal (pos 2) (negsuc 1))
      ∷ material "glass" "Glass" (py.decimal (pos 4) (negsuc 1)) (py.decimal (pos 2) (negsuc 1))
      ∷ material "plaster" "Plaster / Drywall" (py.decimal (pos 10) (negsuc 1))
          (py.decimal (pos 5) (negsuc 1))
      ∷ material "painted_concrete" "Painted Concrete" (py.decimal (pos 6) (negsuc 1))
          (py.decimal (pos 5) (negsuc 1))
      ∷ material "hardwood" "Hardwood Floor" (py.decimal (pos 10) (negsuc 1))
          (py.decimal (pos 10) (negsuc 1))
      ∷ material "parquet" "Parquet Floor" (py.decimal (pos 7) (negsuc 1))
          (py.decimal (pos 10) (negsuc 1))
      ∷ material "wood_panel" "Wood Paneling" (py.decimal (pos 15) (negsuc 1))
          (py.decimal (pos 15) (negsuc 1))
      ∷ material "plywood" "Plywood" (py.decimal (pos 12) (negsuc 1))
          (py.decimal (pos 10) (negsuc 1))
      ∷ material "carpet_thin" "Thin Carpet" (py.decimal (pos 20) (negsuc 1))
          (py.decimal (pos 20) (negsuc 1))
      ∷ material "carpet_thick" "Thick Carpet" (py.decimal (pos 50) (negsuc 1))
          (py.decimal (pos 30) (negsuc 1))
      ∷ material "carpet_padded" "Carpet with Underlay" (py.decimal (pos 60) (negsuc 1))
          (py.decimal (pos 35) (negsuc 1))
      ∷ material "curtain_light" "Light Curtain" (py.decimal (pos 15) (negsuc 1))
          (py.decimal (pos 20) (negsuc 1))
      ∷ material "curtain_heavy" "Heavy Curtain" (py.decimal (pos 55) (negsuc 1))
          (py.decimal (pos 25) (negsuc 1))
      ∷ material "upholstery" "Upholstered Furniture" (py.decimal (pos 45) (negsuc 1))
          (py.decimal (pos 20) (negsuc 1))
      ∷ material "acoustic_panel" "Acoustic Panel" (py.decimal (pos 80) (negsuc 1))
          (py.decimal (pos 15) (negsuc 1))
      ∷ material "acoustic_foam" "Acoustic Foam" (py.decimal (pos 70) (negsuc 1))
          (py.decimal (pos 10) (negsuc 1))
      ∷ material "acoustic_tile" "Acoustic Ceiling Tile" (py.decimal (pos 65) (negsuc 1))
          (py.decimal (pos 20) (negsuc 1))
      ∷ material "perforated_panel" "Perforated Panel" (py.decimal (pos 50) (negsuc 1))
          (py.decimal (pos 40) (negsuc 1))
      ∷ material "diffuser" "Diffuser Panel" (py.decimal (pos 15) (negsuc 1))
          (py.decimal (pos 80) (negsuc 1))
      ∷ material "suspended_ceiling" "Suspended Ceiling" (py.decimal (pos 50) (negsuc 1))
          (py.decimal (pos 25) (negsuc 1))
      ∷ material "mineral_fiber" "Mineral Fiber Ceiling" (py.decimal (pos 70) (negsuc 1))
          (py.decimal (pos 25) (negsuc 1))
      ∷ material "gypsum_ceiling" "Gypsum Board Ceiling" (py.decimal (pos 15) (negsuc 1))
          (py.decimal (pos 10) (negsuc 1))
      ∷ material "default" "Default" (py.decimal (pos 20) (negsuc 1))
          (py.decimal (pos 5) (negsuc 1))
      ∷ []

  unfoldable pub get_material_by_id : String → Option (MaterialInfo F)
  unfolding materials
  get_material_by_id id = find (λ m. m.id == id) materials

  abbrev pub default_spec : MaterialSpec F
  default_spec = record {
    absorption = py.decimal (pos 2) (negsuc 0);
    scattering = py.decimal (pos 5) (negsuc 1);
  }

  abbrev pub spec_of : MaterialInfo F → MaterialSpec F
  spec_of m = record { absorption = m.absorption; scattering = m.scattering }

  -- `get_material_by_id` on any key: a list or a dictionary is not hashable, and only a text is found.
  unfoldable pub material_named : Value F → Outcome (Option (MaterialInfo F))
  unfolding get_material_by_id
  material_named (text id) = ok (get_material_by_id id)
  material_named (list vs) = raised type_error
  material_named (dict fields) = raised type_error
  material_named _ = ok none

  -- the coefficients that a dictionary gives itself
  unfoldable pub direct_spec : Fields F → Outcome (MaterialSpec F)
  unfolding get_or
  direct_spec fields =
      let spec = float_of py (get "absorption" fields) >>= λ a.
      float_of py (get_or "scattering" (float (whole py 0)) fields) >>= λ s.
      ok (record { absorption = a; scattering = s }) in
      if is_null (get "absorption" fields) then ok default_spec else spec

  abbrev pub or_spec : Outcome (MaterialSpec F) → Option (MaterialInfo F) → Outcome (MaterialSpec F)
  or_spec otherwise none = otherwise
  or_spec otherwise (some m) = ok (spec_of m)

  unfoldable pub extract_material_spec : Value F → Outcome (MaterialSpec F)
  unfolding get_or get_material_by_id material_named direct_spec
  extract_material_spec (text id) = or_spec (ok default_spec) (get_material_by_id id)
  extract_material_spec (dict fields) =
      let id = or_else py (get "material_id" fields) (get "id" fields) in
      let named = material_named id >>= or_spec (direct_spec fields) in
      if truthy py id then named else direct_spec fields
  extract_material_spec _ = ok default_spec
