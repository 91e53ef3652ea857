-- ===== src/Simulation/Numbers.antt =====
-- The functions `_coerce_bool` to `_float_or_none` of
-- simulation/src/sonalyze_simulation/payload_adapter.py.
use sonalyze_backend.Prelude.{
  String, Bool, true, false, ◌||◌, Option, none, some, ◌==◌, ltb, if◌then◌else◌,
}
use sonalyze_backend.Json.{ℤ, pos, negsuc}
use sonalyze_backend.Simulation.Python.{
  Value, null, bool, text, type_error, value_error, Outcome, ok, raised, ◌>>=◌, Python, truthy,
  float_of, int_of, whole,
}

-- `except (TypeError, ValueError)`
abbrev pub recover : {A : Type 0} → A → Outcome A → Outcome A
recover default (ok a) = ok a
recover default (raised type_error) = ok default
recover default (raised value_error) = ok default
recover default (raised e) = raised e

-- `a < b` on integers
abbrev pub int_lt : ℤ → ℤ → Bool
int_lt (pos a) (pos b) = ltb a b
int_lt (pos a) (negsuc b) = false
int_lt (negsuc a) (pos b) = true
int_lt (negsuc a) (negsuc b) = ltb b a

abbrev is_yes : String → Bool
is_yes s = s == "true" || s == "1" || s == "yes" || s == "on"

abbrev is_no : String → Bool
is_no s = s == "false" || s == "0" || s == "no" || s == "off"

module _ {F : Type 0} (py : Python F) where
  unfoldable pub coerce_bool : Value F → Bool → Bool
  coerce_bool (bool b) default = b
  coerce_bool (text s) default =
      let lowered = py.lower (py.strip s) in
      if is_yes lowered then true else if is_no lowered then false else truthy py (text s)
  coerce_bool null default = default
  coerce_bool value default = truthy py value

  unfoldable pub coerce_int : Value F → ℤ → ℤ → Outcome ℤ
  coerce_int value default minimum = elim (int_of py value) [
    | ok integer ↦ ok (if int_lt integer minimum then minimum else integer)
    | raised e ↦ recover default (raised e)
  ]

  -- `float(value)`, and a ValueError where it is not finite
  abbrev pub finite : Value F → Outcome F
  finite value = float_of py value >>= λ x. if py.is_finite x then ok x else raised value_error

  unfoldable pub coerce_float : Value F → F → F → Outcome F
  coerce_float value default minimum = elim (finite value) [
    | ok number ↦ ok (if py.lt number minimum then minimum else number)
    | raised e ↦ recover default (raised e)
  ]

  unfoldable pub positive_float : Value F → F → Outcome F
  unfolding coerce_float
  positive_float value fallback = coerce_float value fallback (whole py 0) >>= λ number.
      ok (if py.le number (whole py 0) then fallback else number)

  unfoldable pub float_or_none : Value F → Outcome (Option F)
  float_or_none null = ok none
  float_or_none value = recover none (float_of py value >>= λ x. ok (some x))
