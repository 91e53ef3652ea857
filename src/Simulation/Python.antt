-- ===== src/Simulation/Python.antt =====
-- The values that simulation/src/sonalyze_simulation/payload_adapter.py reads, and what it takes from
-- Python: the floats, the conversions `float`, `int` and `str`, `json.loads`, and the texts' methods.
use sonalyze_backend.Prelude.{
  ℕ, zero, String, Bool, true, false, not, ◌||◌, Option, List, [], ◌∷◌, ◌==◌, if◌then◌else◌,
}
use sonalyze_backend.Json.{ℤ, pos}

-- `F` is the type of the floats.
mutual
  pub data Value (F : Type 0) : Type 0 where
    null : Value F
    bool : Bool → Value F
    int : ℤ → Value F
    float : F → Value F
    text : String → Value F
    list : Items F → Value F
    dict : Fields F → Value F

  pub data Items (F : Type 0) : Type 0 where
    nil : Items F
    cons : Value F → Items F → Items F

  pub data Fields (F : Type 0) : Type 0 where
    end : Fields F
    field : String → Value F → Fields F → Fields F

-- the exceptions, by class
pub data Raised : Type 0 where
  type_error : Raised
  value_error : Raised
  overflow_error : Raised
  attribute_error : Raised

pub data Outcome (A : Type 0) : Type 0 where
  ok : A → Outcome A
  raised : Raised → Outcome A

infixl 5 ◌>>=◌
abbrev pub ◌>>=◌ : {A B : Type 0} → Outcome A → (A → Outcome B) → Outcome B
ok a >>= f = f a
raised e >>= f = raised e

-- `decimal m e` is the literal m * 10 ^ e.
pub record Python (F : Type 0) : Type 0 where
  pub decimal : ℤ → ℤ → F
  pub add : F → F → F
  pub sub : F → F → F
  pub mul : F → F → F
  pub div : F → F → F
  pub neg : F → F
  pub abs : F → F
  pub lt : F → F → Bool
  pub le : F → F → Bool
  pub is_zero : F → Bool
  pub is_finite : F → Bool
  pub float_of_int : ℤ → Outcome F
  pub float_of_text : String → Outcome F
  pub int_of_float : F → Outcome ℤ
  pub int_of_text : String → Outcome ℤ
  pub str : Value F → String
  pub strip : String → String
  pub lower : String → String
  pub loads : String → Option (Value F)

abbrev is_zero_int : ℤ → Bool
is_zero_int (pos zero) = true
is_zero_int _ = false

module _ {F : Type 0} where
  abbrev pub entries : Items F → List (Value F)
  entries nil = []
  entries (cons v vs) = v ∷ entries vs

  abbrev pub items : List (Value F) → Items F
  items [] = nil
  items (v ∷ vs) = cons v (items vs)

  -- `key in value`
  unfoldable pub has_key : String → Fields F → Bool
  has_key key end = false
  has_key key (field k v rest) = (k == key) || has_key key rest

  -- `value.get(key, default)`
  unfoldable pub get_or : String → Value F → Fields F → Value F
  get_or key default end = default
  get_or key default (field k v rest) =
      let later = get_or key default rest in if k == key then v else later

  abbrev pub get : String → Fields F → Value F
  get key fields = get_or key null fields

  abbrev pub is_null : Value F → Bool
  is_null null = true
  is_null _ = false

  -- `value.get(key)` on any value
  abbrev pub get_attr : String → Value F → Outcome (Value F)
  get_attr key (dict fields) = ok (get key fields)
  get_attr key _ = raised attribute_error

module _ {F : Type 0} (py : Python F) where
  -- `bool(value)`
  abbrev pub truthy : Value F → Bool
  truthy null = false
  truthy (bool b) = b
  truthy (int n) = not (is_zero_int n)
  truthy (float x) = not (py.is_zero x)
  truthy (text s) = not (s == "")
  truthy (list nil) = false
  truthy (list (cons v vs)) = true
  truthy (dict end) = false
  truthy (dict (field k v rest)) = true

  -- `value or other`
  abbrev pub or_else : Value F → Value F → Value F
  or_else value other = if truthy value then value else other

  -- `float(value)`
  abbrev pub float_of : Value F → Outcome F
  float_of (bool true) = ok (py.decimal (pos 1) (pos 0))
  float_of (bool false) = ok (py.decimal (pos 0) (pos 0))
  float_of (int n) = py.float_of_int n
  float_of (float x) = ok x
  float_of (text s) = py.float_of_text s
  float_of _ = raised type_error

  -- `int(value)`
  abbrev pub int_of : Value F → Outcome ℤ
  int_of (bool true) = ok (pos 1)
  int_of (bool false) = ok (pos 0)
  int_of (int n) = ok n
  int_of (float x) = py.int_of_float x
  int_of (text s) = py.int_of_text s
  int_of _ = raised type_error

  -- `min(a, b)` and `max(a, b)`
  abbrev pub min : F → F → F
  min a b = if py.lt b a then b else a

  abbrev pub max : F → F → F
  max a b = if py.lt a b then b else a

  abbrev pub whole : ℕ → F
  whole n = py.decimal (pos n) (pos 0)

  abbrev pub half : F → F
  half x = py.div x (whole 2)
