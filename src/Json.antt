-- ===== src/Json.antt =====
-- JSON values, as `json.loads` hands them to the services.
use sonalyze_backend.Prelude.{ℕ, String, Bool}

-- `negsuc n` is -(n + 1)
pub data ℤ : Type 0 where
  pos : ℕ → ℤ
  negsuc : ℕ → ℤ

-- `number m e` is the decimal number m * 10 ^ e.
mutual
  pub data Value : Type 0 where
    null : Value
    bool : Bool → Value
    number : ℤ → ℤ → Value
    text : String → Value
    array : Items → Value
    object : Fields → Value

  pub data Items : Type 0 where
    nil : Items
    cons : Value → Items → Items

  pub data Fields : Type 0 where
    end : Fields
    field : String → Value → Fields → Fields
