-- ===== src/Json.antt =====
-- Decoded JSON and YAML values (`Any` and `dict[str, Any]` in the source), which travel opaquely.
use symphony_python.Prelude.{Bool, ℤ}
use symphony_python.Text.{Text}

-- A double: a finite one is mantissa times a power of two.
pub data Float : Type 0 where
  finite : ℤ → ℤ → Float
  infinite : Bool → Float
  nan : Float

mutual
  pub data Value : Type 0 where
    null : Value
    bool : Bool → Value
    int : ℤ → Value
    float : Float → Value
    str : Text → Value
    arr : Items → Value
    obj : Fields → Value

  pub data Items : Type 0 where
    nil : Items
    cons : Value → Items → Items

  pub data Fields : Type 0 where
    end : Fields
    field : Text → Value → Fields → Fields
