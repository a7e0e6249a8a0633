-- ===== src/Managed/Json.antt =====
-- The JSON values that internal/managed decodes, after encoding/json has read the text.
use geoflow_updater.Prelude.{ℕ, String, Bool, List, [], ◌∷◌}

-- A number is a whole number from zero on, or any other, which no field of the package accepts.
mutual
  pub data Json : Type 0 where
    null : Json
    bool : Bool → Json
    number : ℕ → Json
    other_number : Json
    text : String → Json
    array : Items → Json
    object : Fields → Json

  pub data Items : Type 0 where
    nil : Items
    cons : Json → Items → Items

  pub data Fields : Type 0 where
    end : Fields
    field : String → Json → Fields → Fields

abbrev pub items : Items → List Json
items nil = []
items (cons x xs) = x ∷ items xs

abbrev pub fields : Fields → List (String × Json)
fields end = []
fields (field key value rest) = (key, value) ∷ fields rest
