-- ===== src/KeyStore/Json.antt =====
-- JSON values, as encoding/json decodes them to map[string]interface{}.
use kes.Prelude.{
  ℕ, Bool, suc, Option, none, some, List, [], ◌∷◌, Text, text_beq, if◌then◌else◌, text_eq, nat_eq,
}

mutual
  -- nil, a string, a number, a Boolean, a map, an array, or a value of another type.
  pub data Value : Type 0 where
    null : Value
    text : Text → Value
    number : ℕ → Value
    boolean : Bool → Value
    object : Fields → Value
    array : Values → Value
    other : Value

  pub data Fields : Type 0 where
    end : Fields
    field : Text → Value → Fields → Fields

  pub data Values : Type 0 where
    nothing : Values
    item : Value → Values → Values

abbrev pub find : Text → Fields → Option Value
find key end = none
find key (field name v fields) = if text_beq name key then some v else find key fields

abbrev pub size_of : Fields → ℕ
size_of end = 0
size_of (field name v fields) = suc (size_of fields)

-- The texts of the values of an array.
abbrev pub texts_of : (Value → Text) → Values → List Text
texts_of show nothing = []
texts_of show (item v vs) = show v ∷ texts_of show vs
