-- ===== src/Sdk/Json.antt =====
-- The values of type `unknown` that the package inspects: parsed JSON, and `undefined` for a
-- property that is not there.
use perihelion.Prelude.{Option, none, some, ite, List, [], ◌∷◌}
use perihelion.Prelude.Int.{ℤ}
use perihelion.Prelude.Text.{Text, text_discrete}
use perihelion.Prelude.{Bool}

-- A JavaScript number as far as `Number.isInteger` and `Number.isFinite` tell it apart.
pub data Number : Type 0 where
  int : ℤ → Number
  fraction : Number
  non_finite : Number

mutual
  pub data Value : Type 0 where
    undefined : Value
    null : Value
    bool : Bool → Value
    num : Number → Value
    str : Text → Value
    arr : Items → Value
    obj : Fields → Value

  pub data Items : Type 0 where
    nil : Items
    cons : Value → Items → Items

  pub data Fields : Type 0 where
    end : Fields
    field : Text → Value → Fields → Fields

-- `v.name`.
unfoldable pub prop : Text → Fields → Value
unfolding text_discrete
prop name end = undefined
prop name (field k v rest) = ite (text_discrete k name) v (prop name rest)

unfoldable pub items : Items → List Value
items nil = []
items (cons v vs) = v ∷ items vs

-- `typeof v === "string"`, and the string.
abbrev pub as_text : Value → Option Text
as_text (str s) = some s
as_text _ = none
