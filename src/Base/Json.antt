-- ===== src/Base/Json.antt =====
-- A JSON value, as Python's `json` reads it: an object is a `dict`, an array a `list`. A number with
-- a fraction or an exponent is kept as its text.
use Prim.Native.String.{String}
use mathlib.Core.Bool.{Bool}
use mathlib.Core.List.{List, [], ◌∷◌}
use text.Mathlib.Text.{◌==◌}
use ads_b_flight_intelligenc.Base.Int.{ℤ}
use ads_b_flight_intelligenc.Base.Tests.{if◌then◌else◌}

mutual
  pub data Json : Type 0 where
    null : Json
    boolean : Bool → Json
    integer : ℤ → Json
    real : String → Json
    str : String → Json
    array : Items → Json
    object : Fields → Json

  pub data Items : Type 0 where
    nil : Items
    cons : Json → Items → Items

  pub data Fields : Type 0 where
    end : Fields
    field : String → Json → Fields → Fields

abbrev pub to_list : Items → List Json
to_list nil = []
to_list (cons x xs) = x ∷ to_list xs

-- `d.get(key)`: `None`, the value of a JSON null, where the key is missing
abbrev pub get : String → Fields → Json
get key end = null
get key (field k value fields) = if k == key then value else get key fields
