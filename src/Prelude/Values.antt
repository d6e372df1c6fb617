-- ===== src/Prelude/Values.antt =====
-- Parsed JSON values. A number is told apart by what `Number.isInteger` and the sign say of it.
use Prim.Native.Nat.{ℕ}
use Prim.Native.String.{String}
use mathlib.Core.Bool.{Bool}
use mathlib.Core.Option.{Option, none, some}
use mathlib.Core.List.{List, [], ◌∷◌}
use text.Mathlib.Text.{◌==◌}
use acdp_control_plane.Prelude.Tests.{if◌then◌else◌}

-- `neg n` is -(n + 1), and `frac` any number that is no integer.
pub data Number : Type 0 where
  nat : ℕ → Number
  neg : ℕ → Number
  frac : Number

mutual
  pub data Json : Type 0 where
    null : Json
    bool : Bool → Json
    num : Number → Json
    str : String → Json
    arr : Items → Json
    obj : Fields → Json

  pub data Items : Type 0 where
    nil : Items
    cons : Json → Items → Items

  pub data Fields : Type 0 where
    end : Fields
    field : String → Json → Fields → Fields

abbrev pub items : Items → List Json
items nil = []
items (cons v vs) = v ∷ items vs

-- `o[key]`; `none` is `undefined`.
abbrev pub member : String → Fields → Option Json
member key end = none
member key (field k v fs) = if k == key then some v else member key fs

-- `Object.keys(o)`
abbrev pub keys : Fields → List String
keys end = []
keys (field k v fs) = k ∷ keys fs
