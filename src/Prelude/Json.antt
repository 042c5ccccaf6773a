-- ===== src/Prelude/Json.antt =====
-- What JSON.parse returns: `null`, a Boolean, an integer, a string, an array, or an object, whose
-- properties are in the order of the text. Numbers that are not integers do not occur.
use mathlib.Core.Option.{Option, none, some}
use mathlib.Core.List.{List, [], ◌∷◌}
use mathlib.Core.Bool.{Bool}
use cardano_on_evm.Prelude.Tests.{if◌then◌else◌}
use cardano_on_evm.Prelude.Int.{ℤ}
use cardano_on_evm.Prelude.Text.{Str, str_eq}

mutual
  pub data Json : Type 0 where
    null : Json
    boolean : Bool → Json
    number : ℤ → Json
    text : Str → Json
    array : Elements → Json
    object : Members → Json

  pub data Elements : Type 0 where
    nil : Elements
    cons : Json → Elements → Elements

  pub data Members : Type 0 where
    end : Members
    member : Str → Json → Members → Members

abbrev pub elements : Elements → List Json
elements nil = []
elements (cons v vs) = v ∷ elements vs

-- `Object.entries`
abbrev pub entries : Members → List (Str × Json)
entries end = []
entries (member k v ms) = (k, v) ∷ entries ms

-- The first entry under a key. An object has one at most.
unfoldable pub lookup {ℓ} : {A : Type ℓ} → Str → List (Str × A) → Option A
lookup k [] = none
lookup k ((j, v) ∷ es) = if str_eq j k then some v else lookup k es

-- `value.name`, undefined when the value has no such member_at of its own.
unfoldable pub member_at : Json → Str → Option Json
unfolding lookup
member_at (object ms) name = lookup name (entries ms)
member_at _ name = none

-- The string that a member_at holds, if it holds one.
unfoldable pub as_text : Option Json → Option Str
as_text (some (text s)) = some s
as_text _ = none
