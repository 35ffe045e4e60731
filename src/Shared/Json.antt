-- ===== src/Shared/Json.antt =====
-- JSON values as `JSON.parse` gives them. A number that is no natural number is `other_num`, with
-- its ceiling if it is positive and finite, which decides how it compares with a natural number.
use g_gate.Prelude.{ℕ, Bool, Option, none, some, if◌then◌else◌}
use g_gate.Prelude.Text.{Text, text_beq}

mutual
  pub data Json : Type 0 where
    null : Json
    bool : Bool → Json
    num : ℕ → Json
    other_num : Option ℕ → Json
    str : Text → Json
    arr : Items → Json
    obj : Fields → Json

  pub data Items : Type 0 where
    nil : Items
    cons : Json → Items → Items

  pub data Fields : Type 0 where
    end : Fields
    field : Text → Json → Fields → Fields

-- `o[key]`; `none` is `undefined`.
unfoldable pub get_field : Text → Fields → Option Json
unfolding text_beq
get_field key end = none
get_field key (field k v rest) =
    let later = get_field key rest in if text_beq k key then some v else later
