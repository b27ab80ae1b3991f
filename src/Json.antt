-- ===== src/Json.antt =====
-- The values that Go's encoding/json decodes into `interface{}`, and the type assertions that the
-- code makes on them. A number is an integer here.
use nexus_framework.Prelude.{String, Bool, Option, some, [], ◌∷◌}
use nexus_framework.Prelude.Maps.{Assoc, lookup}
use nexus_framework.Prelude.Int.{ℤ}

mutual
  pub data Fields : Type 0 where
    end : Fields
    field : String → Value → Fields → Fields

  pub data Value : Type 0 where
    null : Value
    obj : Fields → Value
    arr : Items → Value
    str : String → Value
    num : ℤ → Value
    bool : Bool → Value

  pub data Items : Type 0 where
    no_item : Items
    item : Value → Items → Items

-- A `map[string]interface{}` and back.
abbrev pub to_assoc : Fields → Assoc Value
to_assoc end = []
to_assoc (field k v fs) = (k, v) ∷ to_assoc fs

abbrev pub of_assoc : Assoc Value → Fields
of_assoc [] = end
of_assoc ((k, v) ∷ m) = field k v (of_assoc m)

-- s, _ := v.(string)
abbrev pub as_string : Option Value → String
as_string (some (str s)) = s
as_string _ = ""

-- m[k].(string), which is the empty text for a missing key or another type
abbrev pub string_at : String → Assoc Value → String
string_at k m = as_string (lookup k m)
