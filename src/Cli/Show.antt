-- ===== src/Cli/Show.antt =====
-- nexus-cli/main.go: the lines of an execution plan for a provider that has drifted. fmt's %v and the
-- order of the fields are arguments.
use nexus_framework.Prelude.{
  String, Bool, true, ◌||◌, Option, none, some, List, [], ◌∷◌, ◌==◌, if◌then◌else◌, ◌≡◌, refl, ◌⊎◌,
  arith,
}
use nexus_framework.Prelude.Text.{◌<>◌}
use nexus_framework.Prelude.Maps.{Assoc, lookup}
use nexus_framework.Json.{Value, Items, no_item, item, null, arr, str}

-- The line of a provider, and those of its fields.
pub data PlanLine : Type 0 where
  update_line : String → PlanLine
  hidden_field : String → PlanLine
  shown_field : String → String → String → PlanLine

-- isSecretField
unfoldable pub is_secret_field : String → Bool
is_secret_field field = field == "client_secret" || field == "client_id"

abbrev joined_items : (Value → String) → Items → String
joined_items sprint no_item = ""
joined_items sprint (item v no_item) = sprint v
joined_items sprint (item v (item w l)) = sprint v <> ", " <> joined_items sprint (item w l)

-- formatVal; a missing value is nil.
unfoldable pub format_val : (Value → String) → Option Value → String
format_val sprint none = "<nil>"
format_val sprint (some null) = "<nil>"
format_val sprint (some (str s)) = if s == "" then "\"\"" else s
format_val sprint (some (arr items)) = "[" <> joined_items sprint items <> "]"
format_val sprint (some v) = sprint v

unfoldable pub field_lines : (Value → String) → Assoc Value → Assoc Value → List PlanLine
field_lines sprint live [] = []
field_lines sprint live ((field, v) ∷ updates) =
    (if is_secret_field field
      then hidden_field field
      else shown_field field (format_val sprint (lookup field live)) (format_val sprint (some v)))
    ∷ field_lines sprint live updates

unfoldable pub update_lines :
    (Value → String)
    → (Assoc Value → Assoc Value)
    → String
    → Assoc Value
    → Assoc Value
    → List PlanLine
update_lines sprint sort name live updates =
    update_line name ∷ field_lines sprint live (sort updates)

-- Two sets of updates to two profiles that differ in secret fields only.
abbrev pub Alike : Assoc Value → Assoc Value → Assoc Value → Assoc Value → Type 0
Alike live other [] [] = Unit
Alike live other ((f, v) ∷ l) ((g, w) ∷ m) =
    (f ≡ g)
    × ((is_secret_field f ≡ true) ⊎ (v ≡ w) × (lookup f live ≡ lookup f other))
    × Alike live other l m
Alike live other _ _ = ⊥

-- The lines do not depend on the values of secret fields, neither the live nor the new ones.
pub field_lines-Alike :
    (sprint : Value → String) (live other updates changed : Assoc Value)
    → Alike live other updates changed
    → field_lines sprint live updates ≡ field_lines sprint other changed
unfolding field_lines
field_lines-Alike sprint live other [] [] h = refl
field_lines-Alike sprint live other [] (x ∷ m) h = elim h [ ]
field_lines-Alike sprint live other (x ∷ l) [] h = elim h [ ]
field_lines-Alike sprint live other ((f, v) ∷ l) ((g, w) ∷ m) (same, alike, rest) =
    ground (arith, field_lines-Alike sprint live other l m rest)
