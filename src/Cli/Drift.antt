-- ===== src/Cli/Drift.antt =====
-- nexus-cli/drift.go: the difference between a provider's manifest and its live state. JSON's
-- encoder is an argument.
pub mod Laws
pub mod Written
use nexus_framework.Prelude.{
  String, Bool, true, false, not, ◌&&◌, ◌||◌, Option, none, some, [], ◌∷◌, ◌==◌, if◌then◌else◌,
}
use nexus_framework.Prelude.Maps.{Assoc, lookup}
use nexus_framework.Json.{Value, null}
use nexus_framework.Cli.Manifest.{Provider, Encoding, encoded_fields}

abbrev pub is_skipped : String → Bool
is_skipped k = k == "name" || k == "id" || k == "created_at" || k == "updated_at"

-- Whether a field of the manifest differs from the live one: an empty list or an empty text is as
-- good as a missing field.
abbrev live_text : (Value → String) → Option Value → String
live_text to_json none = to_json null
live_text to_json (some v) = to_json v

abbrev is_missing : Option Value → Bool
is_missing none = true
is_missing (some v) = false

unfoldable pub has_drifted : (Value → String) → Value → Option Value → Bool
has_drifted to_json v live =
    let wanted = to_json v in
    let there = live_text to_json live in
    (is_missing live || not (wanted == there))
    && not ((wanted == "[]" || wanted == "\"\"") && (there == "null" || there == ""))

unfoldable pub drift_updates : (Value → String) → Assoc Value → Assoc Value → Assoc Value
drift_updates to_json [] live = []
drift_updates to_json ((k, v) ∷ desired) live =
    let rest = drift_updates to_json desired live in
    if not (is_skipped k) && has_drifted to_json v (lookup k live) then (k, v) ∷ rest else rest

abbrev pub has_updates : Assoc Value → Bool
has_updates [] = false
has_updates (_ ∷ _) = true

abbrev pub drift_of :
    (Value → String) → Option (Assoc Value) → Assoc Value → Option (Bool × Assoc Value)
drift_of to_json none live = none
drift_of to_json (some desired) live =
    let updates = drift_updates to_json desired live in some (has_updates updates, updates)

-- computeDrift; `none` is the error of the encoder.
unfoldable pub compute_drift : Encoding → Provider → Assoc Value → Option (Bool × Assoc Value)
compute_drift enc desired live = drift_of enc.to_json (encoded_fields enc desired) live
