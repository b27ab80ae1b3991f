-- ===== src/Broker/Respond.antt =====
-- nexus-broker/pkg/httputil/response.go: how the broker writes an answer. The encoder is an argument.
use nexus_framework.Prelude.{ℕ, String, Option, none, some, [], ◌∷◌}
use nexus_framework.Prelude.Maps.{Assoc}
use nexus_framework.Json.{Value, str, obj, of_assoc}

-- A written answer; `unencoded` is an error body that has no encoding, which calls WriteError again.
pub data Written : Type 0 where
  written : ℕ → String → Written
  unencoded : Written

abbrev details_field : Option Value → Assoc Value
details_field none = []
details_field (some v) = ("details", v) ∷ []

-- APIError
unfoldable pub api_error : String → String → Option Value → Value
api_error code message details =
    obj (of_assoc (("error", str code) ∷ (("message", str message) ∷ details_field details)))

abbrev marshal_failed : Option String → Written
marshal_failed none = unencoded
marshal_failed (some body) = written 500 body

-- WriteJSON
unfoldable pub write_json : (Value → Option String) → ℕ → Value → Written
write_json to_json status v = elim (to_json v) [
  | some body ↦ written status body
  | none ↦ marshal_failed (to_json (api_error "marshal_failed" "internal server error" none))
]

-- WriteError
unfoldable pub write_error : (Value → Option String) → ℕ → String → String → Written
write_error to_json status code message = write_json to_json status (api_error code message none)

-- WriteErrorWithDetails
unfoldable pub write_error_with_details :
    (Value → Option String) → ℕ → String → String → Value → Written
write_error_with_details to_json status code message details =
    write_json to_json status (api_error code message (some details))
