-- ===== src/Gateway/Logging.antt =====
-- nexus-gateway/pkg/logging/logger.go: what is hidden in the logs. net/url is an argument; the
-- parameters of a query are a list of entries.
use nexus_framework.Prelude.{
  String, Bool, ◌||◌, Option, none, some, [], ◌∷◌, ◌==◌, if◌then◌else◌, ◌≡◌, refl, arith, eq_iff,
}
use nexus_framework.Prelude.Text.{to_lower}
use nexus_framework.Prelude.Maps.{Assoc, lookup, insert}
use nexus_framework.Json.{Value, str, obj, of_assoc}

-- sensitiveKeys
unfoldable pub is_sensitive : String → Bool
is_sensitive key =
    let k = to_lower key in
    k == "access_token"
    || k == "refresh_token"
    || k == "client_secret"
    || k == "authorization"
    || k == "token"
    || k == "code"
    || k == "state"

-- RedactValue
unfoldable pub redact_value : String → Value → Value
redact_value key value = if is_sensitive key then str "[REDACTED]" else value

-- RedactMap
unfoldable pub redact_map : Assoc Value → Assoc Value
redact_map [] = []
redact_map ((k, v) ∷ m) = (k, redact_value k v) ∷ redact_map m

-- The query of a parsed URL, and its text with another query.
pub record LoggedUrl : Type 0 where
  pub query_of : Assoc String
  pub with_query_of : Assoc String → String

unfoldable pub redact_entries : Assoc String → Assoc String
redact_entries [] = []
redact_entries ((k, v) ∷ q) = (k, if is_sensitive k then "[REDACTED]" else v) ∷ redact_entries q

-- RedactQuery
unfoldable pub redact_query : (String → Option LoggedUrl) → String → String
redact_query parse u = elim (parse u) [
  | none ↦ u
  | some parsed ↦ parsed.with_query_of (redact_entries parsed.query_of)
]

abbrev with_request_id : String → Assoc Value → Assoc Value
with_request_id id fields = if id == "" then fields else insert "request_id" (str id) fields

-- The payload of Info and of Error, by its level; the identifier is that of the request.
unfoldable pub log_payload : String → String → String → Assoc Value → Assoc Value
log_payload level msg request_id fields =
    ("level", str level)
    ∷ ("msg", str msg)
    ∷ ("fields", obj (of_assoc (redact_map (with_request_id request_id fields))))
    ∷ []

-- A sensitive field of a map, in any case of letters, is hidden, and every other field is kept.
pub lookup-redact_map :
    (k : String) (m : Assoc Value)
    → lookup k (redact_map m)
      ≡ (elim (lookup k m) [ none ↦ none | some v ↦ some (redact_value k v) ])
unfolding redact_map lookup redact_value
lookup-redact_map k [] = refl
lookup-redact_map k ((key, v) ∷ m) = ground (arith, lookup-redact_map k m, eq_iff key k)
