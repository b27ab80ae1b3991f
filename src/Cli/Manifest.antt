-- ===== src/Cli/Manifest.antt =====
-- nexus-cli/main.go: the providers of a manifest, and their fields as JSON. YAML, JSON and
-- os.Expand are arguments.
use nexus_framework.Prelude.{
  String, Bool, true, false, Option, none, some, List, [], ◌∷◌, ◌++◌, ◌==◌, if◌then◌else◌, Result,
  ok, err,
}
use nexus_framework.Prelude.Maps.{Assoc}
use nexus_framework.Json.{Value, Items, no_item, item, null, obj, arr, str, bool, of_assoc}

-- Provider; without a list of scopes the slice is nil, which is JSON's null.
pub record Provider : Type 0 where
  pub name : String
  pub auth_type : String
  pub auth_header : String
  pub client_id : String
  pub client_secret : String
  pub auth_url : String
  pub token_url : String
  pub issuer : String
  pub enable_discovery : Bool
  pub scopes : Option (List String)
  pub api_base_url : String
  pub params : Assoc Value

-- json.Marshal of a value, and whether parameters from YAML have an encoding at all.
pub record Encoding : Type 0 where
  pub to_json : Value → String
  pub has_encoding : Assoc Value → Bool

-- A field with omitempty, before others.
unfoldable pub text_field : String → String → Assoc Value → Assoc Value
text_field k s rest = if s == "" then rest else (k, str s) ∷ rest

abbrev items_of : List String → Items
items_of [] = no_item
items_of (s ∷ l) = item (str s) (items_of l)

abbrev scopes_value : Option (List String) → Value
scopes_value none = null
scopes_value (some l) = arr (items_of l)

unfoldable pub params_field : Assoc Value → Assoc Value
params_field [] = []
params_field (entry ∷ l) = ("params", obj (of_assoc (entry ∷ l))) ∷ []

-- The fields that json.Marshal writes.
unfoldable pub provider_fields : Provider → Assoc Value
provider_fields p =
    ("name", str p.name)
    ∷ text_field "auth_type" p.auth_type (
        text_field "auth_header" p.auth_header (
          text_field "client_id" p.client_id (
            text_field "client_secret" p.client_secret (
              text_field "auth_url" p.auth_url (
                text_field "token_url" p.token_url (
                  text_field "issuer" p.issuer (
                    ("enable_discovery", bool p.enable_discovery)
                    ∷ ("scopes", scopes_value p.scopes)
                    ∷ text_field "api_base_url" p.api_base_url (params_field p.params))))))))

unfoldable pub encoded_fields : Encoding → Provider → Option (Assoc Value)
encoded_fields enc p = if enc.has_encoding p.params then some (provider_fields p) else none

-- Why a command ends before it applies anything.
pub data Fatal : Type 0 where
  no_manifest : Fatal
  unset_variables : List String → Fatal
  bad_manifest : Fatal
  no_live_list : Fatal
  no_live_profile : Fatal
  no_live_id : String → Fatal
  no_drift_computed : String → Fatal
  no_confirmation : Fatal

-- The variables that os.Expand meets in a text and its result, and the decoder of YAML.
pub record Reader : Type 0 where
  pub variables : String → List String
  pub expand : (String → String) → String → String
  pub of_yaml : String → Option (List Provider)

abbrev is_listed : String → List String → Bool
is_listed x [] = false
is_listed x (y ∷ l) = if y == x then true else is_listed x l

abbrev with_missing : Option String → String → List String → List String
with_missing (some v) x found = found
with_missing none x found = if is_listed x found then found else found ++ x ∷ []

-- The variables that are unset, each once, in the order of their first use.
unfoldable pub missing_variables :
    (String → Option String) → List String → List String → List String
missing_variables env [] found = found
missing_variables env (x ∷ l) found = missing_variables env l (with_missing (env x) x found)

abbrev value_of : (String → Option String) → String → String
value_of env x = elim (env x) [ none ↦ "" | some v ↦ v ]

abbrev parsed_manifest : Option (List Provider) → Result Fatal (List Provider)
parsed_manifest none = err bad_manifest
parsed_manifest (some l) = ok l

abbrev expanded_manifest :
    Reader → (String → Option String) → String → List String → Result Fatal (List Provider)
expanded_manifest r env text [] = parsed_manifest (r.of_yaml (r.expand (value_of env) text))
expanded_manifest r env text (x ∷ l) = err (unset_variables (x ∷ l))

-- The manifest of runCommand, on the text of its file, if that can be read.
unfoldable pub read_manifest :
    Reader → (String → Option String) → Option String → Result Fatal (List Provider)
read_manifest r env none = err no_manifest
read_manifest r env (some text) =
    expanded_manifest r env text (missing_variables env (r.variables text) [])
