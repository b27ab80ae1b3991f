-- ===== src/Broker/Provider/Fields.antt =====
-- nexus-broker/pkg/provider/store.go: PatchProfile, which writes single columns, and GetMetadata.
use nexus_framework.Prelude.{
  ℕ, String, Bool, true, false, Option, none, some, List, [], ◌∷◌, ◌==◌, if◌then◌else◌, not, ◌&&◌,
  ◌||◌,
}
use nexus_framework.Prelude.Text.{◌<>◌}
use nexus_framework.Prelude.Maps.{Assoc, lookup, insert}
use nexus_framework.Json.{Value}
use nexus_framework.Broker.Profile.{Profile}
use nexus_framework.Broker.Provider.{
  ProfileRow, StoreFaults, StoreStatement, select_list, update_rows, find_row,
}

-- How the database takes a decoded JSON value in a column, if it does; `some none` is NULL.
pub record Columns : Type 0 where
  pub as_text : Value → Option (Option String)
  pub as_bool : Value → Option Bool
  pub as_texts : Value → Option (List String)
  pub as_json : Value → Option (Option Value)

-- A column that must not be NULL, one that may be, and one whose NULL is read as the empty text.
abbrev set_required : Option (Option String) → (String → Profile) → Option Profile
set_required (some (some s)) f = some (f s)
set_required _ f = none

abbrev set_nullable : {A : Type 0} → Option A → (A → Profile) → Option Profile
set_nullable none f = none
set_nullable (some s) f = some (f s)

abbrev set_coalesced : Option (Option String) → (String → Profile) → Option Profile
set_coalesced none f = none
set_coalesced (some none) f = some (f "")
set_coalesced (some (some s)) f = some (f s)

-- One assignment of the statement; unknown keys are left out of it.
unfoldable pub patch_column : Columns → String → Value → Profile → Option Profile
patch_column db k v p =
    if k == "name"
    then set_required (db.as_text v) (λ s. record p { name = s })
    else if k == "client_id"
    then set_nullable (db.as_text v) (λ s. record p { client_id = s })
    else if k == "client_secret"
    then set_nullable (db.as_text v) (λ s. record p { client_secret = s })
    else if k == "auth_url"
    then set_nullable (db.as_text v) (λ s. record p { auth_url = s })
    else if k == "token_url"
    then set_nullable (db.as_text v) (λ s. record p { token_url = s })
    else if k == "issuer"
    then set_nullable (db.as_text v) (λ s. record p { issuer = s })
    else if k == "enable_discovery"
    then set_nullable (db.as_bool v) (λ b. record p { enable_discovery = b })
    else if k == "scopes"
    then set_nullable (db.as_texts v) (λ l. record p { scopes = l })
    else if k == "auth_type"
    then set_required (db.as_text v) (λ s. record p { auth_type = s })
    else if k == "auth_header"
    then set_coalesced (db.as_text v) (λ s. record p { auth_header = s })
    else if k == "api_base_url"
    then set_coalesced (db.as_text v) (λ s. record p { api_base_url = s })
    else if k == "user_info_endpoint"
    then set_coalesced (db.as_text v) (λ s. record p { user_info_endpoint = s })
    else if k == "params"
    then set_nullable (db.as_json v) (λ j. record p { params = j })
    else if k == "description"
    then set_coalesced (db.as_text v) (λ s. record p { description = s })
    else if k == "category"
    then set_coalesced (db.as_text v) (λ s. record p { category = s })
    else some p

abbrev patch_from : Columns → String → Value → Option Profile → Option Profile
patch_from db k v none = none
patch_from db k v (some p) = patch_column db k v p

unfoldable pub patch_columns : Columns → Assoc Value → Profile → Option Profile
patch_columns db [] p = some p
patch_columns db ((k, v) ∷ updates) p = patch_from db k v (patch_columns db updates p)

-- PatchProfile: the text of the error, if there is one; an empty patch runs no statement.
abbrev patched_row :
    StoreFaults → ℕ → List ProfileRow → Option Profile → Option String × List ProfileRow
patched_row faults id l none = (some "failed to patch provider profile: invalid value", l)
patched_row faults id l (some p) = update_rows faults "failed to patch provider profile: " id p l

-- The columns of texts.
abbrev is_column : String → Bool
is_column k =
    k == "name"
    || k == "client_id"
    || k == "client_secret"
    || k == "auth_url"
    || k == "token_url"
    || k == "issuer"
    || k == "auth_type"
    || k == "auth_header"
    || k == "api_base_url"
    || k == "user_info_endpoint"
    || k == "description"
    || k == "category"

-- Whether the database takes the values of a patch, where there is no row to write them in.
abbrev taken : {A : Type 0} → Option A → Bool
taken none = false
taken (some a) = true

abbrev column_binds : Columns → String → Value → Bool
column_binds db k v =
    if k == "enable_discovery"
    then taken (db.as_bool v)
    else if k == "scopes"
    then taken (db.as_texts v)
    else if k == "params"
    then taken (db.as_json v)
    else not (is_column k) || taken (db.as_text v)

unfoldable pub binds : Columns → Assoc Value → Bool
binds db [] = true
binds db ((k, v) ∷ updates) = column_binds db k v && binds db updates

abbrev patch_found :
    StoreFaults
    → Columns
    → ℕ
    → Assoc Value
    → List ProfileRow
    → Option ProfileRow
    → Option String × List ProfileRow
patch_found faults db id updates l (some r) =
    patched_row faults id l (patch_columns db updates r.profile)
patch_found faults db id updates l none = elim (faults StoreStatement.update_row) [
  | some text ↦ (some ("failed to patch provider profile: " <> text), l)
  | none ↦
      if binds db updates
      then (none, l)
      else (some "failed to patch provider profile: invalid value", l)
]

unfoldable pub patch_profile :
    StoreFaults → Columns → ℕ → Assoc Value → List ProfileRow → Option String × List ProfileRow
patch_profile faults db id [] l = (none, l)
patch_profile faults db id (u ∷ updates) l =
    patch_found faults db id (u ∷ updates) l (find_row id l)

-- What GetMetadata tells of a profile.
pub record Integration : Type 0 where
  pub id : ℕ
  pub api_base_url : String
  pub user_info_endpoint : String
  pub scopes : List String
  pub description : String
  pub category : String

abbrev integration_of : ProfileRow → Integration
integration_of r = record {
  id = r.id;
  api_base_url = (r.profile).api_base_url;
  user_info_endpoint = (r.profile).user_info_endpoint;
  scopes = (r.profile).scopes;
  description = (r.profile).description;
  category = (r.profile).category;
}

abbrev group_of : Option (Assoc Integration) → Assoc Integration
group_of none = []
group_of (some m) = m

-- The groups by auth_type, where the empty text is oauth2; of each group the entry of each name.
unfoldable pub add_metadata : ProfileRow → Assoc (Assoc Integration) → Assoc (Assoc Integration)
add_metadata r m =
    let kind = if (r.profile).auth_type == "" then "oauth2" else (r.profile).auth_type in
    insert kind (insert (r.profile).name (integration_of r) (group_of (lookup kind m))) m

unfoldable pub metadata_of : List ProfileRow → Assoc (Assoc Integration) → Assoc (Assoc Integration)
metadata_of [] m = m
metadata_of (r ∷ l) m = metadata_of l (if r.deleted then m else add_metadata r m)

-- GetMetadata, on the rows in the order of their names
unfoldable pub get_metadata : StoreFaults → List ProfileRow → Option (Assoc (Assoc Integration))
get_metadata faults l = elim (faults select_list) [
  | some text ↦ none
  | none ↦ some (metadata_of l [])
]
