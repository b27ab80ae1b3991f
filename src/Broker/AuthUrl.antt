-- ===== src/Broker/AuthUrl.antt =====
-- nexus-broker/pkg/handlers/consent.go, buildAuthURL: the URL where the user gives consent.
use nexus_framework.Prelude.{
  String, Bool, false, ◌||◌, Option, none, some, List, [], ◌∷◌, ◌==◌, if◌then◌else◌,
}
use nexus_framework.Prelude.Text.{◌<>◌, equal_fold, trim_suffix_char, join_space}
use nexus_framework.Prelude.Maps.{Assoc, insert}
use nexus_framework.Json.{Value, null, str}
use nexus_framework.Broker.Exchange.{flag_at}
use nexus_framework.Broker.Handler.{Config, Outside}

-- Whether a scope is "openid", in any case.
unfoldable pub has_openid : List String → Bool
has_openid [] = false
has_openid (s ∷ l) = equal_fold s "openid" || has_openid l

-- The params of a provider as a `map[string]string`, if they decode to one.
abbrev cons_setting : String → String → Option (Assoc String) → Option (Assoc String)
cons_setting k v none = none
cons_setting k v (some l) = some ((k, v) ∷ l)

unfoldable pub string_params : Assoc Value → Option (Assoc String)
string_params [] = some []
string_params ((k, str v) ∷ l) = cons_setting k v (string_params l)
string_params ((k, null) ∷ l) = cons_setting k "" (string_params l)
string_params ((k, v) ∷ l) = none

-- The settings that a provider's params add: none where they do not decode.
abbrev pub extra_settings : Option (Option (Assoc Value)) → Assoc String
extra_settings (some (some params)) = elim (string_params params) [ none ↦ [] | some l ↦ l ]
extra_settings _ = []

-- q.Set for each of them
unfoldable pub set_all : Assoc String → Assoc String → Assoc String
set_all [] q = q
set_all ((k, v) ∷ l) q = set_all l (insert k v q)

-- The query parameters that buildAuthURL sets.
unfoldable pub auth_settings :
    Config → String → String → String → List String → Option (Option (Assoc Value)) → Assoc String
auth_settings config client_id state code_challenge scopes params =
    let base_url = trim_suffix_char b'/' config.base_url in
    let located =
      insert "redirect_uri" (base_url <> config.redirect_path) (insert "client_id" client_id []) in
    let typed = insert "response_type" "code" located in
    let scoped =
      if flag_at "skip_scope_on_auth" params
      then typed
      else insert "scope" (join_space scopes) typed in
    let challenged =
      insert "code_challenge_method" "S256"
        (insert "code_challenge" code_challenge (insert "state" state scoped)) in
    let bound = if has_openid scopes then insert "nonce" state challenged else challenged in
    set_all (extra_settings params) bound

-- buildAuthURL
unfoldable pub build_auth_url :
    Config
    → Outside
    → String
    → String
    → String
    → String
    → List String
    → Option (Option (Assoc Value))
    → Option String
build_auth_url config out auth_url client_id state code_challenge scopes params =
    if auth_url == ""
    then none
    else out.with_query auth_url (auth_settings config client_id state code_challenge scopes params)
