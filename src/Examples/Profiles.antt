-- ===== src/Examples/Profiles.antt =====
-- nexus-broker/pkg/provider/store.go: the theorems at concrete inputs.
use nexus_framework.Prelude.{
  ℕ, String, ◌≡◌, refl, true, false, Option, none, some, List, [], ◌∷◌, Result, ok, err, inl, inr,
}
use nexus_framework.Broker.Profile.{Profile, stored_profile}
use nexus_framework.Broker.Provider.{
  ProfileRow, StoreFaults, register_profile, get_profile_by_name, delete_profile_by_name,
}
use nexus_framework.Broker.Provider.Refinement.{Refines, Registered, Removed, store-Refines}
use nexus_framework.Broker.Provider.Refinement.Lookup.{
  IsOrderly, get_profile_by_name-register_profile,
}

abbrev fine_store : StoreFaults
fine_store s = none

abbrev slack : Profile
slack = record {
  name = "slack";
  description = "";
  category = "";
  auth_type = "api_key";
  auth_header = "";
  client_id = none;
  client_secret = none;
  auth_url = none;
  token_url = none;
  issuer = none;
  enable_discovery = false;
  scopes = [];
  api_base_url = "";
  user_info_endpoint = "";
  params = none;
}

abbrev old_rows : List ProfileRow
old_rows = record { id = 3; profile = slack; deleted = true } ∷ []

abbrev new_rows : List ProfileRow
new_rows = record { id = 4; profile = stored_profile slack; deleted = false } ∷ old_rows

store-Refines_example :
    Refines
      (λ new l'. Registered (ok slack) old_rows l')
      old_rows
      (register_profile fine_store 4 (ok slack) old_rows)
    × Refines
        (Removed "slack" old_rows)
        old_rows
        (delete_profile_by_name fine_store "slack" old_rows)
store-Refines_example = store-Refines fine_store 4 (ok slack) "slack" old_rows

get_profile_by_name-register_profile_example :
    (get_profile_by_name fine_store "Slack" new_rows
      ≡ some (record { id = 4; profile = stored_profile slack; deleted = false }))
    × IsOrderly new_rows
unfolding register_profile nexus_framework.Broker.Profile.check_profile
    nexus_framework.Broker.Profile.has_name_chars nexus_framework.Broker.Provider.find_named
    nexus_framework.Broker.Provider.insert_row nexus_framework.Prelude.Text.to_lower
get_profile_by_name-register_profile_example =
    get_profile_by_name-register_profile fine_store 4 4 slack old_rows new_rows "Slack"
      (inl refl, tt) refl refl refl
