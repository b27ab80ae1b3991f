-- ===== src/Examples/Manifest.antt =====
-- nexus-cli: the commands at concrete manifests.
use nexus_framework.Prelude.{
  ℕ, suc, String, ok, true, false, ◌≡◌, refl, none, some, List, [], ◌∷◌, ◌==◌, if◌then◌else◌, arith,
  eq_iff,
}
use nexus_framework.Prelude.Maps.{Assoc, lookup, insert}
use nexus_framework.Json.{Value, no_item, null, arr, str, bool}
use nexus_framework.Broker.Handler.{HttpAnswer, answered}
use nexus_framework.Cli.Manifest.{
  Provider, Encoding, Reader, read_manifest, missing_variables, encoded_fields, provider_fields,
  text_field, params_field,
}
use nexus_framework.Cli.Drift.{compute_drift, drift_updates, has_drifted}
use nexus_framework.Cli.Drift.Laws.{written}
use nexus_framework.Cli.Drift.Written.{compute_drift-written}
use nexus_framework.Cli.Plan.Sorts.{Sorted, make_plan-Sorted}
use nexus_framework.Cli.Plan.{
  Live, Plan, text_at, plan_provider, plan_providers, in_manifest, plan_orphans, make_plan,
  is_empty_plan,
}
use nexus_framework.Cli.Run.{
  Call, Terminal, no_changes, fetch_item, fetch_items, fetch_live, run_command,
}
use nexus_framework.Cli.Run.Laws.{not_pruned, KeptBy, run_command-Keeps}
use nexus_framework.Cli.Run.Matches.{Matched, run_command-Matched}

abbrev alpha : Provider
alpha = record {
  name = "alpha";
  auth_type = "oauth2";
  auth_header = "";
  client_id = "";
  client_secret = "";
  auth_url = "";
  token_url = "";
  issuer = "";
  enable_discovery = false;
  scopes = some [];
  api_base_url = "";
  params = [];
}

abbrev toy_json : Value → String
toy_json null = "null"
toy_json (str s) = s
toy_json (bool true) = "true"
toy_json (bool false) = "false"
toy_json (arr no_item) = "[]"
toy_json _ = "value"

abbrev toy_encoding : Encoding
toy_encoding = record { to_json = toy_json; has_encoding = λ m. true }

abbrev alpha_profile : Assoc Value
alpha_profile =
    ("id", str "1") ∷ ("auth_type", str "oauth2") ∷ ("enable_discovery", bool false) ∷ []

abbrev old_profile : Assoc Value
old_profile = ("id", str "1") ∷ ("auth_type", str "api_key") ∷ []

abbrev new_fields : Assoc Value
new_fields = ("auth_type", str "oauth2") ∷ ("enable_discovery", bool false) ∷ []

old_profile_drifts : compute_drift toy_encoding alpha old_profile ≡ some (true, new_fields)
unfolding compute_drift drift_updates has_drifted encoded_fields provider_fields text_field
    params_field lookup
old_profile_drifts = refl

compute_drift-written_example :
    compute_drift toy_encoding alpha (written new_fields old_profile) ≡ some (false, [])
compute_drift-written_example =
    compute_drift-written toy_encoding alpha old_profile new_fields true old_profile_drifts

-- The broker counts the deletions that it is asked for, and has one profile.
abbrev toy_serve : Call → ℕ → HttpAnswer × ℕ
toy_serve c n =
    if c.method == "DELETE"
    then (answered 200 "", suc n)
    else if c.url == "http://localhost:8080/providers"
    then (answered 200 "list", n)
    else (answered 200 "profile", n)

abbrev toy_reader : List Provider → Reader
toy_reader manifest = record {
  variables = λ s. [];
  expand = λ f s. s;
  of_yaml = λ s. some manifest;
}

abbrev toy_terminal : List Provider → Terminal ℕ
toy_terminal manifest = record {
  env = λ x. none;
  file = some "providers:";
  prune = false;
  entered = some "yes";
  reader = toy_reader manifest;
  encoding = toy_encoding;
  of_json = λ s. some alpha_profile;
  of_json_list = λ s. some ((("name", str "alpha") ∷ ("id", str "1") ∷ []) ∷ []);
  finishing = λ l. l;
  ask = toy_serve;
}

nothing_to_do : run_command (toy_terminal (alpha ∷ [])) false 0 ≡ (no_changes, 0)
unfolding run_command read_manifest missing_variables fetch_live fetch_items fetch_item text_at
    lookup insert make_plan plan_providers plan_provider plan_orphans in_manifest is_empty_plan
    compute_drift drift_updates has_drifted encoded_fields provider_fields text_field params_field
nothing_to_do = refl

run_command-Matched_example : Matched (toy_terminal (alpha ∷ [])) 0 0
run_command-Matched_example =
    run_command-Matched (toy_terminal (alpha ∷ [])) false 0 0 nothing_to_do

-- A manifest that makes the command create a profile and leave one alone.
abbrev writing : Terminal ℕ
writing = toy_terminal (record alpha { name = "beta" } ∷ [])

abbrev IsUntouched : ℕ → Type 0
IsUntouched n = n ≡ 0

other_method : (method : String) → (method == "DELETE") ≡ false → KeptBy writing IsUntouched method
other_method method other c n e h = ground (arith, eq_iff c.method "DELETE", eq_iff method "DELETE")

run_command-Keeps_example : (run_command writing false 0).1 ≡ 0
run_command-Keeps_example =
    run_command-Keeps writing IsUntouched false 0 (other_method "GET" refl)
      (not_pruned refl (other_method "POST" refl) (other_method "PATCH" refl)) refl

-- A manifest with one provider that is not live, and one that has drifted.
abbrev mixed_manifest : List Provider
mixed_manifest = record alpha { name = "beta" } ∷ alpha ∷ []

abbrev mixed_live : Live
mixed_live = ("alpha", old_profile) ∷ ("gamma", ("id", str "3") ∷ []) ∷ []

abbrev mixed_plan : Plan
mixed_plan = record {
  to_create = record alpha { name = "beta" } ∷ [];
  to_update = ("1", new_fields) ∷ [];
  to_delete = "3" ∷ [];
}

mixed_is_planned : make_plan toy_encoding true mixed_manifest mixed_live ≡ ok mixed_plan
unfolding make_plan plan_providers plan_provider plan_orphans in_manifest text_at lookup insert
    compute_drift drift_updates has_drifted encoded_fields provider_fields text_field params_field
mixed_is_planned = refl

make_plan-Sorted_example : Sorted toy_encoding true mixed_manifest mixed_live mixed_plan
make_plan-Sorted_example =
    make_plan-Sorted toy_encoding true mixed_manifest mixed_live mixed_plan mixed_is_planned
