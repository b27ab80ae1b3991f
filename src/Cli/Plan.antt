-- ===== src/Cli/Plan.antt =====
-- nexus-cli/main.go: the execution plan of runCommand. What it prints is left out.
pub mod Laws
pub mod Steps
pub mod Sorts
use nexus_framework.Prelude.{
  String, Bool, true, false, Option, none, some, List, [], ◌∷◌, ◌++◌, ◌==◌, if◌then◌else◌, Result,
  ok, err, ◌>>=◌,
}
use nexus_framework.Prelude.Maps.{Assoc, lookup, insert}
use nexus_framework.Json.{Value, str}
use nexus_framework.Cli.Manifest.{Provider, Encoding, Fatal, no_live_id, no_drift_computed}
use nexus_framework.Cli.Drift.{compute_drift}

-- The names of the live providers with their profiles.
abbrev pub Live : Type 0
Live = Assoc (Assoc Value)

pub record Plan : Type 0 where
  pub to_create : List Provider
  pub to_update : Assoc (Assoc Value)
  pub to_delete : List String

abbrev pub empty_plan : Plan
empty_plan = record { to_create = []; to_update = []; to_delete = [] }

-- v, ok := m[k].(string)
abbrev asserted : Option Value → Option String
asserted (some (str s)) = some s
asserted _ = none

unfoldable pub text_at : String → Assoc Value → Option String
text_at k m = asserted (lookup k m)

abbrev pub plan_drift : String → String → Option (Bool × Assoc Value) → Plan → Result Fatal Plan
plan_drift name id none plan = err (no_drift_computed name)
plan_drift name id (some (true, updates)) plan =
    ok (record plan { to_update = insert id updates plan.to_update })
plan_drift name id (some (false, updates)) plan = ok plan

abbrev pub plan_live : Encoding → Provider → Assoc Value → Option String → Plan → Result Fatal Plan
plan_live enc p live none plan = err (no_live_id p.name)
plan_live enc p live (some id) plan = plan_drift p.name id (compute_drift enc p live) plan

-- A provider of the manifest is created, updated or left as it is.
abbrev pub plan_found : Encoding → Provider → Option (Assoc Value) → Plan → Result Fatal Plan
plan_found enc p none plan = ok (record plan { to_create = plan.to_create ++ p ∷ [] })
plan_found enc p (some profile) plan = plan_live enc p profile (text_at "id" profile) plan

unfoldable pub plan_provider : Encoding → Live → Provider → Plan → Result Fatal Plan
plan_provider enc live p plan = plan_found enc p (lookup p.name live) plan

unfoldable pub plan_providers : Encoding → Live → List Provider → Plan → Result Fatal Plan
plan_providers enc live [] plan = ok plan
plan_providers enc live (p ∷ ps) plan =
    plan_provider enc live p plan >>= (λ next. plan_providers enc live ps next)

unfoldable pub in_manifest : String → List Provider → Bool
in_manifest name [] = false
in_manifest name (p ∷ ps) = if p.name == name then true else in_manifest name ps

abbrev pub delete_live : String → Option String → Plan → Result Fatal Plan
delete_live name none plan = err (no_live_id name)
delete_live name (some id) plan = ok (record plan { to_delete = plan.to_delete ++ id ∷ [] })

-- A live provider that the manifest does not have is deleted with --prune.
unfoldable pub plan_orphans : Bool → List Provider → Live → Plan → Result Fatal Plan
plan_orphans prune manifest [] plan = ok plan
plan_orphans prune manifest ((name, profile) ∷ live) plan =
    (if in_manifest name manifest
      then ok plan
      else if prune
      then delete_live name (text_at "id" profile) plan
      else ok plan)
    >>= (λ next. plan_orphans prune manifest live next)

unfoldable pub make_plan : Encoding → Bool → List Provider → Live → Result Fatal Plan
make_plan enc prune manifest live =
    plan_providers enc live manifest empty_plan >>= (λ plan. plan_orphans prune manifest live plan)

-- Whether a plan changes nothing.
abbrev pub is_nothing : List Provider → Assoc (Assoc Value) → List String → Bool
is_nothing [] [] [] = true
is_nothing _ _ _ = false

unfoldable pub is_empty_plan : Plan → Bool
is_empty_plan plan = is_nothing plan.to_create plan.to_update plan.to_delete
