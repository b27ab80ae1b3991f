-- ===== src/Cli/Plan/Sorts.antt =====
-- nexus-cli/main.go: what a plan creates, updates and deletes.
use nexus_framework.Prelude.{
  String, Bool, true, false, ◌||◌, ◌==◌, ◌≡◌, refl, sym, subst, ap, ◌∙◌, inl, inr, Option, none,
  some, List, [], ◌∷◌, ◌++◌, ok, arith, Option-cases, Result-cases, Bool-cases,
}
use nexus_framework.Prelude.Maps.{lookup}
use nexus_framework.Cli.Manifest.{Provider, Encoding}
use nexus_framework.Cli.Plan.{
  Live, Plan, empty_plan, plan_providers, in_manifest, plan_orphans, make_plan, text_at,
}
use nexus_framework.Cli.Plan.Steps.{
  not_live, wanted, first-none, AllHandled, append_nothing, append_assoc, plan_providers-Steps,
}

-- Whether a provider of the manifest has a name.
abbrev pub has_name : String → List Provider → Bool
has_name name [] = false
has_name name (p ∷ ps) = p.name == name || has_name name ps

in_manifest-has_name : (name : String) (ps : List Provider) → in_manifest name ps ≡ has_name name ps
unfolding in_manifest
in_manifest-has_name name [] = refl
in_manifest-has_name name (p ∷ ps) = ground (arith, in_manifest-has_name name ps)

-- The identifiers of the live providers that a manifest does not have.
abbrev deletes_if : Bool → Option String → List String
deletes_if true id = []
deletes_if false none = []
deletes_if false (some id) = id ∷ []

unfoldable pub orphans : List Provider → Live → List String
orphans manifest [] = []
orphans manifest ((name, profile) ∷ live) =
    deletes_if (has_name name manifest) (text_at "id" profile) ++ orphans manifest live

abbrev pub deletions : Bool → List Provider → Live → List String
deletions true manifest live = orphans manifest live
deletions false manifest live = []

-- What the loop over the live providers does to a plan.
record Orphaned (prune : Bool) (manifest : List Provider) (live : Live) (plan next : Plan)
    : Type 0 where
  creates : next.to_create ≡ plan.to_create
  updates : next.to_update ≡ plan.to_update
  deletes : next.to_delete ≡ plan.to_delete ++ deletions prune manifest live

plan_orphans-Orphaned :
    (prune : Bool) (manifest : List Provider) (live : Live) (plan next : Plan)
    → plan_orphans prune manifest live plan ≡ ok next
    → Orphaned prune manifest live plan next
unfolding plan_orphans orphans
plan_orphans-Orphaned false manifest [] plan next e =
    let same : plan ≡ next = ground arith in
    subst (Orphaned false manifest [] plan) same
      (record { creates = refl; updates = refl; deletes = sym (append_nothing plan.to_delete) })
plan_orphans-Orphaned true manifest [] plan next e =
    let same : plan ≡ next = ground arith in
    subst (Orphaned true manifest [] plan) same
      (record { creates = refl; updates = refl; deletes = sym (append_nothing plan.to_delete) })
plan_orphans-Orphaned false manifest ((name, profile) ∷ live) plan next e =
    let later : plan_orphans false manifest live plan ≡ ok next = ground arith in
    let rest = plan_orphans-Orphaned false manifest live plan next later in
    record { creates = rest.creates; updates = rest.updates; deletes = rest.deletes }
plan_orphans-Orphaned true manifest ((name, profile) ∷ live) plan next e =
    let same_test = in_manifest-has_name name manifest in
    elim (Bool-cases (has_name name manifest)) [
      | inl listed ↦
          let later : plan_orphans true manifest live plan ≡ ok next = ground arith in
          let rest = plan_orphans-Orphaned true manifest live plan next later in
          record {
            creates = rest.creates;
            updates = rest.updates;
            deletes = rw listed rest.deletes;
          }
      | inr orphan ↦ elim (Option-cases (text_at "id" profile)) [
        | inl none_there ↦ absurd (ground arith)
        | inr (id, there) ↦
            let more : Plan = record plan { to_delete = plan.to_delete ++ id ∷ [] } in
            let later : plan_orphans true manifest live more ≡ ok next = ground arith in
            let rest = plan_orphans-Orphaned true manifest live more next later in
            record {
              creates = rest.creates;
              updates = rest.updates;
              deletes = rw orphan (
                  rw there
                    (rest.deletes ∙ append_assoc plan.to_delete (id ∷ []) (orphans manifest live)));
            }
      ]
    ]

-- The plan: what it creates, updates and deletes, by the fetched profiles and the manifest alone.
pub record Sorted (enc : Encoding) (prune : Bool) (manifest : List Provider) (live : Live)
    (plan : Plan) : Type 0 where
  pub creates : plan.to_create ≡ not_live live manifest
  pub deletes : plan.to_delete ≡ deletions prune manifest live
  pub handled : AllHandled enc live plan.to_update manifest
  pub updates : (id : String) → lookup id plan.to_update ≡ wanted enc live manifest id

-- A plan creates exactly the providers of the manifest that are not live, in their order; it deletes
-- exactly the identifiers of the live providers that the manifest does not have, with --prune, and
-- nothing without; and each provider of the manifest is not live, has not drifted, or has drifted and
-- has an update under the identifier of its live profile. Under each identifier it sends exactly the
-- fields of the drift of the last provider of the manifest with a drift from a live profile of that
-- identifier, and there is no other update.
pub make_plan-Sorted :
    (enc : Encoding) (prune : Bool) (manifest : List Provider) (live : Live) (plan : Plan)
    → make_plan enc prune manifest live ≡ ok plan
    → Sorted enc prune manifest live plan
unfolding make_plan lookup
make_plan-Sorted enc prune manifest live plan e =
    elim (Result-cases (plan_providers enc live manifest empty_plan)) [
      | inr (reason, failed) ↦ absurd (ground arith)
      | inl (mid, first) ↦
          let later : plan_orphans prune manifest live mid ≡ ok plan = ground arith in
          let steps = plan_providers-Steps enc live manifest empty_plan mid first in
          let rest = plan_orphans-Orphaned prune manifest live mid plan later in
          record {
            creates = rest.creates ∙ steps.creates;
            deletes = rest.deletes ∙ ap (λ l. l ++ deletions prune manifest live) steps.deletes;
            handled = subst (λ u. AllHandled enc live u manifest) (sym rest.updates) steps.handled;
            updates = (λ k.
                ap (lookup k) rest.updates
                ∙ steps.updates k
                ∙ first-none (wanted enc live manifest k));
          }
    ]

-- Without --prune a plan deletes nothing.
pub make_plan-to_delete :
    (enc : Encoding) (manifest : List Provider) (live : Live) (plan : Plan)
    → make_plan enc false manifest live ≡ ok plan
    → plan.to_delete ≡ []
make_plan-to_delete enc manifest live plan e =
    (make_plan-Sorted enc false manifest live plan e).deletes
