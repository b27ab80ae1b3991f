-- ===== src/Cli/Plan/Laws.antt =====
-- nexus-cli/main.go: what an empty plan means, and that nothing is deleted without --prune.
use nexus_framework.Prelude.{
  String, ◌⊎◌, Bool, true, false, ◌≡◌, refl, sym, subst, ap, ◌∙◌, ◌==◌, inl, inr, Option, none,
  some, List, [], ◌∷◌, ◌++◌, ok, arith, eq_iff, Option-cases, Bool-cases, Result-cases,
}
use nexus_framework.Prelude.Maps.{Assoc, lookup, insert}
use nexus_framework.Json.{Value}
use nexus_framework.Cli.Manifest.{Provider, Encoding, encoded_fields}
use nexus_framework.Cli.Drift.{compute_drift}
use nexus_framework.Cli.Drift.Laws.{Fits}
use nexus_framework.Cli.Drift.Written.{compute_drift-Fits}
use nexus_framework.Cli.Plan.{
  Live, Plan, empty_plan, is_nothing, plan_drift, plan_live, plan_found, plan_provider,
  plan_providers, in_manifest, plan_orphans, make_plan, text_at, is_empty_plan,
}

-- A provider is live, with the fields that the manifest writes.
pub record Matches (enc : Encoding) (live : Live) (p : Provider) : Type 0 where
  pub profile : Assoc Value
  pub fields : Assoc Value
  pub is_live : lookup p.name live ≡ some profile
  pub encodes : encoded_fields enc p ≡ some fields
  pub fits : Fits enc.to_json fields profile

abbrev pub AllMatch : Encoding → Live → List Provider → Type 0
AllMatch enc live [] = Unit
AllMatch enc live (p ∷ ps) = Matches enc live p × AllMatch enc live ps

-- A provider of the manifest has a name.
abbrev pub IsNamed : String → List Provider → Type 0
IsNamed name [] = ⊥
IsNamed name (p ∷ ps) = (p.name ≡ name) ⊎ IsNamed name ps

in_manifest-IsNamed :
    (name : String) (ps : List Provider) → in_manifest name ps ≡ true → IsNamed name ps
unfolding in_manifest
in_manifest-IsNamed name [] e = absurd (ground arith)
in_manifest-IsNamed name (p ∷ ps) e =
    ground (arith, in_manifest-IsNamed name ps, eq_iff p.name name)

abbrev pub AllListed : List Provider → Live → Type 0
AllListed manifest [] = Unit
AllListed manifest ((name, profile) ∷ live) = IsNamed name manifest × AllListed manifest live

-- Nothing to create, update or delete.
abbrev NoChange : Plan → Type 0
NoChange plan = (plan.to_create ≡ []) × (plan.to_update ≡ []) × (plan.to_delete ≡ [])

is_nothing-NoChange :
    (creates : List Provider) (updates : Assoc (Assoc Value)) (deletes : List String)
    → is_nothing creates updates deletes ≡ true
    → (creates ≡ []) × (updates ≡ []) × (deletes ≡ [])
is_nothing-NoChange [] [] [] e = (refl, refl, refl)
is_nothing-NoChange [] [] (_ ∷ _) e = cc
is_nothing-NoChange [] (_ ∷ _) deletes e = cc
is_nothing-NoChange (_ ∷ _) updates deletes e = cc

append-not-empty : {A : Type 0} (l : List A) (x : A) → ¬ ((l ++ x ∷ []) ≡ [])
append-not-empty [] x e = cc
append-not-empty (y ∷ l) x e = cc

insert-not-empty : (k : String) (v : Assoc Value) (l : Live) → ¬ (insert k v l ≡ [])
unfolding insert
insert-not-empty k v [] e = cc
insert-not-empty k v (x ∷ l) e = elim (Bool-cases (x.0 == k)) [
  | inl same ↦ ground arith
  | inr other ↦ ground arith
]

plan_drift-NoChange :
    (name id : String) (o : Option (Bool × Assoc Value)) (plan next : Plan)
    → plan_drift name id o plan ≡ ok next
    → NoChange next
    → ((updates : Assoc Value) × (o ≡ some (false, updates))) × NoChange plan
plan_drift-NoChange name id none plan next e h = cc
plan_drift-NoChange name id (some (false, updates)) plan next e h =
    let same : next ≡ plan = cc in ((updates, refl), subst NoChange same h)
plan_drift-NoChange name id (some (true, updates)) plan next e h =
    let same : record plan { to_update = insert id updates plan.to_update } ≡ next = cc in
    absurd
      (insert-not-empty id updates plan.to_update (subst (λ n. n.to_update ≡ []) (sym same) h.1))

plan_found-NoChange :
    (enc : Encoding) (live : Live) (p : Provider) (o : Option (Assoc Value)) (plan next : Plan)
    → lookup p.name live ≡ o
    → plan_found enc p o plan ≡ ok next
    → NoChange next
    → Matches enc live p × NoChange plan
plan_found-NoChange enc live p none plan next found e h =
    let same : record plan { to_create = plan.to_create ++ p ∷ [] } ≡ next = cc in
    absurd (append-not-empty plan.to_create p (subst (λ n. n.to_create ≡ []) (sym same) h.0))
plan_found-NoChange enc live p (some profile) plan next found e h =
    elim (Option-cases (text_at "id" profile)) [
      | inl none_there ↦ absurd (ground arith)
      | inr (id, there) ↦
          let step : plan_drift p.name id (compute_drift enc p profile) plan ≡ ok next =
            ap (λ o. plan_live enc p profile o plan) (sym there) ∙ e in
          let ((updates, computed), kept) =
            plan_drift-NoChange p.name id (compute_drift enc p profile) plan next step h in
          let (fields, encodes, fits) = compute_drift-Fits enc p profile updates computed in
          (
            record {
              profile = profile;
              fields = fields;
              is_live = found;
              encodes = encodes;
              fits = fits;
            },
            kept,
          )
    ]

plan_providers-NoChange :
    (enc : Encoding) (live : Live) (ps : List Provider) (plan next : Plan)
    → plan_providers enc live ps plan ≡ ok next
    → NoChange next
    → AllMatch enc live ps × NoChange plan
unfolding plan_providers plan_provider
plan_providers-NoChange enc live [] plan next e h =
    let same : next ≡ plan = cc in (tt, subst NoChange same h)
plan_providers-NoChange enc live (p ∷ ps) plan next e h =
    elim (Result-cases (plan_provider enc live p plan)) [
      | inl (mid, step) ↦
          let later : plan_providers enc live ps mid ≡ ok next = cc in
          let (rest, kept) = plan_providers-NoChange enc live ps mid next later h in
          let (first, start) =
            plan_found-NoChange enc live p (lookup p.name live) plan mid refl step kept in
          ((first, rest), start)
      | inr (reason, failed) ↦ absurd (ground arith)
    ]

plan_orphans-NoChange :
    (prune : Bool) (manifest : List Provider) (live : Live) (plan next : Plan)
    → plan_orphans prune manifest live plan ≡ ok next
    → NoChange next
    → (prune ≡ true → AllListed manifest live) × NoChange plan
unfolding plan_orphans
plan_orphans-NoChange prune manifest [] plan next e h =
    let same : next ≡ plan = cc in ((λ _. tt), subst NoChange same h)
plan_orphans-NoChange false manifest ((name, profile) ∷ live) plan next e h =
    let later : plan_orphans false manifest live plan ≡ ok next = ground arith in
    ((λ on. absurd (ground arith)), (plan_orphans-NoChange false manifest live plan next later h).1)
plan_orphans-NoChange true manifest ((name, profile) ∷ live) plan next e h =
    elim (Bool-cases (in_manifest name manifest)) [
      | inl listed ↦
          let later : plan_orphans true manifest live plan ≡ ok next = ground arith in
          let (rest, kept) = plan_orphans-NoChange true manifest live plan next later h in
          ((λ on. (in_manifest-IsNamed name manifest listed, rest on)), kept)
      | inr orphan ↦ elim (Option-cases (text_at "id" profile)) [
        | inl none_there ↦ absurd (ground arith)
        | inr (id, there) ↦
            let more : Plan = record plan { to_delete = plan.to_delete ++ id ∷ [] } in
            let later : plan_orphans true manifest live more ≡ ok next = ground arith in
            absurd (
              append-not-empty plan.to_delete id
                (plan_orphans-NoChange true manifest live more next later h).1.2)
      ]
    ]

-- An empty plan: every provider of the manifest is live with the fields that it writes, and with
-- --prune every live provider is in the manifest.
pub make_plan-AllMatch :
    (enc : Encoding) (prune : Bool) (manifest : List Provider) (live : Live) (plan : Plan)
    → make_plan enc prune manifest live ≡ ok plan
    → is_empty_plan plan ≡ true
    → AllMatch enc live manifest × (prune ≡ true → AllListed manifest live)
unfolding make_plan is_empty_plan
make_plan-AllMatch enc prune manifest live plan e empty =
    let h = is_nothing-NoChange plan.to_create plan.to_update plan.to_delete empty in
    elim (Result-cases (plan_providers enc live manifest empty_plan)) [
      | inl (mid, first) ↦
          let later : plan_orphans prune manifest live mid ≡ ok plan = cc in
          let (listed, kept) = plan_orphans-NoChange prune manifest live mid plan later h in
          ((plan_providers-NoChange enc live manifest empty_plan mid first kept).0, listed)
      | inr (reason, failed) ↦ absurd (ground arith)
    ]
