-- ===== src/Cli/Run/Matches.antt =====
-- nexus-cli/main.go: what the message means that no changes are required.
use nexus_framework.Prelude.{
  String, Bool, true, false, ◌≡◌, ◌⊎◌, inl, inr, ◌==◌, Option, none, some, List, ok, arith,
  Bool-cases, Result-cases,
}
use nexus_framework.Prelude.Text.{trim_space}
use nexus_framework.Cli.Manifest.{Provider, read_manifest}
use nexus_framework.Cli.Plan.{Live, Plan, make_plan, is_empty_plan}
use nexus_framework.Cli.Plan.Laws.{AllMatch, AllListed, make_plan-AllMatch}
use nexus_framework.Cli.Run.{
  Terminal, no_changes, fetch_live, apply_plan, confirmed, carry_out, run_command,
}

module _ {S : Type 0} (t : Terminal S) where
  apply_plan-applies : (plan : Plan) (s : S) → ¬ ((apply_plan t plan s).0 ≡ no_changes)
  unfolding apply_plan
  apply_plan-applies plan s e = ground arith

  confirmed-changes :
      (entered : Option String) (plan : Plan) (s : S)
      → ¬ ((confirmed t entered plan s).0 ≡ no_changes)
  confirmed-changes none plan s e = ground arith
  confirmed-changes (some line) plan s e = elim (Bool-cases (trim_space line == "yes")) [
    | inl agreed ↦ apply_plan-applies plan s (ground arith)
    | inr other ↦ ground arith
  ]

  carry_out-is_empty_plan :
      (is_plan_only : Bool) (plan : Plan) (s end : S)
      → carry_out t is_plan_only plan s ≡ (no_changes, end)
      → (is_empty_plan plan ≡ true) × (s ≡ end)
  carry_out-is_empty_plan is_plan_only plan s end e = elim (Bool-cases (is_empty_plan plan)) [
    | inl empty ↦ (empty, ground arith)
    | inr changing ↦ elim (Bool-cases is_plan_only) [
      | inl planning ↦ absurd (ground arith)
      | inr applying ↦ absurd (confirmed-changes t.entered plan s (ground arith))
    ]
  ]

  -- The manifest is read, the live profiles are fetched, and nothing else is asked of the broker.
  pub record Matched (s end : S) : Type 0 where
    pub manifest : List Provider
    pub live : Live
    pub reads : read_manifest t.reader t.env t.file ≡ ok manifest
    pub fetches : fetch_live t s ≡ (ok live, end)
    pub matches : AllMatch t.encoding live manifest
    pub listed : (t.prune ≡ false) ⊎ AllListed manifest live

  either_listed : {A : Type 0} → (t.prune ≡ true → A) → (t.prune ≡ false) ⊎ A
  either_listed listed = elim (Bool-cases t.prune) [ inl on ↦ inr (listed on) | inr off ↦ inl off ]

  -- A command that ends with the message that no changes are required has read a manifest and
  -- fetched the live profiles and has done nothing more. Every provider of the manifest is live, and
  -- each field that is compared has the live one's JSON text or is blank where that is absent; with
  -- --prune, every live provider is in the manifest.
  pub run_command-Matched :
      (is_plan_only : Bool) (s end : S)
      → run_command t is_plan_only s ≡ (no_changes, end)
      → Matched s end
  unfolding run_command
  run_command-Matched is_plan_only s end e =
      elim (Result-cases (read_manifest t.reader t.env t.file)) [
        | inl (manifest, reads) ↦ elim (Result-cases (fetch_live t s).0) [
          | inl (live, fetches) ↦ elim (Result-cases (make_plan t.encoding t.prune manifest live)) [
            | inl (plan, made) ↦
                let out : carry_out t is_plan_only plan (fetch_live t s).1 ≡ (no_changes, end) =
                  ground arith in
                let (empty, same) =
                  carry_out-is_empty_plan is_plan_only plan (fetch_live t s).1 end out in
                let (matches, listed) =
                  make_plan-AllMatch t.encoding t.prune manifest live plan made empty in
                record {
                  manifest = manifest;
                  live = live;
                  reads = reads;
                  fetches = ground arith;
                  matches = matches;
                  listed = either_listed listed;
                }
            | inr (reason, failed) ↦ absurd (ground arith)
          ]
          | inr (reason, failed) ↦ absurd (ground arith)
        ]
        | inr (reason, failed) ↦ absurd (ground arith)
      ]
