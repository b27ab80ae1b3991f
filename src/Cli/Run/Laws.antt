-- ===== src/Cli/Run/Laws.antt =====
-- nexus-cli/main.go: what a command may do to the broker, and what the message that nothing has to
-- be changed means.
use nexus_framework.Prelude.{
  String, Bool, true, false, ◌≡◌, ◌≢◌, refl, sym, subst, ap, ◌∙◌, ◌⊎◌, inl, inr, ◌==◌, Option, none,
  some, List, [], ◌∷◌, Result, ok, err, arith, eq_iff, Bool-cases, Result-cases,
}
use nexus_framework.Prelude.Text.{trim_space}
use nexus_framework.Prelude.Maps.{Assoc}
use nexus_framework.Json.{Value}
use nexus_framework.Cli.Manifest.{Provider, Fatal, read_manifest, encoded_fields}
use nexus_framework.Cli.Plan.{Live, Plan, make_plan, is_empty_plan, text_at}
use nexus_framework.Cli.Plan.Sorts.{make_plan-to_delete}
use nexus_framework.Cli.Run.{
  Call, Terminal, fetch_item, fetch_items, fetch_listed, fetch_live, create_encoded, apply_creates,
  apply_updates, apply_deletes, apply_plan, confirmed, carry_out, planned_run, live_run,
  run_command, decoded_list, call,
}

module _ {S : Type 0} (t : Terminal S) where
  -- A predicate on the broker's states that the calls of a method keep.
  abbrev pub KeptBy : (S → Type 0) → String → Type 0
  KeptBy P method = (c : Call) (s : S) → c.method ≡ method → P s → P (t.ask c s).1

  -- The user does not agree.
  abbrev pub IsRefused : Option String → Type 0
  IsRefused none = Unit
  IsRefused (some line) = trim_space line ≢ "yes"

  -- Why a property of the broker is out of a command's reach: nothing is written, nothing is deleted
  -- and the other writes keep it, or all writes keep it.
  pub data IsSafe (P : S → Type 0) (is_plan_only : Bool) : Type 0 where
    plans : is_plan_only ≡ true → IsSafe P is_plan_only
    refused : IsRefused t.entered → IsSafe P is_plan_only
    not_pruned : t.prune ≡ false → KeptBy P "POST" → KeptBy P "PATCH" → IsSafe P is_plan_only
    written : KeptBy P "POST" → KeptBy P "PATCH" → KeptBy P "DELETE" → IsSafe P is_plan_only

  module _ (P : S → Type 0) where
    fetch_item-Keeps :
        KeptBy P "GET"
        → (name id : Option String) (live : Result Fatal Live) (s : S) → P s
        → P (fetch_item t name id live s).1
    unfolding fetch_item
    fetch_item-Keeps get (some name) (some id) live s h = get _ s refl h
    fetch_item-Keeps get (some name) none live s h = h
    fetch_item-Keeps get none id live s h = h

    fetch_items-Keeps :
        KeptBy P "GET"
        → (l : List (Assoc Value)) (live : Result Fatal Live) (s : S) → P s
        → P (fetch_items t l live s).1
    unfolding fetch_items
    fetch_items-Keeps get [] live s h = h
    fetch_items-Keeps get (p ∷ l) live s h =
        let (next, after) = fetch_item t (text_at "name" p) (text_at "id" p) live s in
        fetch_items-Keeps get l next after
          (fetch_item-Keeps get (text_at "name" p) (text_at "id" p) live s h)

    fetch_listed-Keeps :
        KeptBy P "GET" → (l : Option (List (Assoc Value))) (s : S) → P s → P (fetch_listed t l s).1
    fetch_listed-Keeps get none s h = h
    fetch_listed-Keeps get (some l) s h = fetch_items-Keeps get (t.finishing l) (ok []) s h

    fetch_live-Keeps : KeptBy P "GET" → (s : S) → P s → P (fetch_live t s).1
    unfolding fetch_live
    fetch_live-Keeps get s h =
        let c = call t "GET" "/providers" none in
        let (answer, after) = t.ask c s in
        fetch_listed-Keeps get (decoded_list t answer) after (get c s refl h)

    create_encoded-Keeps :
        KeptBy P "POST"
        → (fields : Option (Assoc Value)) (s : S) → P s
        → P (create_encoded t fields s).1
    create_encoded-Keeps post none s h = h
    create_encoded-Keeps post (some fields) s h = post _ s refl h

    apply_creates-Keeps :
        KeptBy P "POST" → (ps : List Provider) (s : S) → P s → P (apply_creates t ps s).1
    unfolding apply_creates
    apply_creates-Keeps post [] s h = h
    apply_creates-Keeps post (p ∷ ps) s h =
        let fields = encoded_fields t.encoding p in
        apply_creates-Keeps post ps (create_encoded t fields s).1
          (create_encoded-Keeps post fields s h)

    apply_updates-Keeps :
        KeptBy P "PATCH" → (l : Assoc (Assoc Value)) (s : S) → P s → P (apply_updates t l s).1
    unfolding apply_updates
    apply_updates-Keeps patch [] s h = h
    apply_updates-Keeps patch ((id, updates) ∷ l) s h =
        apply_updates-Keeps patch l _ (patch _ s refl h)

    apply_deletes-Keeps :
        KeptBy P "DELETE" → (l : List String) (s : S) → P s → P (apply_deletes t l s).1
    unfolding apply_deletes
    apply_deletes-Keeps delete [] s h = h
    apply_deletes-Keeps delete (id ∷ l) s h = apply_deletes-Keeps delete l _ (delete _ s refl h)

    no_deletes : (s : S) → P s → P (apply_deletes t [] s).1
    unfolding apply_deletes
    no_deletes s h = h

    apply_plan-Keeps :
        KeptBy P "POST"
        → KeptBy P "PATCH"
        → (plan : Plan) → (plan.to_delete ≡ []) ⊎ KeptBy P "DELETE"
        → (s : S) → P s
        → P (apply_plan t plan s).1
    unfolding apply_plan
    apply_plan-Keeps post patch plan deletes s h =
        let created = apply_creates-Keeps post plan.to_create s h in
        let s₁ = (apply_creates t plan.to_create s).1 in
        let updated = apply_updates-Keeps patch plan.to_update s₁ created in
        let s₂ = (apply_updates t plan.to_update s₁).1 in
        elim deletes [
          | inl nothing ↦
              subst (λ l. P (apply_deletes t l s₂).1) (sym nothing) (no_deletes s₂ updated)
          | inr delete ↦ apply_deletes-Keeps delete plan.to_delete s₂ updated
        ]

    confirmed-Keeps :
        (is_plan_only : Bool) (plan : Plan) (entered : Option String)
        → entered ≡ t.entered
        → is_plan_only ≡ false
        → ((t.prune ≡ false) → plan.to_delete ≡ [])
        → IsSafe P is_plan_only
        → (s : S) → P s
        → P (confirmed t entered plan s).1
    confirmed-Keeps is_plan_only plan none entered on deletes safe s h = h
    confirmed-Keeps is_plan_only plan (some line) entered on deletes safe s h =
        elim (Bool-cases (trim_space line == "yes")) [
          | inl agreed ↦ rw agreed (agreed_run safe agreed)
          | inr other ↦ rw other h
        ]
      where
        agreed_run :
            IsSafe P is_plan_only → (trim_space line == "yes") ≡ true → P (apply_plan t plan s).1
        agreed_run (plans planning) agreed = absurd (ground arith)
        agreed_run (refused no_leave) agreed =
            absurd
              (subst IsRefused (sym entered) no_leave ((eq_iff (trim_space line) "yes").0 agreed))
        agreed_run (not_pruned kept post patch) agreed =
            apply_plan-Keeps post patch plan (inl (deletes kept)) s h
        agreed_run (written post patch delete) agreed =
            apply_plan-Keeps post patch plan (inr delete) s h

    carry_out-Keeps :
        (is_plan_only : Bool) (plan : Plan)
        → ((t.prune ≡ false) → plan.to_delete ≡ [])
        → IsSafe P is_plan_only
        → (s : S) → P s
        → P (carry_out t is_plan_only plan s).1
    carry_out-Keeps is_plan_only plan deletes safe s h = elim (Bool-cases (is_empty_plan plan)) [
      | inl empty ↦ rw empty h
      | inr changing ↦ elim (Bool-cases is_plan_only) [
        | inl planning ↦ rw (changing, planning) h
        | inr applying ↦ rw changing (
            rw applying
              (confirmed-Keeps is_plan_only plan t.entered refl applying deletes safe s h))
      ]
    ]

    planned_run-Keeps :
        (is_plan_only : Bool) (manifest : List Provider) (live : Live)
        → IsSafe P is_plan_only
        → (s : S) → P s
        → P (planned_run t is_plan_only (make_plan t.encoding t.prune manifest live) s).1
    planned_run-Keeps is_plan_only manifest live safe s h =
        elim (Result-cases (make_plan t.encoding t.prune manifest live)) [
          | inl (plan, made) ↦ rw made (
              carry_out-Keeps is_plan_only plan
                (λ off.
                  make_plan-to_delete t.encoding manifest live plan
                    (ap (λ b. make_plan t.encoding b manifest live) (sym off) ∙ made))
                safe s h)
          | inr (reason, failed) ↦ rw failed h
        ]

    live_run-Keeps :
        (is_plan_only : Bool) (manifest : List Provider) (live : Result Fatal Live) (s : S)
        → IsSafe P is_plan_only
        → P s
        → P (live_run t is_plan_only manifest (live, s)).1
    live_run-Keeps is_plan_only manifest (err e) s safe h = h
    live_run-Keeps is_plan_only manifest (ok live) s safe h =
        planned_run-Keeps is_plan_only manifest live safe s h

  -- The state that a command leaves the broker in has every property that GET calls keep, if the
  -- command only plans or the user does not enter yes; every property that GET, POST and PATCH calls
  -- keep, without --prune; and in any case every property that these and DELETE calls keep.
  pub run_command-Keeps :
      (P : S → Type 0) (is_plan_only : Bool) (s : S)
      → KeptBy P "GET"
      → IsSafe P is_plan_only
      → P s
      → P (run_command t is_plan_only s).1
  unfolding run_command
  run_command-Keeps P is_plan_only s get safe h =
      elim (Result-cases (read_manifest t.reader t.env t.file)) [
        | inl (manifest, reads) ↦
            let (fetched, after) = fetch_live t s in
            rw reads (
              live_run-Keeps P is_plan_only manifest fetched after safe
                (fetch_live-Keeps P get s h))
        | inr (reason, failed) ↦ rw failed h
      ]
