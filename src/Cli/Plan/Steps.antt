-- ===== src/Cli/Plan/Steps.antt =====
-- nexus-cli/main.go: what the loop over the manifest does to a plan.
use nexus_framework.Prelude.{
  String, Bool, true, false, ◌≡◌, refl, sym, subst, ap, ◌∙◌, inl, inr, Option, none, some, List, [],
  ◌∷◌, ◌++◌, ok, arith, Option-cases, Result-cases, Bool-cases, ◌==◌, if◌then◌else◌,
}
use nexus_framework.Prelude.Maps.{Assoc, lookup, insert, lookup-insert, lookup-insert_self}
use nexus_framework.Json.{Value}
use nexus_framework.Cli.Manifest.{Provider, Encoding}
use nexus_framework.Cli.Drift.{compute_drift}
use nexus_framework.Cli.Plan.{Live, Plan, plan_drift, plan_provider, plan_providers, text_at}

-- The providers of a manifest that are not live.
abbrev pub creates_if : Option (Assoc Value) → Provider → List Provider
creates_if none p = p ∷ []
creates_if (some profile) p = []

unfoldable pub not_live : Live → List Provider → List Provider
not_live live [] = []
not_live live (p ∷ ps) = creates_if (lookup p.name live) p ++ not_live live ps

-- A provider of the manifest is not live, has not drifted, or is updated under its identifier.
pub data Handled (enc : Encoding) (live : Live) (updates : Live) (p : Provider) : Type 0 where
  absent : lookup p.name live ≡ none → Handled enc live updates p
  unchanged :
      (profile fields : Assoc Value)
      → lookup p.name live ≡ some profile
      → compute_drift enc p profile ≡ some (false, fields)
      → Handled enc live updates p
  updated :
      (profile fields sent : Assoc Value) (id : String)
      → lookup p.name live ≡ some profile
      → text_at "id" profile ≡ some id
      → compute_drift enc p profile ≡ some (true, fields)
      → lookup id updates ≡ some sent
      → Handled enc live updates p

abbrev pub AllHandled : Encoding → Live → Live → List Provider → Type 0
AllHandled enc live updates [] = Unit
AllHandled enc live updates (p ∷ ps) = Handled enc live updates p × AllHandled enc live updates ps

-- The first of two options that is there.
abbrev pub first : {A : Type 0} → Option A → Option A → Option A
first (some a) o = some a
first none o = o

-- The update under an identifier that a provider asks for: the fields of its drift, if this is the
-- identifier of its live profile.
abbrev drifted : String → Option String → Option (Bool × Assoc Value) → Option (Assoc Value)
drifted id none drift = none
drifted id (some own) none = none
drifted id (some own) (some (false, fields)) = none
drifted id (some own) (some (true, fields)) = if own == id then some fields else none

abbrev update_for : Encoding → Provider → String → Option (Assoc Value) → Option (Assoc Value)
update_for enc p id none = none
update_for enc p id (some profile) = drifted id (text_at "id" profile) (compute_drift enc p profile)

-- The fields that a manifest has to send under an identifier: those of its last provider with a
-- drift from a live profile of that identifier.
unfoldable pub wanted : Encoding → Live → List Provider → String → Option (Assoc Value)
wanted enc live [] id = none
wanted enc live (p ∷ ps) id =
    first (wanted enc live ps id) (update_for enc p id (lookup p.name live))

pub first-none : {A : Type 0} (o : Option A) → first o none ≡ o
first-none none = refl
first-none (some a) = refl

first_assoc : {A : Type 0} (o p q : Option A) → first o (first p q) ≡ first (first o p) q
first_assoc none p q = refl
first_assoc (some a) p q = refl

-- Every key stays.
abbrev pub Grows : Live → Live → Type 0
Grows l m =
    (id : String) (u : Assoc Value)
    → lookup id l ≡ some u
    → (v : Assoc Value) × (lookup id m ≡ some v)

Grows-insert : (id : String) (u : Assoc Value) (l : Live) → Grows l (insert id u l)
Grows-insert id u l other v e = elim (Bool-cases (id == other)) [
  | inl same ↦ (u, lookup-insert id other u l ∙ ground arith)
  | inr apart ↦ (v, lookup-insert id other u l ∙ ground arith)
]

-- What one step does to a plan.
record Step (enc : Encoding) (live : Live) (p : Provider) (plan next : Plan) : Type 0 where
  creates : next.to_create ≡ plan.to_create ++ creates_if (lookup p.name live) p
  deletes : next.to_delete ≡ plan.to_delete
  grows : Grows plan.to_update next.to_update
  handled : Handled enc live next.to_update p
  updates :
      (id : String)
      → lookup id next.to_update
        ≡ first (update_for enc p id (lookup p.name live)) (lookup id plan.to_update)

pub append_nothing : {A : Type 0} (l : List A) → (l ++ []) ≡ l
append_nothing [] = refl
append_nothing (x ∷ l) = ap (λ m. x ∷ m) (append_nothing l)

plan_drift-Step :
    (enc : Encoding) (live : Live) (p : Provider) (profile : Assoc Value) (id : String)
    (o : Option (Bool × Assoc Value)) (plan next : Plan)
    → lookup p.name live ≡ some profile
    → text_at "id" profile ≡ some id
    → compute_drift enc p profile ≡ o
    → plan_drift p.name id o plan ≡ ok next
    → Step enc live p plan next
plan_drift-Step enc live p profile id none plan next found there computed e = absurd (ground arith)
plan_drift-Step enc live p profile id (some (false, fields)) plan next found there computed e =
    let same : plan ≡ next = ground arith in
    subst (Step enc live p plan) same (record {
      creates =
          sym (ap (λ o. plan.to_create ++ creates_if o p) found ∙ append_nothing plan.to_create);
      deletes = refl;
      grows = (λ k u h. (u, h));
      handled = unchanged profile fields found computed;
      updates = (λ k. rw (found, there, computed) refl);
    })
plan_drift-Step enc live p profile id (some (true, fields)) plan next found there computed e =
    let more : Plan = record plan { to_update = insert id fields plan.to_update } in
    let same : more ≡ next = ground arith in
    subst (Step enc live p plan) same (record {
      creates =
          sym (ap (λ o. plan.to_create ++ creates_if o p) found ∙ append_nothing plan.to_create);
      deletes = refl;
      grows = Grows-insert id fields plan.to_update;
      handled =
          updated profile fields fields id found there computed
            (lookup-insert_self id fields plan.to_update);
      updates = (λ k.
          lookup-insert id k fields plan.to_update
          ∙ rw (found, there, computed)
              (elim (Bool-cases (id == k)) [ inl own ↦ rw own refl | inr other ↦ rw other refl ]));
    })

plan_provider-Step :
    (enc : Encoding) (live : Live) (p : Provider) (plan next : Plan)
    → plan_provider enc live p plan ≡ ok next
    → Step enc live p plan next
unfolding plan_provider
plan_provider-Step enc live p plan next e = elim (Option-cases (lookup p.name live)) [
  | inl absent_one ↦
      let more : Plan = record plan { to_create = plan.to_create ++ p ∷ [] } in
      let same : more ≡ next = ground arith in
      subst (Step enc live p plan) same (record {
        creates = sym (ap (λ o. plan.to_create ++ creates_if o p) absent_one);
        deletes = refl;
        grows = (λ k u h. (u, h));
        handled = absent absent_one;
        updates = (λ k. rw absent_one refl);
      })
  | inr (profile, found) ↦ elim (Option-cases (text_at "id" profile)) [
    | inl none_there ↦ absurd (ground arith)
    | inr (id, there) ↦
        let step : plan_drift p.name id (compute_drift enc p profile) plan ≡ ok next =
          ground arith in
        plan_drift-Step enc live p profile id (compute_drift enc p profile) plan next found there
          refl step
  ]
]

pub Handled-Grows :
    (enc : Encoding) (live l m : Live) (p : Provider)
    → Grows l m
    → Handled enc live l p
    → Handled enc live m p
Handled-Grows enc live l m p more (absent e) = absent e
Handled-Grows enc live l m p more (unchanged profile fields found computed) =
    unchanged profile fields found computed
Handled-Grows enc live l m p more (updated profile fields sent id found there computed there_is) =
    let (kept, still) = more id sent there_is in
    updated profile fields kept id found there computed still

pub append_assoc : {A : Type 0} (l m n : List A) → ((l ++ m) ++ n) ≡ (l ++ (m ++ n))
append_assoc [] m n = refl
append_assoc (x ∷ l) m n = ap (λ k. x ∷ k) (append_assoc l m n)

-- What the loop over the manifest does to a plan.
pub record Steps (enc : Encoding) (live : Live) (ps : List Provider) (plan next : Plan)
    : Type 0 where
  pub creates : next.to_create ≡ plan.to_create ++ not_live live ps
  pub deletes : next.to_delete ≡ plan.to_delete
  pub grows : Grows plan.to_update next.to_update
  pub handled : AllHandled enc live next.to_update ps
  pub updates :
      (id : String)
      → lookup id next.to_update ≡ first (wanted enc live ps id) (lookup id plan.to_update)

pub plan_providers-Steps :
    (enc : Encoding) (live : Live) (ps : List Provider) (plan next : Plan)
    → plan_providers enc live ps plan ≡ ok next
    → Steps enc live ps plan next
unfolding plan_providers not_live wanted
plan_providers-Steps enc live [] plan next e =
    let same : plan ≡ next = ground arith in
    subst (Steps enc live [] plan) same (record {
      creates = sym (append_nothing plan.to_create);
      deletes = refl;
      grows = (λ k u h. (u, h));
      handled = tt;
      updates = (λ k. refl);
    })
plan_providers-Steps enc live (p ∷ ps) plan next e =
    elim (Result-cases (plan_provider enc live p plan)) [
      | inr (reason, failed) ↦ absurd (ground arith)
      | inl (mid, stepped) ↦
          let later : plan_providers enc live ps mid ≡ ok next = ground arith in
          let one = plan_provider-Step enc live p plan mid stepped in
          let all = plan_providers-Steps enc live ps mid next later in
          record {
            creates =
                all.creates
                ∙ ap (λ l. l ++ not_live live ps) one.creates
                ∙ append_assoc plan.to_create (creates_if (lookup p.name live) p)
                    (not_live live ps);
            deletes = all.deletes ∙ one.deletes;
            grows = (λ k u h. let (v, there) = one.grows k u h in all.grows k v there);
            handled = (
              Handled-Grows enc live mid.to_update next.to_update p all.grows one.handled,
              all.handled,
            );
            updates = (λ k.
                all.updates k
                ∙ ap (first (wanted enc live ps k)) (one.updates k)
                ∙ first_assoc (wanted enc live ps k) _ (lookup k plan.to_update));
          }
    ]
