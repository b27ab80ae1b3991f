-- ===== src/Cli/Drift/Written.antt =====
-- nexus-cli/drift.go: the drift of a provider once its updates are written to the live profile.
use nexus_framework.Prelude.{
  String, Bool, false, ◌≡◌, refl, subst, ap, ◌⊎◌, inl, inr, Option, none, some, [], ◌∷◌, ◌==◌,
  arith, Bool-cases,
}
use nexus_framework.Prelude.Maps.{Assoc, lookup}
use nexus_framework.Json.{Value}
use nexus_framework.Cli.Manifest.{
  Provider, Encoding, encoded_fields, provider_fields, text_field, params_field,
}
use nexus_framework.Cli.Drift.{drift_updates, has_updates, drift_of, compute_drift}
use nexus_framework.Cli.Drift.Laws.{
  Fits, IsMap, Settled, written, drift_updates-Settled, drift_updates-written, drift_updates-Fits,
}

IsMap-text_field :
    (k s : String) (rest : Assoc Value)
    → lookup k rest ≡ none
    → IsMap rest
    → IsMap (text_field k s rest)
unfolding text_field
IsMap-text_field k s rest h map = ground arith

lookup-text_field :
    (k other s : String) (rest : Assoc Value)
    → (other == k) ≡ false
    → lookup k rest ≡ none
    → lookup k (text_field other s rest) ≡ none
unfolding lookup text_field
lookup-text_field k other s rest e h = ground arith

IsMap-params_field : (l : Assoc Value) → IsMap (params_field l)
unfolding lookup params_field
IsMap-params_field [] = tt
IsMap-params_field (entry ∷ l) = (refl, tt)

lookup-params_field :
    (k : String) (l : Assoc Value) → ("params" == k) ≡ false → lookup k (params_field l) ≡ none
unfolding lookup params_field
lookup-params_field k [] e = refl
lookup-params_field k (entry ∷ l) e = rw e refl

lookup-field :
    (k other : String) (v : Value) (rest : Assoc Value)
    → (other == k) ≡ false
    → lookup k rest ≡ none
    → lookup k ((other, v) ∷ rest) ≡ none
unfolding lookup
lookup-field k other v rest e h = rw e h

IsMap-field :
    (k : String) (v : Value) (rest : Assoc Value)
    → lookup k rest ≡ none
    → IsMap rest
    → IsMap ((k, v) ∷ rest)
IsMap-field k v rest h map = (h, map)

ruleset field_rules = (
  IsMap-field, IsMap-text_field, IsMap-params_field, lookup-field, lookup-text_field,
  lookup-params_field, refl,
)

provider_fields-IsMap : (p : Provider) → IsMap (provider_fields p)
unfolding provider_fields
provider_fields-IsMap p = search field_rules depth 40

encoded_fields-IsMap :
    (enc : Encoding) (p : Provider) (desired : Assoc Value)
    → encoded_fields enc p ≡ some desired
    → IsMap desired
unfolding encoded_fields
encoded_fields-IsMap enc p desired e = elim (Bool-cases (enc.has_encoding p.params)) [
  | inl encodes ↦
      let same : provider_fields p ≡ desired = ground arith in
      subst IsMap same (provider_fields-IsMap p)
  | inr fails ↦ absurd (ground arith)
]

List-cases : (l : Assoc Value) → (l ≡ []) ⊎ ((x : String × Value) × (m : Assoc Value) × (l ≡ x ∷ m))
List-cases [] = inl refl
List-cases (x ∷ m) = inr (x, m, refl)

drift_of-written :
    (to_json : Value → String) (encoded : Option (Assoc Value)) (live updates : Assoc Value)
    (drifted : Bool)
    → ((desired : Assoc Value) → encoded ≡ some desired → IsMap desired)
    → drift_of to_json encoded live ≡ some (drifted, updates)
    → drift_of to_json encoded (written updates live) ≡ some (false, [])
drift_of-written to_json none live updates drifted map e = cc
drift_of-written to_json (some desired) live updates drifted map e =
    let same : drift_updates to_json desired live ≡ updates = cc in
    let settled = drift_updates-Settled to_json desired live (map desired refl) in
    let none_left =
      drift_updates-written to_json updates desired live
        (subst (λ u. Settled to_json u live desired) same settled) in
    ap (λ u. some (has_updates u, u)) none_left

no_updates :
    {u : Assoc Value} (to_json : Value → String) (desired live : Assoc Value)
    → drift_of to_json (some desired) live ≡ some (false, u)
    → drift_updates to_json desired live ≡ []
no_updates to_json desired live e = elim (List-cases (drift_updates to_json desired live)) [
  | inl none_left ↦ none_left
  | inr (x, l, more) ↦ absurd (ground arith)
]

drift_of-Fits :
    (to_json : Value → String) (encoded : Option (Assoc Value)) (live updates : Assoc Value)
    → drift_of to_json encoded live ≡ some (false, updates)
    → (desired : Assoc Value) × (encoded ≡ some desired) × Fits to_json desired live
drift_of-Fits to_json none live updates e = absurd (ground arith)
drift_of-Fits to_json (some desired) live updates e =
    (desired, refl, drift_updates-Fits to_json desired live (no_updates to_json desired live e))

-- Where computeDrift gives updates, it finds no drift once they are written to the live profile,
-- whatever the encoder of JSON and whatever else the profile holds.
pub compute_drift-written :
    (enc : Encoding) (p : Provider) (live updates : Assoc Value) (drifted : Bool)
    → compute_drift enc p live ≡ some (drifted, updates)
    → compute_drift enc p (written updates live) ≡ some (false, [])
unfolding compute_drift
compute_drift-written enc p live updates drifted e =
    drift_of-written enc.to_json (encoded_fields enc p) live updates drifted
      (encoded_fields-IsMap enc p) e

-- Where computeDrift finds no drift, every field that the manifest writes is the live one.
pub compute_drift-Fits :
    (enc : Encoding) (p : Provider) (live updates : Assoc Value)
    → compute_drift enc p live ≡ some (false, updates)
    → (desired : Assoc Value) × (encoded_fields enc p ≡ some desired)
      × Fits enc.to_json desired live
unfolding compute_drift
compute_drift-Fits enc p live updates e =
    drift_of-Fits enc.to_json (encoded_fields enc p) live updates e
