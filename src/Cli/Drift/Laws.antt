-- ===== src/Cli/Drift/Laws.antt =====
-- nexus-cli/drift.go: what it means that nothing has drifted, and the drift after an update.
use nexus_framework.Prelude.{
  String, Bool, true, false, not, ◌≡◌, refl, sym, subst, ◌⊎◌, inl, inr, ◌&&◌, ◌||◌, Option, none,
  some, [], ◌∷◌, ◌==◌, arith, eq_iff, eq_refl, Bool-cases,
}
use nexus_framework.Prelude.Maps.{Assoc, lookup, insert, lookup-insert}
use nexus_framework.Json.{Value}
use nexus_framework.Cli.Drift.{is_skipped, has_drifted, drift_updates}

-- A text that stands for nothing.
abbrev pub IsBlank : String → Type 0
IsBlank s = (s ≡ "[]") ⊎ (s ≡ "\"\"")

abbrev pub IsAbsent : (Value → String) → Option Value → Type 0
IsAbsent to_json none = Unit
IsAbsent to_json (some v) = (to_json v ≡ "null") ⊎ (to_json v ≡ "")

-- A field of the manifest and the live one are encoded the same, or one is blank and the other
-- absent.
pub data SameField (to_json : Value → String) (v : Value) (live : Option Value) : Type 0 where
  same : (w : Value) → live ≡ some w → to_json v ≡ to_json w → SameField to_json v live
  blank : IsBlank (to_json v) → IsAbsent to_json live → SameField to_json v live

-- Every field of the manifest, but for those that are not compared, is the live one.
abbrev pub Fits : (Value → String) → Assoc Value → Assoc Value → Type 0
Fits to_json [] live = Unit
Fits to_json ((k, v) ∷ desired) live =
    ((is_skipped k ≡ true) ⊎ SameField to_json v (lookup k live)) × Fits to_json desired live

and_true : {a b : Bool} → (a && b) ≡ true → (a ≡ true) × (b ≡ true)
and_true {a = true} e = (refl, e)
and_true {a = false} e = cc

or_true : {a b : Bool} → (a || b) ≡ true → (a ≡ true) ⊎ (b ≡ true)
or_true {a = true} e = inl refl
or_true {a = false} e = inr e

split_guard : {a b : Bool} → (a && not b) ≡ false → (a ≡ false) ⊎ (b ≡ true)
split_guard {a = true} {b = true} e = inr refl
split_guard {a = true} {b = false} e = cc
split_guard {a = false} e = inl refl

unnegated : {b : Bool} → not b ≡ false → b ≡ true
unnegated {b = true} e = refl
unnegated {b = false} e = cc

either_text : (s t u : String) → (s == t || s == u) ≡ true → (s ≡ t) ⊎ (s ≡ u)
either_text s t u e = elim (or_true e) [
  | inl p ↦ inl ((eq_iff s t).0 p)
  | inr p ↦ inr ((eq_iff s u).0 p)
]

has_drifted-SameField :
    (to_json : Value → String) (v : Value) (live : Option Value)
    → has_drifted to_json v live ≡ false
    → SameField to_json v live
unfolding has_drifted
has_drifted-SameField to_json v none e =
    blank (either_text (to_json v) "[]" "\"\"" (and_true (unnegated e)).0) tt
has_drifted-SameField to_json v (some w) e = elim (split_guard e) [
  | inl p ↦ same w refl ((eq_iff (to_json v) (to_json w)).0 (unnegated p))
  | inr p ↦
      blank (either_text (to_json v) "[]" "\"\"" (and_true p).0)
        (either_text (to_json w) "null" "" (and_true p).1)
]

-- No update for the manifest's fields means that they fit.
pub drift_updates-Fits :
    (to_json : Value → String) (desired live : Assoc Value)
    → drift_updates to_json desired live ≡ []
    → Fits to_json desired live
unfolding drift_updates
drift_updates-Fits to_json [] live e = tt
drift_updates-Fits to_json ((k, v) ∷ desired) live e =
    elim (Bool-cases (not (is_skipped k) && has_drifted to_json v (lookup k live))) [
      | inl drifted ↦ cc
      | inr kept ↦ (
        elim (Bool-cases (is_skipped k)) [
          | inl skipped ↦ inl skipped
          | inr compared ↦ inr (has_drifted-SameField to_json v (lookup k live) (ground arith))
        ],
        drift_updates-Fits to_json desired live (ground arith),
      )
    ]

-- The keys of a Go map are different.
abbrev pub IsMap : Assoc Value → Type 0
IsMap [] = Unit
IsMap ((k, v) ∷ l) = (lookup k l ≡ none) × IsMap l

-- The fields of a profile after others are written.
unfoldable pub written : Assoc Value → Assoc Value → Assoc Value
written [] live = live
written ((k, v) ∷ updates) live = insert k v (written updates live)

-- Each field is written, or is not and has not drifted.
abbrev pub Settled : (Value → String) → Assoc Value → Assoc Value → Assoc Value → Type 0
Settled to_json updates live [] = Unit
Settled to_json updates live ((k, v) ∷ desired) =
    ((lookup k updates ≡ some v)
      ⊎ (lookup k updates ≡ none)
        × ((not (is_skipped k) && has_drifted to_json v (lookup k live)) ≡ false))
    × Settled to_json updates live desired

lookup-written :
    (k : String) (updates live : Assoc Value)
    → lookup k (written updates live)
      ≡ (elim (lookup k updates) [ none ↦ lookup k live | some v ↦ some v ])
unfolding written lookup
lookup-written k [] live = refl
lookup-written k ((key, v) ∷ updates) live =
    ground (arith, lookup-insert key k v (written updates live), lookup-written k updates live)

has_drifted_self : (to_json : Value → String) (v : Value) → has_drifted to_json v (some v) ≡ false
unfolding has_drifted
has_drifted_self to_json v = simp eq_refl

lookup-drift_updates :
    (to_json : Value → String) (k : String) (desired live : Assoc Value)
    → lookup k desired ≡ none
    → lookup k (drift_updates to_json desired live) ≡ none
unfolding drift_updates lookup
lookup-drift_updates to_json k [] live h = refl
lookup-drift_updates to_json k ((key, v) ∷ desired) live h =
    ground (arith, lookup-drift_updates to_json k desired live)

lookup_head : (k : String) (v : Value) (l : Assoc Value) → lookup k ((k, v) ∷ l) ≡ some v
unfolding lookup
lookup_head k v l = simp eq_refl

-- A key that is not wanted may be written as well.
Settled-more :
    (to_json : Value → String) (key : String) (w : Value) (updates live desired : Assoc Value)
    → lookup key desired ≡ none
    → Settled to_json updates live desired
    → Settled to_json ((key, w) ∷ updates) live desired
unfolding lookup
Settled-more to_json key w updates live [] h settled = tt
Settled-more to_json key w updates live ((k, v) ∷ desired) h settled = (
  ground (arith, eq_iff key k, settled.0),
  Settled-more to_json key w updates live desired (ground (arith)) settled.1,
)

drift_updates_drifted :
    (to_json : Value → String) (k : String) (v : Value) (desired live : Assoc Value)
    → (not (is_skipped k) && has_drifted to_json v (lookup k live)) ≡ true
    → drift_updates to_json ((k, v) ∷ desired) live ≡ (k, v) ∷ drift_updates to_json desired live
unfolding drift_updates
drift_updates_drifted to_json k v desired live e = rw e refl

drift_updates_kept :
    (to_json : Value → String) (k : String) (v : Value) (desired live : Assoc Value)
    → (not (is_skipped k) && has_drifted to_json v (lookup k live)) ≡ false
    → drift_updates to_json ((k, v) ∷ desired) live ≡ drift_updates to_json desired live
unfolding drift_updates
drift_updates_kept to_json k v desired live e = rw e refl

-- With the keys of a map, the computed updates settle each field.
pub drift_updates-Settled :
    (to_json : Value → String) (desired live : Assoc Value)
    → IsMap desired
    → Settled to_json (drift_updates to_json desired live) live desired
drift_updates-Settled to_json [] live h = tt
drift_updates-Settled to_json ((k, v) ∷ desired) live h =
    let rest = drift_updates-Settled to_json desired live h.1 in
    elim (Bool-cases (not (is_skipped k) && has_drifted to_json v (lookup k live))) [
      | inl drifted ↦
          subst (λ u. Settled to_json u live ((k, v) ∷ desired))
            (sym (drift_updates_drifted to_json k v desired live drifted))
            (
              inl (lookup_head k v (drift_updates to_json desired live)),
              Settled-more to_json k v (drift_updates to_json desired live) live desired h.0 rest,
            )
      | inr kept ↦
          subst (λ u. Settled to_json u live ((k, v) ∷ desired))
            (sym (drift_updates_kept to_json k v desired live kept))
            (inr (lookup-drift_updates to_json k desired live h.0, kept), rest)
    ]

-- Settled fields have not drifted once the updates are written.
pub drift_updates-written :
    (to_json : Value → String) (updates desired live : Assoc Value)
    → Settled to_json updates live desired
    → drift_updates to_json desired (written updates live) ≡ []
unfolding drift_updates
drift_updates-written to_json updates [] live h = refl
drift_updates-written to_json updates ((k, v) ∷ desired) live h = ground (
  arith,
  has_drifted_self to_json v,
  lookup-written k updates live,
  drift_updates-written to_json updates desired live h.1,
  h.0,
)
