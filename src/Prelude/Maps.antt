-- ===== src/Prelude/Maps.antt =====
-- Go maps with text keys, as association lists without repeated keys.
use Prim.Native.String.{String}
use mathlib.Core.Path.{◌≡◌, refl}
use mathlib.Core.Option.{Option, none, some}
use mathlib.Core.List.{List, [], ◌∷◌}
use native.Mathlib.Omega.{arith}
use text.Mathlib.Text.{◌==◌}
use text.Mathlib.TextEquality.{eq_iff}
use text.Mathlib.TextPositions.{eq_refl}
use nexus_framework.Prelude.Tests.{if◌then◌else◌}

abbrev pub Assoc {ℓ} : Type ℓ → Type ℓ
Assoc V = List (String × V)

module _ {ℓ} {V : Type ℓ} where
  -- m[k], with the second result of Go's form `v, ok := m[k]`
  unfoldable pub lookup : String → Assoc V → Option V
  lookup key [] = none
  lookup key ((name, value) ∷ more) = if name == key then some value else lookup key more

  -- m[k] = v
  unfoldable pub insert : String → V → Assoc V → Assoc V
  insert key value [] = (key, value) ∷ []
  insert key value ((name, old) ∷ more) =
      if name == key then (key, value) ∷ more else (name, old) ∷ insert key value more

  pub lookup-insert :
      (key other : String) (value : V) (entries : Assoc V)
      → lookup other (insert key value entries)
        ≡ (if key == other then some value else lookup other entries)
  unfolding lookup insert
  lookup-insert key other value [] = refl
  lookup-insert key other value ((name, old) ∷ more) = ground (
    arith,
    lookup-insert key other value more,
    eq_iff name other,
    eq_iff name key,
    eq_iff key other,
  )

module _ {ℓ} {V : Type ℓ} where
  pub lookup-insert_self :
      (key : String) (value : V) (entries : Assoc V)
      → lookup key (insert key value entries) ≡ some value
  lookup-insert_self key value entries = simp (lookup-insert, eq_refl)
