-- ===== src/Broker/Provider/Refinement.antt =====
-- nexus-broker/pkg/provider/store.go: the store as a map from names to profiles.
pub mod Lookup
use nexus_framework.Prelude.{
  ℕ, zero, suc, String, ◌≡◌, ◌≢◌, refl, ◌∙◌, ap, sym, subst, Bool, true, false, not, ◌&&◌, Option,
  none, some, List, [], ◌∷◌, ◌==◌, ◌⊎◌, eq_iff, if◌then◌else◌, arith, Result, ok, err, Bool-cases,
  Option-cases, inl, inr,
}
use nexus_framework.Broker.Profile.{Profile, check_profile, stored_profile}
use nexus_framework.Broker.Provider.{
  ProfileRow, StoreFaults, insert_profile, check_name, delete_by_name, failing, find_named,
  insert_row, register_profile, count_rows, delete_rows, delete_profile_by_name,
}

-- The map that a table stands for.
abbrev profile_of : Option ProfileRow → Option Profile
profile_of none = none
profile_of (some r) = some r.profile

abbrev pub profile_at : List ProfileRow → String → Option Profile
profile_at l name = profile_of (find_named name l)

-- What registering does to the map: the name was free, and now has the stored profile.
abbrev pub Registered : Result String Profile → List ProfileRow → List ProfileRow → Type 0
Registered (err text) l l' = ⊥
Registered (ok p) l l' =
    (check_profile p ≡ none)
    × (profile_at l p.name ≡ none)
    × ((name : String)
        → profile_at l' name
          ≡ (if p.name == name then some (stored_profile p) else profile_at l name))

-- An operation fails and keeps the table, or succeeds as specified.
abbrev pub Refines :
    {A : Type 0}
    → (A → List ProfileRow → Type 0)
    → List ProfileRow
    → Result String A × List ProfileRow
    → Type 0
Refines done l (err text, l') = l' ≡ l
Refines done l (ok a, l') = done a l'

stored_name : (p : Profile) → (stored_profile p).name ≡ p.name
unfolding stored_profile
stored_name p = elim (Bool-cases p.enable_discovery) [
  | inl discovered ↦ rw discovered refl
  | inr plain ↦ rw plain refl
]

profile_at-insert :
    (id : ℕ) (p : Profile) (l : List ProfileRow) (name : String)
    → profile_at (record { id = id; profile = p; deleted = false } ∷ l) name
      ≡ (if p.name == name then some p else profile_at l name)
unfolding find_named
profile_at-insert id p l name = elim (Bool-cases (p.name == name)) [
  | inl here ↦ rw here refl
  | inr other ↦ rw other refl
]

profile_at-insert_stored :
    (id : ℕ) (p : Profile) (l : List ProfileRow) (name : String)
    → profile_at (record { id = id; profile = stored_profile p; deleted = false } ∷ l) name
      ≡ (if p.name == name then some (stored_profile p) else profile_at l name)
profile_at-insert_stored id p l name =
    profile_at-insert id (stored_profile p) l name
    ∙ ap (λ n. if n == name then some (stored_profile p) else profile_at l name) (stored_name p)

pub register_profile-Refines :
    (faults : StoreFaults) (id : ℕ) (body : Result String Profile) (l : List ProfileRow)
    → Refines (λ new l'. Registered body l l') l (register_profile faults id body l)
unfolding register_profile insert_row
register_profile-Refines faults id (err text) l = refl
register_profile-Refines faults id (ok p) l = elim (Option-cases (check_profile p)) [
  | inr (text, wrong) ↦ rw (wrong, register_profile) refl
  | inl valid ↦ elim (Option-cases (faults check_name)) [
    | inr (text, broken) ↦ rw (valid, broken, register_profile) refl
    | inl fine ↦ elim (Option-cases (find_named p.name l)) [
      | inr (r, there) ↦ rw (valid, fine, there, register_profile) refl
      | inl free ↦ elim (Option-cases (faults insert_profile)) [
        | inr (text, broken) ↦ rw (valid, fine, free, register_profile, broken, insert_row) refl
        | inl added ↦
            rw (valid, fine, free, register_profile, added, insert_row)
              (refl, refl, profile_at-insert_stored id p l)
      ]
    ]
  ]
]

-- What deleting a name does to the map: the name has no profile any more, every other name what it
-- had, and the number of deleted rows is 0 only where the name had none.
abbrev pub Removed : String → List ProfileRow → ℕ → List ProfileRow → Type 0
Removed name l n l' =
    ((other : String) → profile_at l' other ≡ (if name == other then none else profile_at l other))
    × (n ≡ 0 → profile_at l name ≡ none)

abbrev named_row : String → ProfileRow → Bool
named_row name r = (r.profile).name == name && not r.deleted

profile_at-delete_rows :
    (name : String) (l : List ProfileRow) (other : String)
    → profile_at (delete_rows (named_row name) l) other
      ≡ (if name == other then none else profile_at l other)
unfolding find_named delete_rows
profile_at-delete_rows name [] other = ground arith
profile_at-delete_rows name (r ∷ l) other = ground (
  arith,
  profile_at-delete_rows name l other,
  eq_iff (r.profile).name name,
  eq_iff (r.profile).name other,
  eq_iff name other,
)

none_counted :
    (name : String) (l : List ProfileRow)
    → count_rows (named_row name) l ≡ 0
    → profile_at l name ≡ none
unfolding find_named count_rows
none_counted name [] h = refl
none_counted name (r ∷ l) h = ground (arith, none_counted name l)

delete_profile_by_name-Refines :
    (faults : StoreFaults) (name : String) (l : List ProfileRow)
    → Refines (Removed name l) l (delete_profile_by_name faults name l)
unfolding delete_profile_by_name
delete_profile_by_name-Refines faults name l = elim (Option-cases (faults delete_by_name)) [
  | inr (text, broken) ↦ rw (broken, delete_profile_by_name) refl
  | inl fine ↦
      rw (fine, delete_profile_by_name) (profile_at-delete_rows name l, none_counted name l)
]

-- The store refines a map from names to profiles. RegisterProfile fails and changes nothing, or the
-- profile is valid, its name was free, and now the name has the stored profile and every other name
-- what it had. DeleteProfileByName fails and changes nothing, or the name has no profile any more
-- and every other name what it had, and the number that it gives is 0 only where there was none.
pub store-Refines :
    (faults : StoreFaults) (id : ℕ) (body : Result String Profile) (name : String)
    (l : List ProfileRow)
    → Refines (λ new l'. Registered body l l') l (register_profile faults id body l)
      × Refines (Removed name l) l (delete_profile_by_name faults name l)
store-Refines faults id body name l =
    (register_profile-Refines faults id body l, delete_profile_by_name-Refines faults name l)
