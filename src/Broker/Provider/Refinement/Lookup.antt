-- ===== src/Broker/Provider/Refinement/Lookup.antt =====
-- nexus-broker/pkg/provider/store.go: a registered profile is found by its name in any case.
use nexus_framework.Prelude.{
  ℕ, String, ◌≡◌, refl, ◌∙◌, ap, sym, subst, true, false, not, ◌&&◌, none, some, List, [], ◌∷◌,
  ◌==◌, ◌⊎◌, eq_iff, eq_refl, if◌then◌else◌, arith, ok, Bool-cases, Option-cases, inl, inr,
}
use nexus_framework.Prelude.Text.{to_lower, lower_char}
use nexus_framework.Broker.Profile.{Profile, has_name_chars, check_profile, stored_profile}
use nexus_framework.Broker.Provider.{
  ProfileRow, StoreFaults, select_by_name, insert_profile, check_name, find_named, insert_row,
  register_profile, rows_named, single, get_profile_by_name,
}
use nexus_framework.Broker.Provider.Refinement.{stored_name}

to_lower_valid : (s : String) → has_name_chars s ≡ true → to_lower s ≡ s
unfolding to_lower lower_char has_name_chars
to_lower_valid String.[] h = refl
to_lower_valid (String.◌∷◌ c s) h = rw (to_lower_valid s (ground arith)) (ground arith)

-- The names of the rows that are not deleted are in lower case, and no two of them are the same.
abbrev pub IsOrderly : List ProfileRow → Type 0
IsOrderly [] = Unit
IsOrderly (r ∷ l) =
    ((r.deleted ≡ true)
      ⊎ ((to_lower (r.profile).name ≡ (r.profile).name) × (find_named (r.profile).name l ≡ none)))
    × IsOrderly l

no_rows :
    (lower : String) (l : List ProfileRow)
    → IsOrderly l
    → find_named lower l ≡ none
    → rows_named lower l ≡ []
unfolding find_named rows_named
no_rows lower [] h e = refl
no_rows lower (r ∷ l) (inl gone, h) e = ground (arith, gone, no_rows lower l h)
no_rows lower (r ∷ l) (inr (low, new), h) e = ground (arith, low, no_rows lower l h)

single-rows_named :
    (lower : String) (l : List ProfileRow)
    → IsOrderly l
    → single (rows_named lower l) ≡ find_named lower l
unfolding find_named rows_named
single-rows_named lower [] h = refl
single-rows_named lower (r ∷ l) (inl gone, h) = ground (arith, gone, single-rows_named lower l h)
single-rows_named lower (r ∷ l) (inr (low, new), h) =
    elim (Bool-cases (not r.deleted && (r.profile).name == lower)) [
      | inl here ↦
          let same : (r.profile).name ≡ lower = (eq_iff _ _).0 (ground (arith, here)) in
          let rest : rows_named lower l ≡ [] =
            no_rows lower l h (subst (λ n. find_named n l ≡ none) same new) in
          rw (low, here, rest) refl
      | inr other ↦ rw (low, other) (single-rows_named lower l h)
    ]

check_profile_name : (p : Profile) → check_profile p ≡ none → has_name_chars p.name ≡ true
unfolding check_profile
check_profile_name p h = elim (Bool-cases (has_name_chars p.name)) [
  | inl fine ↦ fine
  | inr wrong ↦ absurd (ground (arith, wrong))
]

-- The row of a registered profile, if the registration succeeds.
added :
    (faults : StoreFaults) (id new : ℕ) (p : Profile) (l l' : List ProfileRow)
    → register_profile faults id (ok p) l ≡ (ok new, l')
    → (check_profile p ≡ none)
      × (find_named p.name l ≡ none)
      × (l' ≡ record { id = id; profile = stored_profile p; deleted = false } ∷ l)
unfolding register_profile insert_row
added faults id new p l l' h = elim (Option-cases (check_profile p)) [
  | inr (text, wrong) ↦ absurd (cc (rw (wrong, register_profile) at h))
  | inl valid ↦ elim (Option-cases (faults check_name)) [
    | inr (text, broken) ↦ absurd (cc (rw (valid, broken, register_profile) at h))
    | inl fine ↦ elim (Option-cases (find_named p.name l)) [
      | inr (r, there) ↦ absurd (cc (rw (valid, fine, there, register_profile) at h))
      | inl free ↦ elim (Option-cases (faults insert_profile)) [
        | inr (text, broken) ↦
            absurd (cc (rw (valid, fine, free, register_profile, broken, insert_row) at h))
        | inl stored ↦
            (valid, free, cc (rw (valid, fine, free, register_profile, stored, insert_row) at h))
      ]
    ]
  ]
]

-- A profile that is registered is found by its name in any case, as it is stored, and the table
-- stays orderly: the names of its rows in lower case and unique. This is for an orderly table and a
-- lookup without a fault.
pub get_profile_by_name-register_profile :
    (faults : StoreFaults) (id new : ℕ) (p : Profile) (l l' : List ProfileRow) (name : String)
    → IsOrderly l
    → register_profile faults id (ok p) l ≡ (ok new, l')
    → faults select_by_name ≡ none
    → to_lower name ≡ p.name
    → (get_profile_by_name faults name l'
        ≡ some (record { id = id; profile = stored_profile p; deleted = false }))
      × IsOrderly l'
unfolding get_profile_by_name find_named
get_profile_by_name-register_profile faults id new p l l' name orderly h fine e =
    let (valid, free, grown) = added faults id new p l l' h in
    let row : ProfileRow = record { id = id; profile = stored_profile p; deleted = false } in
    let named : (row.profile).name ≡ p.name = stored_name p in
    let low : to_lower p.name ≡ p.name = to_lower_valid p.name (check_profile_name p valid) in
    let still : IsOrderly (row ∷ l) = (
      inr (subst (λ n. (to_lower n ≡ n) × (find_named n l ≡ none)) (sym named) (low, free)),
      orderly,
    ) in
    let found : find_named p.name (row ∷ l) ≡ some row =
      ap (λ n. if n == p.name then some row else find_named p.name l) named
      ∙ rw (eq_refl p.name) refl in
    (
      rw (fine, get_profile_by_name)
          (subst (λ m. single (rows_named (to_lower name) m) ≡ some row) (sym grown)
            (subst (λ n. single (rows_named n (row ∷ l)) ≡ some row) (sym e)
              (single-rows_named p.name (row ∷ l) still ∙ found))),
      subst IsOrderly (sym grown) still,
    )
