-- ===== src/Gateway/Connect/Resolve.antt =====
-- nexus-gateway/pkg/usecase/handler.go, resolveProviderID: the loop over the list of providers.
use nexus_framework.Prelude.{
  ℕ, suc, String, ◌≡◌, refl, ◌∙◌, none, some, List, [], ◌∷◌, if◌then◌else◌, Result, ok, err,
  Bool-cases, inl, inr, sym, Option-cases,
}
use nexus_framework.Prelude.Text.{to_lower}
use nexus_framework.Gateway.Connect.{
  ProviderRef, ConnectError, provider_not_found, provider_ambiguous, is_named, count_matches,
  only_match, resolve_in_list,
}

-- The identifiers of the providers with a name, in any case and without spaces around it.
abbrev pub ids_named : String → List ProviderRef → List String
ids_named lower [] = []
ids_named lower (p ∷ l) =
    let rest = ids_named lower l in
    if is_named lower p.name then (elim p.id [ none ↦ rest | some id ↦ id ∷ rest ]) else rest

-- The one element of a list.
abbrev pub the_only : List String → Result ConnectError String
the_only [] = err provider_not_found
the_only (id ∷ []) = ok id
the_only (id ∷ id' ∷ l) = err provider_ambiguous

many :
    (lower id : String) (n : ℕ) (l : List ProviderRef)
    → only_match (count_matches lower l (id, suc (suc n))) ≡ err provider_ambiguous
unfolding count_matches
many lower id n [] = refl
many lower id n (p ∷ l) = elim (Bool-cases (is_named lower p.name)) [
  | inr other ↦ rw other (many lower id n l)
  | inl named ↦ elim (Option-cases p.id) [
    | inl missing ↦ rw (named, missing) (many lower id n l)
    | inr (found, there) ↦ rw (named, there) (many lower found (suc n) l)
  ]
]

abbrev none_more : String → List String → Result ConnectError String
none_more id [] = ok id
none_more id (_ ∷ _) = err provider_ambiguous

once :
    (lower id : String) (l : List ProviderRef)
    → only_match (count_matches lower l (id, 1)) ≡ none_more id (ids_named lower l)
unfolding count_matches
once lower id [] = refl
once lower id (p ∷ l) = elim (Bool-cases (is_named lower p.name)) [
  | inr other ↦ rw other (once lower id l)
  | inl named ↦ elim (Option-cases p.id) [
    | inl missing ↦ rw (named, missing) (once lower id l)
    | inr (found, there) ↦ rw (named, there) (many lower found 0 l)
  ]
]

the_only-none_more : (id : String) (l : List String) → the_only (id ∷ l) ≡ none_more id l
the_only-none_more id [] = refl
the_only-none_more id (x ∷ l) = refl

at_first :
    (lower id : String) (l : List ProviderRef)
    → only_match (count_matches lower l (id, 0)) ≡ the_only (ids_named lower l)
unfolding count_matches
at_first lower id [] = refl
at_first lower id (p ∷ l) = elim (Bool-cases (is_named lower p.name)) [
  | inr other ↦ rw other (at_first lower id l)
  | inl named ↦ elim (Option-cases p.id) [
    | inl missing ↦ rw (named, missing) (at_first lower id l)
    | inr (found, there) ↦
        rw (named, there) (once lower found l ∙ sym (the_only-none_more found (ids_named lower l)))
  ]
]

-- The lookup in the list of providers gives the identifier of the one provider with the name, in
-- any case and without spaces around it; with no such provider it is not found, and with several it
-- is ambiguous.
pub resolve_in_list_lem :
    (name : String) (l : List ProviderRef)
    → resolve_in_list name l ≡ the_only (ids_named (to_lower name) l)
unfolding resolve_in_list
resolve_in_list_lem name l = at_first (to_lower name) "" l
