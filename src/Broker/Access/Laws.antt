-- ===== src/Broker/Access/Laws.antt =====
-- nexus-broker/pkg/server/allowlist.go: which addresses pass.
use nexus_framework.Prelude.{
  ℕ, String, ◌≡◌, ◌↔◌, ◌⊎◌, inl, inr, refl, sym, ap, ◌∙◌, true, Option, none, some, List, [], ◌∷◌,
  arith, Option-cases, Bool-cases,
}
use nexus_framework.Prelude.Text.{split}
use nexus_framework.Broker.Access.{
  Net, Caller, network_of, networks, client_ip, is_contained, check_allowlist,
}

-- An entry of the setting whose network has the address.
abbrev pub Lists : Net → Option ℕ → List String → Type 0
Lists net ip [] = ⊥
Lists net ip (entry ∷ l) =
    ((n : ℕ) × (network_of net entry ≡ some n) × (net.contains n ip ≡ true)) ⊎ Lists net ip l

module _ (net : Net) (entry : String) (l : List String) where
  networks_skipped : network_of net entry ≡ none → networks net (entry ∷ l) ≡ networks net l
  unfolding networks
  networks_skipped h = ground (arith, h)

  networks_taken :
      (n : ℕ) → network_of net entry ≡ some n → networks net (entry ∷ l) ≡ n ∷ networks net l
  unfolding networks
  networks_taken n h = ground (arith, h)

is_contained-networks :
    (net : Net) (ip : Option ℕ) (entries : List String)
    → is_contained net (networks net entries) ip ≡ true
    → Lists net ip entries
unfolding is_contained networks
is_contained-networks net ip [] h = absurd (cc h)
is_contained-networks net ip (entry ∷ l) h = elim (Option-cases (network_of net entry)) [
  | inl skipped ↦ inr (
      is_contained-networks net ip l
        (ap (λ ns. is_contained net ns ip) (sym (networks_skipped net entry l skipped)) ∙ h))
  | inr (n, parsed) ↦
      let taken : is_contained net (n ∷ networks net l) ip ≡ true =
        ap (λ ns. is_contained net ns ip) (sym (networks_taken net entry l n parsed)) ∙ h in
      elim (Bool-cases (net.contains n ip)) [
        | inl inside ↦ inl (n, parsed, inside)
        | inr outside ↦ inr (is_contained-networks net ip l (ground (arith, taken, outside)))
      ]
]

networks-is_contained :
    (net : Net) (ip : Option ℕ) (entries : List String)
    → Lists net ip entries
    → is_contained net (networks net entries) ip ≡ true
unfolding is_contained
networks-is_contained net ip [] h = absurd h
networks-is_contained net ip (entry ∷ l) (inl (n, parsed, inside)) =
    ap (λ ns. is_contained net ns ip) (networks_taken net entry l n parsed) ∙ ground (arith, inside)
networks-is_contained net ip (entry ∷ l) (inr later) = elim (Option-cases (network_of net entry)) [
  | inl skipped ↦
      ap (λ ns. is_contained net ns ip) (networks_skipped net entry l skipped)
      ∙ networks-is_contained net ip l later
  | inr (n, parsed) ↦
      ap (λ ns. is_contained net ns ip) (networks_taken net entry l n parsed)
      ∙ ground (arith, networks-is_contained net ip l later)
]

-- With the allowlist on, a request passes exactly if an entry of the setting that parses has the
-- address that is taken for the client's.
pub check_allowlist-Lists :
    (net : Net) (cidrs : String) (caller : Caller)
    → (check_allowlist net true cidrs caller ≡ none)
      ↔ Lists net (client_ip net caller) (split b',' cidrs)
unfolding check_allowlist
check_allowlist-Lists net cidrs caller = (
  λ h. is_contained-networks net (client_ip net caller) (split b',' cidrs) (ground (arith, h)),
  λ h. rw (networks-is_contained net (client_ip net caller) (split b',' cidrs) h) refl,
)
