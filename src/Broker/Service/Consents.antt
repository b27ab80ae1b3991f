-- ===== src/Broker/Service/Consents.antt =====
-- nexus-broker/pkg/handlers/consent.go: what a consent does to the database of a running broker.
use nexus_framework.Prelude.{
  ℕ, String, ◌≡◌, ◌∙◌, refl, ap, sym, inl, inr, false, Option, none, List, [], ◌∷◌, ◌=?◌, ◌==◌,
  ◌||◌, arith, Bool-cases, Option-cases,
}
use nexus_framework.Broker.Db.{
  Connection, Provider, Faults, insert_connection, find_connection, has_connection,
}
use nexus_framework.Broker.Handler.{Config, Outside}
use nexus_framework.Broker.Handler.Keeps.{Keeps, keeps_rules, append-nil}
use nexus_framework.Broker.Consent.{
  ConsentRequest, Fresh, new_connection, create_connection, oauth2_consent, static_consent,
  consent_by_type, consent_checks, count_consent, get_spec,
}
use nexus_framework.Broker.Service.Evolves.{
  Becomes, Grows, Becomes-refl, Evolves-refl, Grows-Keeps, Grows-bind, Grows-then,
}

-- A new connection in front, under an identifier that is not there.
Becomes-insert :
    (c : Connection) (l : List Connection) (id : ℕ)
    → has_connection l c.id ≡ false
    → Becomes (id ≡ c.id) (find_connection id l) (find_connection id (c ∷ l))
unfolding find_connection has_connection
Becomes-insert c l id free = elim (Bool-cases (c.id =? id)) [
  | inr other ↦ rw other (Becomes-refl (id ≡ c.id) (find_connection id l))
  | inl here ↦
      let same : id ≡ c.id = ground (arith, here) in
      elim (Option-cases (find_connection c.id l)) [
        | inr (d, found) ↦ absurd (cc (rw (found, has_connection) at free))
        | inl missing ↦
            let nothing : find_connection id l ≡ none =
              ap (λ n. find_connection n l) same ∙ missing in
            rw here (rw nothing same)
      ]
]

Grows-create_connection :
    (faults : Faults) (c : Connection) → Grows (λ id. id ≡ c.id) (create_connection faults c)
unfolding create_connection
Grows-create_connection faults c = record {
  at = λ w. elim (Bool-cases (faults insert_connection || has_connection w.db.connections c.id)) [
    | inl failed ↦ rw failed (Evolves-refl (λ id. id ≡ c.id) ⊥ w)
    | inr fine ↦ rw fine (record {
      connections = λ id. Becomes-insert c w.db.connections id (ground (arith, fine));
      providers = inl refl;
      tokens = λ h. h;
      audit_events = ([], sym (append-nil w.db.audit_events));
    })
  ];
}

module _ (config : Config) (out : Outside) (fresh : Fresh) (faults : Faults) where
  -- The identifier that a consent draws.
  abbrev pub IsNew : ℕ → Type 0
  IsNew id = id ≡ fresh.new_uuid

  oauth2_consent-Grows :
      (request : ConsentRequest) (p : Provider)
      → Grows IsNew (oauth2_consent config out fresh faults request p)
  unfolding oauth2_consent new_connection
  oauth2_consent-Grows request p =
      Grows-bind IsNew _ _ (Grows-Keeps IsNew _ (search keeps_rules depth 30)) (λ pkce.
        Grows-then IsNew _ _ (Grows-create_connection faults _)
          (Grows-Keeps IsNew _ (search keeps_rules depth 30)))

  static_consent-Grows :
      (request : ConsentRequest) (p : Provider)
      → Grows IsNew (static_consent config out fresh faults request p)
  unfolding static_consent new_connection
  static_consent-Grows request p =
      Grows-then IsNew _ _ (Grows-create_connection faults _)
        (Grows-Keeps IsNew _ (search keeps_rules depth 30))

  consent_by_type-Grows :
      (request : ConsentRequest) (p : Provider)
      → Grows IsNew (consent_by_type config out fresh faults request p)
  unfolding consent_by_type
  consent_by_type-Grows request p =
      elim (Bool-cases (p.auth_type == "oauth2" || p.auth_type == "")) [
        | inl oauth ↦ rw oauth (oauth2_consent-Grows request p)
        | inr other ↦ elim (Bool-cases (p.auth_type == "api_key" || p.auth_type == "basic_auth")) [
          | inl static ↦ rw (other, static) (static_consent-Grows request p)
          | inr unknown ↦ rw (other, unknown) (Grows-Keeps IsNew _ (search keeps_rules depth 30))
        ]
      ]

  consent_checks-Keeps :
      (body : Option ConsentRequest) → Keeps (consent_checks config out fresh faults body)
  unfolding consent_checks
  consent_checks-Keeps body = search keeps_rules depth 30

  count_consent-Keeps : (l : List String) → Keeps (count_consent l)
  unfolding count_consent
  count_consent-Keeps l = search keeps_rules depth 30

  pub get_spec-Grows :
      (body : Option ConsentRequest) → Grows IsNew (get_spec config out fresh faults body)
  unfolding get_spec
  get_spec-Grows body =
      Grows-bind IsNew _ _ (Grows-Keeps IsNew _ (consent_checks-Keeps body)) (λ row.
        Grows-bind IsNew _ _ (consent_by_type-Grows row.0 row.1)
          (λ spec. Grows-Keeps IsNew _ (search (keeps_rules, count_consent-Keeps) depth 30)))
