-- ===== src/Broker/Consent/Outcome.antt =====
-- nexus-broker/pkg/handlers/consent.go, GetSpec: what a consent that is answered leaves for its
-- callback.
pub mod Accepted
pub mod Refused
use nexus_framework.Prelude.{
  suc, String, ◌≡◌, refl, ◌∙◌, ap, sym, subst, Bool, true, false, Option, none, some, List, [], ◌∷◌,
  ◌==◌, ◌||◌, arith, if◌then◌else◌, ok, err, Result, Bool-cases, inl, inr, ◌⊎◌, Option-cases, ℕ,
  if◌then◌else◌,
}
use nexus_framework.Broker.Db.{
  Connection, Provider, Faults, Db, select_provider, insert_connection, find_provider,
  has_connection,
}
use nexus_framework.Broker.Callback.Checks.{query-eq-some}
use nexus_framework.Broker.Handler.{
  Response, count_metric, text_or_empty, ◌>>=◌, ◌>>◌, World, Config, Outside,
}
use nexus_framework.Broker.State.{StateData, sign_state}
use nexus_framework.Broker.Handler.Outcomes.{
  Ends, bind-Ends, then-Ends, pure-Ends, require-Ends, guard-Ends, get_db-Ends, reply-Ends,
}
use nexus_framework.Prelude.Text.{◌<>◌}
use nexus_framework.Broker.Pkce.{generate_pkce}
use nexus_framework.Broker.AuthUrl.{has_openid, build_auth_url}
use nexus_framework.Broker.Consent.{
  ConsentRequest, Fresh, signed_text, listed, consent_auth_url, consent_state, consent_spec,
  new_connection, create_connection, oauth2_consent, static_consent, consent_by_type,
  consent_checks, count_consent, get_spec, provider_row,
}
use nexus_framework.Broker.Consent.Created.{
  IsRequested, provider_row-eq-some, with_connection, counted, IsBuilt, Created,
  consent_by_type-Ends,
}

pub signed_text_ok :
    {E : Type 0} (r : Result E String) {s : String} → signed_text r ≡ some s → r ≡ ok s
signed_text_ok (ok x) h = cc h
signed_text_ok (err e) h = absurd (cc h)

-- A connection waits for the callback of a request, and a state is signed for it.
pub record IsFor (config : Config) (out : Outside) (fresh : Fresh) (request : ConsentRequest)
    (p : Provider) (verifier : Option String) (state : String) (c : Connection) : Type 0 where
  pub row :
      (c.id ≡ fresh.new_uuid)
      × (c.status ≡ "pending")
      × (c.workspace_id ≡ request.workspace_id)
      × (c.provider_id ≡ p.id)
      × (c.code_verifier ≡ verifier)
      × (c.return_url ≡ request.return_url)
  pub signed :
      sign_state out.codec config.state_key (record {
        workspace_id = request.workspace_id;
        provider_id = request.provider_id;
        nonce = out.uuid_text fresh.new_uuid;
        iat = out.now;
      })
      ≡ ok state

new_connection-IsFor :
    (config : Config) (out : Outside) (fresh : Fresh) (request : ConsentRequest) (p : Provider)
    (verifier : Option String) (state : String)
    → consent_state config out fresh request ≡ some state
    → IsFor config out fresh request p verifier state (new_connection out fresh request p verifier)
unfolding consent_state new_connection
new_connection-IsFor config out fresh request p verifier state h = record {
  row = (refl, refl, refl, refl, refl, refl);
  signed = signed_text_ok _ h;
}

module _ (config : Config) (out : Outside) (fresh : Fresh) (faults : Faults)
    (request : ConsentRequest) where
  -- What a consent with an answer has done: the provider that the request names, its verifier and
  -- URL, the state that it signed, and the world.
  abbrev pub Started : World → Response → World → Type 0
  Started w r w' =
      (p : Provider) × (verifier : Option String) × (url : String) × (state : String) × IsRequested
        fresh request.provider_id w.db.providers p
      × (has_connection w.db.connections fresh.new_uuid ≡ false)
      × (consent_state config out fresh request ≡ some state)
      × IsBuilt config out fresh request p verifier (url, state)
      × IsFor config out fresh request p verifier state
          (new_connection out fresh request p verifier)
      × (r ≡ consent_spec request (url, state))
      × (w'
          ≡ counted (listed request.scopes)
              (with_connection (new_connection out fresh request p verifier) w))

count_consent-Ends :
    (scopes : List String) (w : World) {u : Unit {0}} {w' : World}
    → Ends (count_consent scopes) w u w'
    → w' ≡ counted scopes w
unfolding count_consent count_metric ◌>>◌ ◌>>=◌
count_consent-Ends scopes w h = cc h

module _ (config : Config) (out : Outside) (fresh : Fresh) (faults : Faults) where
  consent_checks-Ends :
      (body : Option ConsentRequest) (w : World) {row : ConsentRequest × Provider} {w' : World}
      → Ends (consent_checks config out fresh faults body) w row w'
      → (body ≡ some row.0) × IsRequested fresh (row.0).provider_id w.db.providers row.1 × (w' ≡ w)
  unfolding consent_checks
  consent_checks-Ends body w h =
      let (request, v1, decoded, rest1) = bind-Ends _ _ w h in
      let (u2, v2, complete, rest2) = then-Ends _ _ v1 rest1 in
      let (u3, v3, allowed, rest3) = then-Ends _ _ v2 rest2 in
      let (db, v4, got, rest4) = bind-Ends _ _ v3 rest3 in
      let (p, v5, found, rest5) = bind-Ends _ _ v4 rest4 in
      let (result, same6) = pure-Ends _ v5 rest5 in
      let (this, same1) = require-Ends _ _ w decoded in
      let (database, same4) = get_db-Ends v3 got in
      let (known, same5) = require-Ends _ _ v4 found in
      let same3 : v3 ≡ w = (guard-Ends _ _ v2 allowed).1 ∙ (guard-Ends _ _ v1 complete).1 ∙ same1 in
      (
        this ∙ ap some (sym (ap (λ x. x.0) result)),
        subst (λ x. IsRequested fresh (x.0).provider_id w.db.providers x.1) (sym result)
            (subst (λ x. IsRequested fresh request.provider_id x.providers p)
              (database ∙ ap (λ x. x.db) same3)
              (provider_row-eq-some fresh request.provider_id db.providers
                (query-eq-some faults select_provider _ known))),
        same6 ∙ same5 ∙ same4 ∙ same3,
      )

  -- What an answered consent has done.
  pub get_spec-Ends :
      (request : ConsentRequest) (w : World) {r : Response} {w' : World}
      → Ends (get_spec config out fresh faults (some request)) w r w'
      → Started config out fresh faults request w r w'
  unfolding get_spec
  get_spec-Ends request w h =
      let (row, v, checked, rest) = bind-Ends _ _ w h in
      let (spec, v2, created, rest2) = bind-Ends _ _ v rest in
      let (u, v3, counting, rest3) = then-Ends _ _ v2 rest2 in
      let (result, same3) = pure-Ends _ v3 rest3 in
      let (this, known, same) = consent_checks-Ends (some request) w checked in
      let here : row.0 ≡ request = cc this in
      let (verifier, free, signed, made, same2) =
        subst (λ x. Created config out fresh x row.1 w spec v2) here
          (subst (λ x. Created config out fresh row.0 row.1 x spec v2) same
            (consent_by_type-Ends config out fresh faults row.0 row.1 v created)) in
      (
        row.1,
        verifier,
        spec.0,
        spec.1,
        subst (λ x. IsRequested fresh x.provider_id w.db.providers row.1) here known,
        free,
        signed,
        made,
        new_connection-IsFor config out fresh request row.1 verifier spec.1 signed,
        result ∙ ap (λ x. consent_spec x spec) here,
        same3
            ∙ count_consent-Ends _ v2 counting
            ∙ ap (λ x. counted (listed x.scopes) v2) here
            ∙ ap (counted (listed request.scopes)) same2,
      )
