-- ===== src/Broker/Consent/Created.antt =====
-- nexus-broker/pkg/handlers/consent.go, GetSpec: the connection that a consent creates, by the type of
-- its provider.
use nexus_framework.Prelude.{
  suc, String, ◌≡◌, refl, ◌∙◌, ap, sym, subst, Bool, true, false, Option, none, some, List, [], ◌∷◌,
  ◌==◌, ◌||◌, arith, if◌then◌else◌, ok, Bool-cases, inl, inr, ◌⊎◌, Option-cases, ℕ, if◌then◌else◌,
}
use nexus_framework.Broker.Db.{
  Connection, Provider, Faults, insert_connection, find_provider, has_connection,
}
use nexus_framework.Broker.Handler.{text_or_empty, World, Config, Outside}
use nexus_framework.Broker.Handler.Outcomes.{
  Ends, bind-Ends, then-Ends, pure-Ends, require-Ends, reply-Ends,
}
use nexus_framework.Prelude.Text.{◌<>◌}
use nexus_framework.Broker.Pkce.{generate_pkce}
use nexus_framework.Broker.AuthUrl.{has_openid, build_auth_url}
use nexus_framework.Broker.Consent.{
  ConsentRequest, Fresh, listed, consent_auth_url, consent_state, new_connection, create_connection,
  oauth2_consent, static_consent, consent_by_type, provider_row,
}

find_provider_id :
    (id : ℕ) (l : List Provider) (p : Provider) → find_provider id l ≡ some p → p.id ≡ id
unfolding find_provider
find_provider_id id [] p h = absurd (cc h)
find_provider_id id (q ∷ l) p h = ground (arith, find_provider_id id l p)

-- A provider is the one that a text names.
abbrev pub IsRequested : Fresh → String → List Provider → Provider → Type 0
IsRequested fresh text l p = (fresh.column_uuid text ≡ some p.id) × (find_provider p.id l ≡ some p)

pub provider_row-eq-some :
    (fresh : Fresh) (text : String) (l : List Provider) {p : Provider}
    → provider_row fresh text l ≡ some p
    → IsRequested fresh text l p
provider_row-eq-some fresh text l {p = p} h = elim (Option-cases (fresh.column_uuid text)) [
  | inl unread ↦ absurd (cc (rw (unread, provider_row) at h))
  | inr (id, read) ↦
      let found : find_provider id l ≡ some p = rw (read, provider_row) at h in
      let same : id ≡ p.id = sym (find_provider_id id l p found) in
      (read ∙ ap some same, subst (λ n. find_provider n l ≡ some p) same found)
]

-- The world with one more connection.
abbrev pub with_connection : Connection → World → World
with_connection c w = record w { db = record w.db { connections = c ∷ w.db.connections } }

-- The counters after a consent.
abbrev pub counted : List String → World → World
counted scopes w =
    let m = record w.metrics { consents = suc w.metrics.consents } in
    record w {
      metrics =
          if has_openid scopes then record m { consents_openid = suc m.consents_openid } else m;
    }

create_connection-Ends :
    (faults : Faults) (c : Connection) (w : World) {u : Unit {0}} {w' : World}
    → Ends (create_connection faults c) w u w'
    → (has_connection w.db.connections c.id ≡ false) × (w' ≡ with_connection c w)
unfolding create_connection
create_connection-Ends faults c w {w' = w'} h =
    elim (Bool-cases (faults insert_connection || has_connection w.db.connections c.id)) [
      | inl failed ↦ absurd (cc (rw failed at h))
      | inr fine ↦
          let created : Ends (λ v. (ok tt, with_connection c v)) w tt w' = cc (rw fine at h) in
          (ground (arith, fine), cc created)
    ]

abbrev pub is_oauth2 : Provider → Bool
is_oauth2 p = p.auth_type == "oauth2" || p.auth_type == ""

-- The verifier that a consent for an OAuth 2 provider keeps is the one drawn, and its URL is the
-- authorization request with the challenge.
abbrev pub IsOauth2 :
    Config → Outside → Fresh → ConsentRequest → Provider → Option String → String × String → Type 0
IsOauth2 config out fresh request p verifier (url, state) =
    (pkce : String × String) × (is_oauth2 p ≡ true)
    × (generate_pkce out.codec.encode fresh.sha256 fresh.random_bytes ≡ some pkce)
    × (verifier ≡ some pkce.0)
    × (build_auth_url config out
          (consent_auth_url out (listed request.scopes) (text_or_empty p.auth_url))
          (text_or_empty p.client_id) state pkce.1 (listed request.scopes) p.params
        ≡ some url)

-- A consent for a provider with static credentials has no verifier, and its URL is the form that
-- captures them.
abbrev pub IsStatic : Config → Outside → Provider → Option String → String × String → Type 0
IsStatic config out p verifier (url, state) =
    (is_oauth2 p ≡ false)
    × ((p.auth_type == "api_key" || p.auth_type == "basic_auth") ≡ true)
    × (verifier ≡ none)
    × (out.with_query (config.base_url <> "/auth/capture-schema") (("state", state) ∷ [])
        ≡ some url)

abbrev pub IsBuilt :
    Config → Outside → Fresh → ConsentRequest → Provider → Option String → String × String → Type 0
IsBuilt config out fresh request p verifier spec =
    IsOauth2 config out fresh request p verifier spec ⊎ IsStatic config out p verifier spec

-- A consent has created one connection.
abbrev pub Created :
    Config → Outside → Fresh → ConsentRequest → Provider → World → String × String → World → Type 0
Created config out fresh request p w spec w' =
    (verifier : Option String) × (has_connection w.db.connections fresh.new_uuid ≡ false)
    × (consent_state config out fresh request ≡ some spec.1)
    × IsBuilt config out fresh request p verifier spec
    × (w' ≡ with_connection (new_connection out fresh request p verifier) w)

module _ (config : Config) (out : Outside) (fresh : Fresh) (faults : Faults)
    (request : ConsentRequest) where
  pub oauth2_consent-Ends :
      (p : Provider) (w : World) {spec : String × String} {w' : World}
      → is_oauth2 p ≡ true
      → Ends (oauth2_consent config out fresh faults request p) w spec w'
      → Created config out fresh request p w spec w'
  unfolding oauth2_consent new_connection
  oauth2_consent-Ends p w oauth h =
      let (pkce, v, drawn, rest) = bind-Ends _ _ w h in
      let (u, v2, created, rest2) = then-Ends _ _ v rest in
      let (state, v3, signed, rest3) = bind-Ends _ _ v2 rest2 in
      let (url, v4, built, rest4) = bind-Ends _ _ v3 rest3 in
      let (result, same4) = pure-Ends _ v4 rest4 in
      let (built_url, same3) = require-Ends _ _ v3 built in
      let (signed_state, same2) = require-Ends _ _ v2 signed in
      let (drew, same0) = require-Ends _ _ w drawn in
      let (free, same1) = create_connection-Ends faults _ v created in
      (
        some pkce.0,
        subst (λ z. has_connection z.db.connections fresh.new_uuid ≡ false) same0 free,
        signed_state ∙ ap some (sym (ap (λ x. x.1) result)),
        inl (
          pkce,
          oauth,
          drew,
          refl,
          subst
              (λ x.
                build_auth_url config out
                  (consent_auth_url out (listed request.scopes) (text_or_empty p.auth_url))
                  (text_or_empty p.client_id) x.1 pkce.1 (listed request.scopes) p.params
                ≡ some x.0)
              (sym result) built_url,
        ),
        same4 ∙ same3 ∙ same2 ∙ same1 ∙ ap (with_connection _) same0,
      )

  static_consent-Ends :
      (p : Provider) (w : World) {spec : String × String} {w' : World}
      → is_oauth2 p ≡ false
      → (p.auth_type == "api_key" || p.auth_type == "basic_auth") ≡ true
      → Ends (static_consent config out fresh faults request p) w spec w'
      → Created config out fresh request p w spec w'
  unfolding static_consent new_connection
  static_consent-Ends p w other static h =
      let (u, v2, created, rest2) = then-Ends _ _ w h in
      let (state, v3, signed, rest3) = bind-Ends _ _ v2 rest2 in
      let (url, v4, built, rest4) = bind-Ends _ _ v3 rest3 in
      let (result, same4) = pure-Ends _ v4 rest4 in
      let (built_url, same3) = require-Ends _ _ v3 built in
      let (signed_state, same2) = require-Ends _ _ v2 signed in
      let (free, same1) = create_connection-Ends faults _ w created in
      (
        none,
        free,
        signed_state ∙ ap some (sym (ap (λ x. x.1) result)),
        inr (
          other,
          static,
          refl,
          subst
              (λ x.
                out.with_query (config.base_url <> "/auth/capture-schema") (("state", x.1) ∷ [])
                ≡ some x.0)
              (sym result) built_url,
        ),
        same4 ∙ same3 ∙ same2 ∙ same1,
      )

  pub consent_by_type-Ends :
      (p : Provider) (w : World) {spec : String × String} {w' : World}
      → Ends (consent_by_type config out fresh faults request p) w spec w'
      → Created config out fresh request p w spec w'
  unfolding consent_by_type
  consent_by_type-Ends p w h = elim (Bool-cases (p.auth_type == "oauth2" || p.auth_type == "")) [
    | inl oauth ↦ oauth2_consent-Ends p w oauth (rw oauth at h)
    | inr other ↦ elim (Bool-cases (p.auth_type == "api_key" || p.auth_type == "basic_auth")) [
      | inl static ↦ static_consent-Ends p w other static (rw (other, static) at h)
      | inr unknown ↦ absurd (reply-Ends _ w (rw (other, unknown) at h))
    ]
  ]
