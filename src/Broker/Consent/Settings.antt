-- ===== src/Broker/Consent/Settings.antt =====
-- nexus-broker/pkg/handlers: the authorization request of a consent and the token request of its
-- callback belong together.
use nexus_framework.Prelude.{
  String, ◌≡◌, ◌∙◌, sym, ap, subst, true, false, Option, none, some, ◌==◌, Bool-cases, inl, inr,
}
use nexus_framework.Prelude.Maps.{Assoc, lookup}
use nexus_framework.Broker.Db.{Connection, Provider, Faults}
use nexus_framework.Broker.Pkce.{generate_pkce, validate_pkce}
use nexus_framework.Broker.Exchange.{exchange_request}
use nexus_framework.Broker.Handler.{World, Config, Outside, text_or_empty}
use nexus_framework.Broker.Handler.Outcomes.{Ends}
use nexus_framework.Broker.Consent.Created.{with_connection, is_oauth2, oauth2_consent-Ends}
use nexus_framework.Broker.Callback.{exchange_of}
use nexus_framework.Broker.AuthUrl.{auth_settings, extra_settings, build_auth_url}
use nexus_framework.Broker.Consent.{
  ConsentRequest, Fresh, listed, consent_auth_url, new_connection, oauth2_consent,
}
use nexus_framework.Broker.Consent.Forms.{
  redirect_uri-auth_settings, challenge-auth_settings, redirect_uri-exchange_request,
  verifier-exchange_request, validate_pkce-generate_pkce,
}

-- The settings of an authorization request and the token request of a callback belong together: the
-- same redirect URI, and a verifier that validates against the challenge.
pub record Fits (config : Config) (out : Outside) (fresh : Fresh) (code : String) (p : Provider)
    (c : Connection) (settings : Assoc String) : Type 0 where
  pub redirect_uri :
      lookup "redirect_uri" settings
      ≡ lookup "redirect_uri" (exchange_request out (exchange_of config out code c p)).form
  pub pkce :
      (verifier : String) × (challenge : String) × (lookup "code_verifier"
          (exchange_request out (exchange_of config out code c p)).form
        ≡ some verifier)
      × (lookup "code_challenge" settings ≡ some challenge)
      × (validate_pkce out.codec.encode fresh.sha256 verifier challenge ≡ true)

module _ (config : Config) (out : Outside) (fresh : Fresh) (request : ConsentRequest)
    (provider : Provider) (code : String) where
  settings-Fits :
      (verifier challenge state : String)
      → generate_pkce out.codec.encode fresh.sha256 fresh.random_bytes ≡ some (verifier, challenge)
      → (verifier == "") ≡ false
      → lookup "redirect_uri" (extra_settings provider.params) ≡ none
      → lookup "code_challenge" (extra_settings provider.params) ≡ none
      → Fits config out fresh code provider
          (new_connection out fresh request provider (some verifier))
          (auth_settings config
            (text_or_empty provider.client_id)
            state
            challenge
            (listed request.scopes)
            provider.params)
  unfolding exchange_of new_connection
  settings-Fits verifier challenge state drawn given uri_free challenge_free =
      let x =
        exchange_of config out code (new_connection out fresh request provider (some verifier))
          provider in
      let scopes = listed request.scopes in
      let client_id = text_or_empty provider.client_id in
      record {
        redirect_uri =
            redirect_uri-auth_settings config client_id state challenge scopes provider.params
              uri_free
            ∙ sym (redirect_uri-exchange_request out x);
        pkce = (
          verifier,
          challenge,
          verifier-exchange_request out x given,
          challenge-auth_settings config client_id state challenge scopes provider.params
              challenge_free,
          validate_pkce-generate_pkce out.codec.encode fresh.sha256 fresh.random_bytes verifier
              challenge drawn,
        );
      }

  build_auth_url-eq-some :
      (auth_url state challenge : String) {url : String}
      → build_auth_url config out auth_url
          (text_or_empty provider.client_id)
          state
          challenge
          (listed request.scopes)
          provider.params
        ≡ some url
      → out.with_query auth_url (
          auth_settings config
            (text_or_empty provider.client_id)
            state
            challenge
            (listed request.scopes)
            provider.params)
        ≡ some url
  unfolding build_auth_url
  build_auth_url-eq-some auth_url state challenge h = elim (Bool-cases (auth_url == "")) [
    | inl empty ↦ absurd (cc (rw empty at h))
    | inr set ↦ rw set at h
  ]

  -- A consent for a provider of type "oauth2" or "" that comes to a URL has created one connection,
  -- and the URL is an endpoint with the settings of an authorization request that belongs to the
  -- token request of this connection's callback. Both name the same redirect URI, and the verifier
  -- of the second validates against the challenge of the first. This is for a verifier that
  -- generate_pkce drew and that is not empty, if the provider's params replace neither the redirect
  -- URI nor the challenge.
  pub exchange_request-auth_settings :
      (faults : Faults) (w w' : World) (url state verifier challenge : String)
      → is_oauth2 provider ≡ true
      → Ends (oauth2_consent config out fresh faults request provider) w (url, state) w'
      → generate_pkce out.codec.encode fresh.sha256 fresh.random_bytes ≡ some (verifier, challenge)
      → (verifier == "") ≡ false
      → lookup "redirect_uri" (extra_settings provider.params) ≡ none
      → lookup "code_challenge" (extra_settings provider.params) ≡ none
      → (c : Connection) × (endpoint : String) × (settings : Assoc String) × (w'
          ≡ with_connection c w)
        × (out.with_query endpoint settings ≡ some url)
        × Fits config out fresh code provider c settings
  exchange_request-auth_settings faults w w' url state verifier challenge oauth ended drawn given
        uri_free challenge_free =
      let (kept, free, signed, made, after) =
        oauth2_consent-Ends config out fresh faults request provider w oauth ended in
      elim made [
        | inr (other, _, _, _) ↦ absurd (cc (oauth, other))
        | inl (pkce, same, drew, stored, built) ↦
            let one : ◌≡◌ {A = Option (String × String)} (some pkce) (some (verifier, challenge)) =
              sym drew ∙ drawn in
            let pair : pkce ≡ (verifier, challenge) = cc one in
            let has : kept ≡ some verifier = stored ∙ ap (λ x. some x.0) pair in
            (
              new_connection out fresh request provider (some verifier),
              _,
              _,
              after ∙ ap (λ v. with_connection (new_connection out fresh request provider v) w) has,
              build_auth_url-eq-some _ state challenge (
                  subst
                    (λ x.
                      build_auth_url config out
                        (consent_auth_url out (listed request.scopes)
                          (text_or_empty provider.auth_url))
                        (text_or_empty provider.client_id) state x (listed request.scopes)
                        provider.params
                      ≡ some url)
                    (ap (λ x. x.1) pair) built),
              settings-Fits verifier challenge state drawn given uri_free challenge_free,
            )
      ]
