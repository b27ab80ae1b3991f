-- ===== src/Broker/Consent/Forms.antt =====
-- nexus-broker/pkg/handlers/consent.go and callback.go: the settings of an authorization request and
-- the form of a token request.
use nexus_framework.Prelude.{
  String, ◌≡◌, refl, ◌∙◌, Bool, true, false, Option, none, some, List, [], ◌∷◌, ◌==◌, eq_refl,
  if◌then◌else◌, Bool-cases, inl, inr,
}
use nexus_framework.Prelude.Text.{◌<>◌, trim_suffix_char}
use nexus_framework.Prelude.Maps.{Assoc, lookup, insert, lookup-insert, lookup-insert_self}
use nexus_framework.Json.{Value}
use nexus_framework.Broker.Pkce.{generate_pkce, validate_pkce}
use nexus_framework.Broker.Exchange.{
  Exchange, uses_basic_auth, exchange_request, set_unless_empty, flag_at,
}
use nexus_framework.Broker.Handler.{Config, Outside}
use nexus_framework.Broker.AuthUrl.{auth_settings, extra_settings, set_all, has_openid}

lookup-set_all :
    (k : String) (l q : Assoc String) → lookup k l ≡ none → lookup k (set_all l q) ≡ lookup k q
unfolding set_all lookup
lookup-set_all k [] q h = refl
lookup-set_all k ((name, v) ∷ l) q h = elim (Bool-cases (name == k)) [
  | inl same ↦ absurd (cc (rw same at h))
  | inr other ↦
      lookup-set_all k l (insert name v q) (rw other at h) ∙ (rw (lookup-insert, other) refl)
]

-- The lookup of a key in a form, where another key was set.
lookup-insert_other :
    (k other v : String) (q : Assoc String)
    → (k == other) ≡ false
    → lookup other (insert k v q) ≡ lookup other q
lookup-insert_other k other v q h = lookup-insert k other v q ∙ rw h refl

lookup-set_unless_empty :
    (k other v : String) (q : Assoc String)
    → (k == other) ≡ false
    → lookup other (set_unless_empty k v q) ≡ lookup other q
lookup-set_unless_empty k other v q h = elim (Bool-cases (v == "")) [
  | inl empty ↦ rw empty refl
  | inr given ↦ rw given (lookup-insert_other k other v q h)
]

lookup-if :
    (b : Bool) (p q : Assoc String) (k : String) {v : Option String}
    → lookup k p ≡ v
    → lookup k q ≡ v
    → lookup k (if b then p else q) ≡ v
lookup-if true p q k h g = h
lookup-if false p q k h g = g

module _ (config : Config) (client_id state challenge : String) (scopes : List String)
    (params : Option (Option (Assoc Value))) where
  pub redirect_uri-auth_settings :
      lookup "redirect_uri" (extra_settings params) ≡ none
      → lookup "redirect_uri" (auth_settings config client_id state challenge scopes params)
        ≡ some (trim_suffix_char b'/' config.base_url <> config.redirect_path)
  unfolding auth_settings
  redirect_uri-auth_settings h =
      lookup-set_all "redirect_uri" (extra_settings params) _ h
      ∙ (elim (Bool-cases (has_openid scopes)) [
        | inl openid ↦ elim (Bool-cases (flag_at "skip_scope_on_auth" params)) [
          | inl skip ↦ simp (openid, skip, lookup-insert)
          | inr sent ↦ simp (openid, sent, lookup-insert)
        ]
        | inr plain ↦ elim (Bool-cases (flag_at "skip_scope_on_auth" params)) [
          | inl skip ↦ simp (plain, skip, lookup-insert)
          | inr sent ↦ simp (plain, sent, lookup-insert)
        ]
      ])

  pub challenge-auth_settings :
      lookup "code_challenge" (extra_settings params) ≡ none
      → lookup "code_challenge" (auth_settings config client_id state challenge scopes params)
        ≡ some challenge
  unfolding auth_settings
  challenge-auth_settings h =
      lookup-set_all "code_challenge" (extra_settings params) _ h
      ∙ (elim (Bool-cases (has_openid scopes)) [
        | inl openid ↦ simp (openid, lookup-insert)
        | inr plain ↦ simp (plain, lookup-insert)
      ])

module _ (out : Outside) (x : Exchange) where
  -- The form of a token request before the client's credentials.
  abbrev located : Assoc String
  located = insert "redirect_uri" x.redirect_uri (
      set_unless_empty "code_verifier" x.code_verifier
        (insert "code" x.code (insert "grant_type" "authorization_code" [])))

  lookup-exchange_request :
      (k v : String)
      → ("scope" == k) ≡ false
      → ("client_secret" == k) ≡ false
      → ("client_id" == k) ≡ false
      → lookup k located ≡ some v
      → lookup k (exchange_request out x).form ≡ some v
  unfolding exchange_request
  lookup-exchange_request k v scope secret id h =
      let identified =
        lookup-if (uses_basic_auth x.auth_header) located
          (set_unless_empty "client_secret" x.client_secret
            (set_unless_empty "client_id" x.client_id located))
          k h
          (lookup-set_unless_empty "client_secret" k x.client_secret _ secret
            ∙ lookup-set_unless_empty "client_id" k x.client_id _ id
            ∙ h) in
      lookup-if _ _ _ k (lookup-insert_other "scope" k _ _ scope ∙ identified) identified

  pub redirect_uri-exchange_request :
      lookup "redirect_uri" (exchange_request out x).form ≡ some x.redirect_uri
  redirect_uri-exchange_request =
      lookup-exchange_request "redirect_uri" x.redirect_uri refl refl refl
        (lookup-insert_self "redirect_uri" x.redirect_uri _)

  pub verifier-exchange_request :
      (x.code_verifier == "") ≡ false
      → lookup "code_verifier" (exchange_request out x).form ≡ some x.code_verifier
  verifier-exchange_request given =
      lookup-exchange_request "code_verifier" x.code_verifier refl refl refl (
        lookup-insert_other "redirect_uri" "code_verifier" x.redirect_uri _ refl
        ∙ rw given (lookup-insert_self "code_verifier" x.code_verifier _))

pub validate_pkce-generate_pkce :
    (encode sha256 : String → String) (bytes : Option String) (v c : String)
    → generate_pkce encode sha256 bytes ≡ some (v, c)
    → validate_pkce encode sha256 v c ≡ true
unfolding generate_pkce validate_pkce
validate_pkce-generate_pkce encode sha256 none v c h = absurd (cc h)
validate_pkce-generate_pkce encode sha256 (some bytes) v c h =
    let e : encode bytes ≡ v = cc h in
    let f : encode (sha256 (encode bytes)) ≡ c = cc h in rw (← f, ← e) (eq_refl _)
