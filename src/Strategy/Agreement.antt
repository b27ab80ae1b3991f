-- ===== src/Strategy/Agreement.antt =====
-- nexus-bridge/pkg/auth/strategies.go: the HTTP and the gRPC form of a strategy carry the same value.
use text.Mathlib.TextLemmas.{nil-append}
use nexus_framework.Prelude.{
  String, ◌≡◌, sym, ◌⊎◌, inl, inr, Option, none, some, [], ◌∷◌, ◌==◌, if◌then◌else◌, arith, eq_iff,
  Bool-cases, Result, ok, Result-cases,
}
use nexus_framework.Prelude.Text.{◌<>◌, to_lower, canonical_key}
use nexus_framework.Prelude.Maps.{Assoc, lookup, lookup-insert_self}
use nexus_framework.Json.{Value, null, str, string_at}
use nexus_framework.Strategy.{
  AuthStrategy, Credentials, Request, Crypto, AuthError, config_or, require_field, non_empty,
  apply_header_auth, apply_basic_auth, apply_authentication, basic_value, oauth_config,
}
use nexus_framework.Strategy.Grpc.{
  text_field, present_field, header_metadata, basic_metadata, get_grpc_metadata,
}

-- What HTTP accepts, gRPC reads as the same text.
text_of_non_empty :
    (f : String) (o : Option Value) (v : String) → non_empty f o ≡ ok v → text_field f o ≡ ok v
text_of_non_empty f none v h = cc
text_of_non_empty f (some null) v h = cc
text_of_non_empty f (some (str s)) v h = ground arith
text_of_non_empty f (some _) v h = cc

present_of_non_empty :
    (f : String) (o : Option Value) (v : String) → non_empty f o ≡ ok v → present_field f o ≡ ok v
present_of_non_empty f none v h = cc
present_of_non_empty f (some null) v h = cc
present_of_non_empty f (some (str s)) v h = ground arith
present_of_non_empty f (some _) v h = cc

module _ (f : String) (creds : Credentials) (v : String) (h : require_field f creds ≡ ok v) where
  text-require : text_field f (lookup f creds) ≡ ok v
  unfolding require_field
  text-require = text_of_non_empty f _ v h

  present-require : present_field f (lookup f creds) ≡ ok v
  unfolding require_field
  present-require = present_of_non_empty f _ v h

-- The header and the metadata agree on a value, under a name that gRPC writes in small letters.
abbrev pub Agree : Request × Option AuthError → Result AuthError (Assoc String) → Type 0
Agree sent md =
    (name : String) × (value : String) × (lookup (canonical_key name) sent.0.header
      ≡ some (value ∷ []))
    × (md ≡ ok ((to_lower name, value) ∷ []))

-- The name under which gRPC sends a header, whether it is configured or not.
grpc_key :
    (named : String)
    → (if named == "" then "authorization" else to_lower named)
      ≡ to_lower (if named == "" then "Authorization" else named)
unfolding to_lower
grpc_key named = elim (Bool-cases (named == "")) [ inl h ↦ rw h | inr h ↦ rw h ]

prefixed : (prefix v : String) → (if prefix == "" then v else prefix <> v) ≡ prefix <> v
prefixed prefix v = elim (Bool-cases (prefix == "")) [
  | inl h ↦ rw (h, (eq_iff _ _).0 h) (sym (nil-append v))
  | inr h ↦ rw h
]

module _ (crypto : Crypto) (req : Request) (strategy : AuthStrategy) (creds : Credentials) where
  basic-Agree :
      (apply_basic_auth crypto req strategy.config creds).1 ≡ none
      → Agree
          (apply_basic_auth crypto req strategy.config creds)
          (basic_metadata crypto strategy creds)
  unfolding apply_basic_auth basic_metadata to_lower
  basic-Agree h =
      let user_field = config_or "username_field" "username" strategy.config in
      let pass_field = config_or "password_field" "password" strategy.config in
      elim (Result-cases (require_field user_field creds)) [
        | inr (e, he) ↦ absurd (cc (rw he at h))
        | inl (user, hu) ↦ elim (Result-cases (require_field pass_field creds)) [
          | inr (e, he) ↦ absurd (cc (rw (hu, he) at h))
          | inl (pass, hp) ↦ (
            "Authorization",
            basic_value crypto user pass,
            rw (hu, hp) (lookup-insert_self _ _ _),
            rw (present-require _ _ _ hu, present-require _ _ _ hp),
          )
        ]
      ]

  header-Agree :
      strategy.type ≡ "header"
      → (apply_header_auth req strategy.config creds).1 ≡ none
      → Agree (apply_header_auth req strategy.config creds) (header_metadata strategy creds)
  unfolding apply_header_auth header_metadata
  header-Agree t h =
      let field = config_or "credential_field" "api_key" strategy.config in
      elim (Result-cases (require_field field creds)) [
        | inr (e, he) ↦ absurd (cc (rw he at h))
        | inl (v, hv) ↦ (
          config_or "header_name" "Authorization" strategy.config,
          string_at "value_prefix" strategy.config <> v,
          rw (hv, prefixed) (lookup-insert_self _ _ _),
          rw (t, text-require _ _ _ hv, grpc_key),
        )
      ]

  oauth2-Agree :
      strategy.type ≡ "oauth2"
      → (apply_header_auth req oauth_config creds).1 ≡ none
      → Agree (apply_header_auth req oauth_config creds) (header_metadata strategy creds)
  unfolding apply_header_auth header_metadata lookup to_lower
  oauth2-Agree t h = elim (Result-cases (require_field "access_token" creds)) [
    | inr (e, he) ↦ absurd (cc (rw he at h))
    | inl (v, hv) ↦ (
      "Authorization",
      "Bearer " <> v,
      rw hv (lookup-insert_self _ _ _),
      rw (t, text-require _ _ _ hv),
    )
  ]

-- Whenever an HTTP request is signed with a "header", "oauth2" or "basic_auth" strategy, the same
-- strategy and credentials give gRPC metadata of one entry, and it carries the value of the header
-- that was set, under the header's name in small letters.
pub apply_authentication-get_grpc_metadata :
    (crypto : Crypto) (req : Request) (strategy : AuthStrategy) (creds : Credentials)
    → (strategy.type ≡ "header") ⊎ (strategy.type ≡ "oauth2") ⊎ (strategy.type ≡ "basic_auth")
    → (apply_authentication crypto req strategy creds).1 ≡ none
    → Agree
        (apply_authentication crypto req strategy creds)
        (get_grpc_metadata crypto strategy creds)
unfolding apply_authentication get_grpc_metadata
apply_authentication-get_grpc_metadata crypto req strategy creds (inl t) h =
    simp t (header-Agree crypto req strategy creds t (simp t at h))
apply_authentication-get_grpc_metadata crypto req strategy creds (inr (inl t)) h =
    simp t (oauth2-Agree crypto req strategy creds t (simp t at h))
apply_authentication-get_grpc_metadata crypto req strategy creds (inr (inr t)) h =
    simp t (basic-Agree crypto req strategy creds (simp t at h))
