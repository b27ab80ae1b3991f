-- ===== src/Examples/Agent.antt =====
-- nexus-bridge/pkg/auth/strategies.go and grpc_credentials.go: the theorems at concrete inputs.
use nexus_framework.Prelude.{
  ℕ, zero, suc, String, ◌≡◌, ◌≢◌, refl, Bool, true, false, Option, none, some, List, [], ◌∷◌,
  Result, ok, err, inl, inr, ◌⊎◌,
}
use nexus_framework.Prelude.Text.{◌<>◌}
use nexus_framework.Prelude.Int.{pos}
use nexus_framework.Json.{str}
use nexus_framework.Strategy.{
  AuthStrategy, Credentials, Token, Request, Crypto, AuthError, missing, apply_authentication,
}
use nexus_framework.Strategy.Grpc.{get_grpc_metadata}
use nexus_framework.Strategy.Agreement.{Agree, apply_authentication-get_grpc_metadata}
use nexus_framework.Bridge.Credentials.{Cache, usable, is_expired, locked_parts}
use nexus_framework.Bridge.Credentials.Herd.{locked_parts_herd}

abbrev toy_crypto : Crypto
toy_crypto = record {
  hmac_sha256 = λ k s. k <> s;
  hmac_sha1 = λ k s. s <> k;
  sha256 = λ s. s;
  hex = λ s. s;
  base64 = λ s. s;
  sign_http = λ keys req hash service region. some req;
}

abbrev empty_request : Request
empty_request = record { query = []; header = []; body = none }

abbrev api_key_strategy : AuthStrategy
api_key_strategy = record { type = "header"; config = ("header_name", str "X-API-Key") ∷ [] }

abbrev api_key_credentials : Credentials
api_key_credentials = ("api_key", str "k1") ∷ []

not_aws : ◌≢◌ {A = String} "header" "aws_sigv4"
not_aws e = cc e

apply_authentication-get_grpc_metadata_example :
    Agree
      (apply_authentication toy_crypto empty_request api_key_strategy api_key_credentials)
      (get_grpc_metadata toy_crypto api_key_strategy api_key_credentials)
unfolding apply_authentication nexus_framework.Strategy.apply_header_auth
    nexus_framework.Strategy.require_field nexus_framework.Prelude.Maps.lookup
apply_authentication-get_grpc_metadata_example =
    apply_authentication-get_grpc_metadata toy_crypto empty_request api_key_strategy
      api_key_credentials (inl refl) refl

abbrev first_token : Token
first_token = record {
  strategy = api_key_strategy;
  credentials = api_key_credentials;
  expires_at = pos 100;
}

abbrev cold_cache : Cache
cold_cache = record { cached_token = none; answers = ok first_token ∷ []; fetches = 0 }

abbrev warm_cache : Cache
warm_cache = record { cached_token = some first_token; answers = []; fetches = 1 }

locked_parts_herd_example :
    locked_parts (pos 5) (pos 1 ∷ pos 2 ∷ pos 3 ∷ []) cold_cache
    ≡ (ok first_token ∷ ok first_token ∷ ok first_token ∷ [], warm_cache)
unfolding usable is_expired
locked_parts_herd_example =
    locked_parts_herd (pos 5) (pos 1) (pos 2 ∷ pos 3 ∷ []) cold_cache first_token [] refl refl
      (refl, (refl, tt))
