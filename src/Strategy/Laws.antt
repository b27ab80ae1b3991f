-- ===== src/Strategy/Laws.antt =====
-- nexus-bridge/pkg/auth/strategies.go: what a strategy does to a request.
use nexus_framework.Prelude.{◌≡◌, ◌≢◌, refl, some, arith, eq_iff, Result, ok, err}
use nexus_framework.Prelude.Maps.{Assoc}
use nexus_framework.Json.{Value}
use nexus_framework.Strategy.{
  AuthStrategy, Credentials, Request, Crypto, AuthError, finish, apply_header_auth,
  apply_query_auth, apply_basic_auth, apply_hmac_payload, oauth_config, apply_authentication,
}

-- A failed strategy that ends in `finish` hands the request back.
finish_error :
    (req : Request) (r : Result AuthError Request) {e : AuthError}
    → (finish req r).1 ≡ some e
    → (finish req r).0 ≡ req
finish_error req (ok r) h = ground arith
finish_error req (err x) h = refl

module _ (crypto : Crypto) (req : Request) (config : Assoc Value) (creds : Credentials)
    {e : AuthError} where
  header_error :
      (apply_header_auth req config creds).1 ≡ some e → (apply_header_auth req config creds).0 ≡ req
  unfolding apply_header_auth
  header_error h = finish_error req _ h

  query_error :
      (apply_query_auth req config creds).1 ≡ some e → (apply_query_auth req config creds).0 ≡ req
  unfolding apply_query_auth
  query_error h = finish_error req _ h

  basic_error :
      (apply_basic_auth crypto req config creds).1 ≡ some e
      → (apply_basic_auth crypto req config creds).0 ≡ req
  unfolding apply_basic_auth
  basic_error h = finish_error req _ h

  hmac_error :
      (apply_hmac_payload crypto req config creds).1 ≡ some e
      → (apply_hmac_payload crypto req config creds).0 ≡ req
  unfolding apply_hmac_payload
  hmac_error h = finish_error req _ h

-- A strategy of any type but "aws_sigv4" that fails leaves the request as it was.
pub apply_authentication_error :
    (crypto : Crypto) (req : Request) (strategy : AuthStrategy) (creds : Credentials)
    (e : AuthError)
    → (apply_authentication crypto req strategy creds).1 ≡ some e
    → strategy.type ≢ "aws_sigv4"
    → (apply_authentication crypto req strategy creds).0 ≡ req
unfolding apply_authentication
apply_authentication_error crypto req strategy creds e h other = ground (
  arith,
  eq_iff strategy.type "aws_sigv4",
  header_error crypto req strategy.config creds {e = e},
  header_error crypto req oauth_config creds {e = e},
  query_error crypto req strategy.config creds {e = e},
  basic_error crypto req strategy.config creds {e = e},
  hmac_error crypto req strategy.config creds {e = e},
)
