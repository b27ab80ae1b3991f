-- ===== src/Bridge/Credentials.antt =====
-- nexus-bridge/grpc_credentials.go: the token cache behind each gRPC call. The provider is a list
-- of answers; a fetch takes the next one. An empty list is a provider that no longer answers.
pub mod Herd
use nexus_framework.Prelude.{
  ℕ, String, suc, ◌+◌, ◌*◌, Bool, false, Option, none, some, List, [], ◌∷◌, if◌then◌else◌, Result,
  ok, err,
}
use nexus_framework.Prelude.Int.{
  ℤ, pos, negsuc, pos_part, neg_part, ltb_ℤ, leb_ℤ, ◌=ℤ◌, ◌-ℤ◌, scale,
}
use nexus_framework.Strategy.{Token, Crypto}
use nexus_framework.Strategy.Grpc.{get_grpc_metadata}
use nexus_framework.Prelude.Maps.{Assoc}
use nexus_framework.Bridge.Errors.{GoError, plain, wrapped}

-- The state that the mutex guards, with the answers that the provider has yet to give.
pub record Cache : Type 0 where
  pub cached_token : Option Token
  pub answers : List (Result GoError Token)
  pub fetches : ℕ

-- isExpired: the clock is past the expiry less the buffer; an expiry of 0 never passes. Expiries
-- are seconds; the clock and the buffer are nanoseconds.
unfoldable pub is_expired : ℤ → ℤ → Token → Bool
unfolding ◌-ℤ◌
is_expired buffer now t =
    if t.expires_at =ℤ pos 0 then false else ltb_ℤ (scale 1000000000 t.expires_at -ℤ buffer) now

-- A cached token that may be used at this time.
unfoldable pub usable : ℤ → ℤ → Option Token → Option Token
usable buffer now none = none
usable buffer now (some t) = if is_expired buffer now t then none else some t

no_answer : GoError
no_answer = plain "no answer"

-- oauthClient.GetToken and the write of its token to the cache
unfoldable pub fetch : Cache → Result GoError Token × Cache
unfolding no_answer
fetch c = elim c.answers [
  | [] ↦ (err no_answer, record c { fetches = suc c.fetches })
  | a ∷ rest ↦ elim a [
    | err e ↦ (err e, record c { answers = rest; fetches = suc c.fetches })
    | ok t ↦ (ok t, record { cached_token = some t; answers = rest; fetches = suc c.fetches })
  ]
]

-- The part of getValidToken under the write lock: it looks again before it fetches.
unfoldable pub locked_part : ℤ → ℤ → Cache → Result GoError Token × Cache
locked_part buffer now c = elim (usable buffer now c.cached_token) [
  | some t ↦ (ok t, c)
  | none ↦ fetch c
]

-- getValidToken with nobody else at work
unfoldable pub get_valid_token : ℤ → ℤ → Cache → Result GoError Token × Cache
get_valid_token buffer now c = elim (usable buffer now c.cached_token) [
  | some t ↦ (ok t, c)
  | none ↦ locked_part buffer now c
]

-- Callers that all found no usable token and hold the write lock one after the other, each at its
-- own time.
unfoldable pub locked_parts : ℤ → List ℤ → Cache → List (Result GoError Token) × Cache
locked_parts buffer [] c = ([], c)
locked_parts buffer (now ∷ later) c =
    let (r, c') = locked_part buffer now c in
    let (rs, c'') = locked_parts buffer later c' in (r ∷ rs, c'')

-- GetRequestMetadata: the token, then the metadata of its strategy.
unfoldable pub get_request_metadata : Crypto → ℤ → ℤ → Cache → Result GoError (Assoc String) × Cache
get_request_metadata crypto buffer now c =
    let (r, c') = get_valid_token buffer now c in
    elim r [
      | err e ↦ (err (wrapped "failed to get valid credentials" e), c')
      | ok t ↦ elim (get_grpc_metadata crypto t.strategy t.credentials) [
        | err _ ↦ (err (plain "failed to generate auth metadata"), c')
        | ok md ↦ (ok md, c')
      ]
    ]
