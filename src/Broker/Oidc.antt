-- ===== src/Broker/Oidc.antt =====
-- nexus-broker/pkg/oidc/validator.go: the verification of an identity token. The library go-oidc,
-- which checks the signature, the issuer, the audience and the expiry, is an argument.
pub mod Nonce
use nexus_framework.Prelude.{
  ℕ, String, ◌≡◌, ◌≢◌, refl, Bool, true, false, not, ◌&&◌, ◌||◌, Option, none, some, List, [], ◌∷◌,
  ◌==◌, if◌then◌else◌, arith, eq_iff, Bool-cases, Option-cases, inl, inr,
}
use nexus_framework.Prelude.Text.{trim_space, split}
use nexus_framework.Prelude.Maps.{Assoc}
use nexus_framework.Prelude.Int.{ℤ, pos, ltb_ℤ, ◌+ℤ◌, scale}
use nexus_framework.Json.{Value, string_at}

-- The claims of a verified token that the code reads; iat is 0 where it is missing.
pub record Claims : Type 0 where
  pub iat : ℤ
  pub nonce : String

-- RawURLEncoding and JSON; the provider of an issuer, if its discovery succeeds, checks a token for
-- a client.
pub record OidcLibrary : Type 0 where
  pub decode : String → Option String
  pub of_json : String → Option (Assoc Value)
  pub provider : String → Option (String → String → Option Claims)

abbrev second_part : List String → Option String
second_part (a ∷ b ∷ l) = some b
second_part _ = none

abbrev issuer_claim : Assoc Value → Option String
issuer_claim fields =
    if trim_space (string_at "iss" fields) == "" then none else some (string_at "iss" fields)

-- unverifiedIssuer
unfoldable pub unverified_issuer : OidcLibrary → String → Option String
unverified_issuer lib raw = elim (second_part (split b'.' raw)) [
  | none ↦ none
  | some part ↦ elim (lib.decode part) [
    | none ↦ none
    | some text ↦ elim (lib.of_json text) [ none ↦ none | some fields ↦ issuer_claim fields ]
  ]
]

-- getProvider
unfoldable pub get_oidc_provider : OidcLibrary → String → Option (String → String → Option Claims)
get_oidc_provider lib issuer =
    if trim_space issuer == "" then none else lib.provider (trim_space issuer)

-- The checks of the claims: iat is at most two minutes in the future, and the nonce is the expected
-- one, if one is expected.
unfoldable pub has_good_claims : ℤ → String → Claims → Bool
unfolding ◌+ℤ◌
has_good_claims now expected_nonce c =
    not (ltb_ℤ (pos 0) c.iat && ltb_ℤ (now +ℤ pos 120000000000) (scale 1000000000 c.iat))
    && (trim_space expected_nonce == ""
        || not (trim_space c.nonce == "") && c.nonce == expected_nonce)

abbrev checked : ℤ → String → Option Claims → Bool
checked now expected_nonce none = false
checked now expected_nonce (some c) = has_good_claims now expected_nonce c

abbrev verified_by : ℤ → String → String → String → Option (String → String → Option Claims) → Bool
verified_by now raw client_id expected_nonce none = false
verified_by now raw client_id expected_nonce (some verify) =
    checked now expected_nonce (verify raw client_id)

-- VerifyIDToken: whether the token is accepted
unfoldable pub verify_id_token : OidcLibrary → ℤ → String → String → String → Bool
verify_id_token lib now raw client_id expected_nonce =
    not (trim_space raw == "") && (elim (unverified_issuer lib raw) [
      | none ↦ false
      | some issuer ↦ verified_by now raw client_id expected_nonce (get_oidc_provider lib issuer)
    ])
