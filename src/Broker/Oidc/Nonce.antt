-- ===== src/Broker/Oidc/Nonce.antt =====
-- nexus-broker/pkg/oidc/validator.go, VerifyIDToken: what an accepted token carries.
use nexus_framework.Prelude.{
  String, ◌≡◌, true, false, Option, some, ◌==◌, arith, eq_iff, Option-cases, inl, inr,
}
use nexus_framework.Prelude.Text.{trim_space}
use nexus_framework.Prelude.Int.{ℤ}
use nexus_framework.Broker.Oidc.{
  Claims, OidcLibrary, unverified_issuer, get_oidc_provider, has_good_claims, verify_id_token,
}

good_nonce :
    (now : ℤ) (expected : String) (c : Claims)
    → (trim_space expected == "") ≡ false
    → has_good_claims now expected c ≡ true
    → c.nonce ≡ expected
unfolding has_good_claims
good_nonce now expected c given h = (eq_iff c.nonce expected).0 (ground (arith, given, h))

-- For an expected nonce that is not blank, an accepted token is one that the provider of the issuer
-- in the token has verified for the client, and its nonce is the expected one.
pub verify_id_token_sound :
    (lib : OidcLibrary) (now : ℤ) (raw client_id expected : String)
    → verify_id_token lib now raw client_id expected ≡ true
    → (trim_space expected == "") ≡ false
    → (issuer : String) × (verify : String → String → Option Claims) × (c : Claims)
      × (unverified_issuer lib raw ≡ some issuer)
      × (get_oidc_provider lib issuer ≡ some verify)
      × (verify raw client_id ≡ some c)
      × (c.nonce ≡ expected)
unfolding verify_id_token
verify_id_token_sound lib now raw client_id expected h given =
    elim (Option-cases (unverified_issuer lib raw)) [
      | inl unread ↦ absurd (ground (arith, rw (unread, verify_id_token) at h))
      | inr (issuer, read) ↦ elim (Option-cases (get_oidc_provider lib issuer)) [
        | inl unknown ↦ absurd (ground (arith, rw (read, unknown, verify_id_token) at h))
        | inr (verify, known) ↦ elim (Option-cases (verify raw client_id)) [
          | inl refused ↦ absurd (ground (arith, rw (read, known, refused, verify_id_token) at h))
          | inr (c, verified) ↦ (
            issuer,
            verify,
            c,
            read,
            known,
            verified,
            good_nonce now expected c given
                (ground (arith, rw (read, known, verified, verify_id_token) at h)),
          )
        ]
      ]
    ]
