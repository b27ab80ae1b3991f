-- ===== src/Examples/IdToken.antt =====
-- nexus-broker/pkg/oidc/validator.go: the theorem at a concrete input.
use nexus_framework.Prelude.{String, ◌≡◌, refl, Option, none, some, [], ◌∷◌}
use nexus_framework.Prelude.Int.{pos}
use nexus_framework.Json.{str}
use nexus_framework.Broker.Oidc.{
  Claims, OidcLibrary, unverified_issuer, get_oidc_provider, verify_id_token,
}
use nexus_framework.Broker.Oidc.Nonce.{verify_id_token_sound}

abbrev toy_library : OidcLibrary
toy_library = record {
  decode = λ s. some s;
  of_json = λ s. some (("iss", str "https://id.example.com") ∷ []);
  provider = λ issuer. some (λ raw client. some (record { iat = pos 1; nonce = "n" }));
}

verify_id_token_sound_example :
    (issuer : String) × (verify : String → String → Option Claims) × (c : Claims)
    × (unverified_issuer toy_library "a.b.c" ≡ some issuer)
    × (get_oidc_provider toy_library issuer ≡ some verify)
    × (verify "a.b.c" "client" ≡ some c)
    × (c.nonce ≡ "n")
unfolding verify_id_token nexus_framework.Prelude.Text.trim_space unverified_issuer
    nexus_framework.Prelude.Text.split nexus_framework.Prelude.Maps.lookup get_oidc_provider
    nexus_framework.Broker.Oidc.has_good_claims
verify_id_token_sound_example =
    verify_id_token_sound toy_library (pos 1000000000) "a.b.c" "client" "n" refl refl
