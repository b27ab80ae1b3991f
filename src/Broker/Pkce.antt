-- ===== src/Broker/Pkce.antt =====
-- nexus-broker/pkg/auth/pkce.go: the code verifier of a consent and its challenge. The bytes of
-- crypto/rand, the base64 encoding and SHA-256 are arguments.
use nexus_framework.Prelude.{String, Bool, Option, none, some, ◌==◌}
use nexus_framework.Prelude.Text.{trim_right_char}

-- GeneratePKCE, on the 32 random bytes: the verifier and the challenge
unfoldable pub generate_pkce :
    (String → String) → (String → String) → Option String → Option (String × String)
generate_pkce encode sha256 none = none
generate_pkce encode sha256 (some bytes) =
    let verifier = encode bytes in some (verifier, encode (sha256 verifier))

-- ValidatePKCE
unfoldable pub validate_pkce : (String → String) → (String → String) → String → String → Bool
validate_pkce encode sha256 verifier challenge =
    trim_right_char b'=' (encode (sha256 verifier)) == trim_right_char b'=' challenge
