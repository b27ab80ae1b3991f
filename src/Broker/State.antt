-- ===== src/Broker/State.antt =====
-- nexus-broker/pkg/auth/state.go: the signed state parameter, and the second reader of the same
-- format in nexus-gateway/pkg/usecase/state.go.
pub mod Laws
use nexus_framework.Prelude.{
  String, Option, none, some, List, [], ◌∷◌, ◌==◌, if◌then◌else◌, Result, ok, err, ◌>>=◌, or_err,
}
use nexus_framework.Prelude.Text.{◌<>◌, split}
use nexus_framework.Prelude.Int.{ℤ, pos, ltb_ℤ, ◌-ℤ◌, saturate64}

pub record StateData : Type 0 where
  pub workspace_id : String
  pub provider_id : String
  pub nonce : String
  pub iat : ℤ

-- encoding/json on the data, encoding/base64's RawURLEncoding, and HMAC-SHA256.
pub record Codec : Type 0 where
  pub marshal : StateData → Option String
  pub unmarshal : String → Option StateData
  pub encode : String → String
  pub decode : String → Option String
  pub mac : String → String → String

pub data StateError : Type 0 where
  marshal_failed invalid_format bad_data bad_signature_text invalid_signature bad_json expired
        missing_nonce :
      StateError

-- Ten minutes, in nanoseconds.
abbrev pub max_age : ℤ
max_age = pos 600000000000

abbrev pub two_parts : List String → Option (String × String)
two_parts (a ∷ b ∷ []) = some (a, b)
two_parts _ = none

-- time.Since(data.IAT) > 10*time.Minute
unfoldable pub check_age : ℤ → StateData → Result StateError StateData
unfolding saturate64 ◌-ℤ◌
check_age now d = if ltb_ℤ max_age (saturate64 (now -ℤ d.iat)) then err expired else ok d

-- hmac.Equal
abbrev pub check_mac : String → String → Result StateError String
check_mac given computed = if given == computed then ok computed else err invalid_signature

unfoldable pub sign_state : Codec → String → StateData → Result StateError String
sign_state codec key d = do
  bytes ← or_err (codec.marshal d) marshal_failed
  ok (codec.encode bytes <> "." <> codec.encode (codec.mac key bytes))

unfoldable pub verify_state : Codec → String → ℤ → String → Result StateError StateData
verify_state codec key now state = do
  parts ← or_err (two_parts (split b'.' state)) invalid_format
  bytes ← or_err (codec.decode parts.0) bad_data
  signature ← or_err (codec.decode parts.1) bad_signature_text
  checked ← check_mac signature (codec.mac key bytes)
  d ← or_err (codec.unmarshal bytes) bad_json
  check_age now d

-- VerifyAndExtractConnectionID
unfoldable pub extract_connection_id : Codec → String → ℤ → String → Result StateError String
extract_connection_id codec key now state = do
  parts ← or_err (two_parts (split b'.' state)) invalid_format
  bytes ← or_err (codec.decode parts.0) bad_data
  signature ← or_err (codec.decode parts.1) bad_signature_text
  checked ← check_mac signature (codec.mac key bytes)
  d ← or_err (codec.unmarshal bytes) bad_json
  fresh ← check_age now d
  if fresh.nonce == "" then err missing_nonce else ok fresh.nonce
