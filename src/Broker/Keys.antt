-- ===== src/Broker/Keys.antt =====
-- nexus-broker/pkg/config/keys.go: the keys of the configuration. Bytes are characters of a text.
use Prim.Native.String.{len}
use nexus_framework.Prelude.{
  ℕ, zero, suc, String, Option, none, some, ◌==◌, ◌=?◌, leb, if◌then◌else◌, Result, ok, err,
}
use nexus_framework.Prelude.Text.{◌<>◌}

pub data KeyError : Type 0 where
  not_set not_base64 : KeyError
  wrong_length : ℕ → KeyError

abbrev of_length : String → Result KeyError String
of_length key = if len key =? 32 then ok key else err (wrong_length (len key))

-- ValidateKey, with base64's StdEncoding
unfoldable pub validate_key : (String → Option String) → String → Result KeyError String
validate_key decode value =
    if value == ""
    then err not_set
    else (elim (decode value) [ none ↦ err not_base64 | some key ↦ of_length key ])

unfoldable pub first_chars : ℕ → String → String
first_chars zero s = ""
first_chars (suc n) String.[] = ""
first_chars (suc n) (String.◌∷◌ c s) = String.◌∷◌ c (first_chars n s)

-- KeyFingerprint
unfoldable pub key_fingerprint : (String → String) → String → String
key_fingerprint encode key =
    if leb 8 (len (encode key)) then first_chars 8 (encode key) <> "..." else encode key
