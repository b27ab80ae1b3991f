-- ===== src/Broker/Handler.antt =====
-- nexus-broker/pkg/handlers: what the handlers share. A handler runs over the database and the
-- counters and answers with a response; an early return skips the rest of the block. The texts of
-- error messages are left out, and so are the details of most audit events, which are such texts.
pub mod Keeps
pub mod Outcomes
use Prim.Native.String.{len}
use nexus_framework.Prelude.{
  ℕ, String, Bool, true, false, Option, none, some, List, [], ◌∷◌, ◌++◌, ◌==◌, ◌=?◌, if◌then◌else◌,
  Result, ok, err,
}
use nexus_framework.Prelude.Maps.{Assoc, lookup}
use nexus_framework.Prelude.Int.{ℤ, pos, scale, wrap64, ◌+ℤ◌}
use nexus_framework.Json.{Value, null, bool, num, str, obj, string_at}
use nexus_framework.Broker.State.{Codec, StateData, StateError}
use nexus_framework.Broker.ReturnUrl.{Urls}
use nexus_framework.Broker.Db.{
  Db, Faults, TokenRow, AuditEvent, upsert_token, update_status, insert_audit, upsert_token_row,
  set_status,
}

pub data Response : Type 0 where
  error : ℕ → String → Response
  json : ℕ → Assoc Value → Response
  redirect : String → Response
  dropped : Response  -- a panic: the connection is closed without an answer

-- The Prometheus counters of the handlers.
pub record Metrics : Type 0 where
  pub exchange_success : ℕ
  pub exchange_error : ℕ
  pub id_tokens : ℕ
  pub token_gets : List (ℕ × Bool)
  pub consents : ℕ
  pub consents_openid : ℕ

pub record World : Type 0 where
  pub db : Db
  pub metrics : Metrics

pub record Config : Type 0 where
  pub base_url : String
  pub redirect_path : String
  pub encryption_key : String
  pub state_key : String
  pub enforce_return_url : Bool
  pub allowed_return_domains : List String
  pub audit : Bool  -- whether there is an audit service

-- The answer of an HTTP server, or an error before one.
pub data HttpAnswer : Type 0 where
  unreachable : HttpAnswer
  answered : ℕ → String → HttpAnswer

pub record Metadata : Type 0 where
  pub authorization_endpoint : String
  pub token_endpoint : String

-- A request that the broker sends: its URL, its form and its headers.
pub record OutRequest : Type 0 where
  pub url : String
  pub form : Assoc String
  pub header : Assoc String

-- Go's standard library, the UUID package, the clock, the providers' servers, and the components
-- discovery and oidc, as a handler uses them.
pub record Outside : Type 0 where
  pub codec : Codec
  pub urls : Urls
  pub now : ℤ
  pub parse_uuid : String → Option ℕ
  pub uuid_text : ℕ → String
  pub to_json : Assoc Value → Option String
  pub of_json : String → Option (Assoc Value)
  pub seal : String → String → Option String
  pub unseal : String → String → Option String
  pub base64 : String → String
  pub rfc3339 : ℤ → String
  pub send : OutRequest → HttpAnswer
  pub discover : String → Option Metadata
  pub verify_id_token : String → String → String → Bool
  pub with_query : String → Assoc String → Option String

abbrev pub Handler : Type 0 → Type 0
Handler A = World → Result Response A × World

abbrev pub continue : {A B : Type 0} → Result Response A → (A → Handler B) → Handler B
continue (ok a) f w = f a w
continue (err r) f w = (err r, w)

infixl 5 ◌>>=◌ ◌>>◌
unfoldable pub ◌>>=◌ : {A B : Type 0} → Handler A → (A → Handler B) → Handler B
◌>>=◌ m f w = let (r, w') = m w in continue r f w'

unfoldable pub ◌>>◌ : {A B : Type 0} → Handler A → Handler B → Handler B
m >> k = m >>= λ _. k

unfoldable pub pure : {A : Type 0} → A → Handler A
pure a w = (ok a, w)

-- An early return.
unfoldable pub reply : {A : Type 0} → Response → Handler A
reply r w = (err r, w)

unfoldable pub require : {A : Type 0} → Option A → Response → Handler A
require none r = reply r
require (some a) r = pure a

unfoldable pub guard : Bool → Response → Handler (Unit {0})
guard true r = pure tt
guard false r = reply r

unfoldable pub get_db : Handler Db
get_db w = (ok w.db, w)

unfoldable pub count_metric : (Metrics → Metrics) → Handler (Unit {0})
count_metric f w = (ok tt, record w { metrics = f w.metrics })

-- The response of a handler, which every path gives.
abbrev pub settle : Result Response Response → Response
settle (ok r) = r
settle (err r) = r

unfoldable pub run : Handler Response → World → Response × World
run h w = let (r, w') = h w in (settle r, w')

-- logAuditEvent: a failed insert is only logged.
unfoldable pub log_audit_event :
    Config → Faults → Option ℕ → String → Assoc String → Handler (Unit {0})
log_audit_event config faults id kind details w =
    if config.audit
    then (if faults insert_audit then (ok tt, w) else (
      ok tt,
      record w {
        db = record w.db {
          audit_events =
              w.db.audit_events
              ++ record { connection_id = id; event_type = kind; event_data = details } ∷ [];
        };
      },
    ))
    else (ok tt, w)

-- updateConnectionStatus; the result says whether the statement succeeded.
unfoldable pub update_connection_status : Faults → ℕ → String → Handler Bool
update_connection_status faults id status w = if faults update_status then (ok false, w) else (
  ok true,
  record w { db = record w.db { connections = set_status id status w.db.connections } },
)

abbrev pub has_key_length : String → Bool
has_key_length key = len key =? 32

-- vault.Encrypt and vault.Decrypt: AES-GCM under a key of 32 bytes
unfoldable pub encrypt : Outside → String → String → Option String
encrypt out key text = if has_key_length key then out.seal key text else none

unfoldable pub decrypt : Outside → String → String → Option String
decrypt out key text = if has_key_length key then out.unseal key text else none

abbrev expiry_of : ℤ → Value → Option ℤ
expiry_of now (num n) = some (now +ℤ wrap64 (scale 1000000000 n))
expiry_of now _ = none

-- The expiry of new tokens: now plus expires_in seconds, if the provider sent a number.
unfoldable pub token_expiry : ℤ → Assoc Value → Option ℤ
unfolding ◌+ℤ◌ wrap64
token_expiry now tokens = elim (lookup "expires_in" tokens) [
  | none ↦ none
  | some v ↦ expiry_of now v
]

-- storeTokens; the result says whether it succeeded.
unfoldable pub store_tokens : Config → Outside → Faults → ℕ → Assoc Value → Handler Bool
store_tokens config out faults id tokens w = elim (out.to_json tokens) [
  | none ↦ (ok false, w)
  | some text ↦ elim (encrypt out config.encryption_key text) [
    | none ↦ (ok false, w)
    | some sealed ↦ if faults upsert_token then (ok false, w) else (
      ok true,
      record w {
        db = record w.db {
          tokens =
              upsert_token_row
                (record {
                  connection_id = id;
                  encrypted_data = sealed;
                  expires_at = token_expiry out.now tokens;
                })
                w.db.tokens;
        };
      },
    )
  ]
]

-- A missing value is an audit event and an early return.
unfoldable pub require_audited :
    {A : Type 0} → Config → Faults → Option A → Option ℕ → String → Response → Handler A
require_audited config faults none id kind r = do log_audit_event config faults id kind []; reply r
require_audited config faults (some a) id kind r = pure a

abbrev pub text_or_empty : Option String → String
text_or_empty none = ""
text_or_empty (some s) = s

abbrev pub state_of : Result StateError StateData → Option StateData
state_of (ok d) = some d
state_of (err e) = none

-- The part of a path before its last, where the path has three parts: /connections/{id}/token
abbrev before_last : String → String → List String → String
before_last a b [] = a
before_last a b (c ∷ l) = before_last b c l

abbrev pub path_id : List String → Option String
path_id (a ∷ b ∷ c ∷ l) = some (before_last b c l)
path_id _ = none
