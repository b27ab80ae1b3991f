-- ===== src/Broker/Token/RoundTrip.antt =====
-- nexus-broker/pkg/handlers/callback.go: what was stored is what GetToken reads.
use nexus_framework.Prelude.{ℕ, String, ◌≡◌, refl, true, false, some, arith, ok}
use nexus_framework.Prelude.Maps.{Assoc}
use nexus_framework.Json.{Value}
use nexus_framework.Broker.Db.{Faults, select_token}
use nexus_framework.Broker.Handler.{
  World, Config, Outside, encrypt, decrypt, token_expiry, ◌>>=◌, get_db, require_audited, pure,
  store_tokens,
}
use nexus_framework.Broker.Callback.Storage.{Stored, store_tokens-Stored}
use nexus_framework.Broker.Token.{with_expiry, stored_credentials}

-- What the code relies on of AES-GCM and encoding/json: a later reader undoes an earlier writer.
pub record Reads (out out' : Outside) : Type 0 where
  pub unseal-seal :
      (key text sealed : String)
      → out.seal key text ≡ some sealed
      → out'.unseal key sealed ≡ some text
  pub of_json-to_json :
      (t : Assoc Value) (text : String) → out.to_json t ≡ some text → out'.of_json text ≡ some t

decrypt-encrypt :
    (out out' : Outside)
    → Reads out out'
    → (key text sealed : String) → encrypt out key text ≡ some sealed
    → decrypt out' key sealed ≡ some text
unfolding encrypt decrypt
decrypt-encrypt out out' law key text sealed h = ground (arith, law.unseal-seal key text sealed)

module _ (config : Config) (out out' : Outside) (faults faults' : Faults)
    (law : Reads out out') where
  pub credentials-Stored :
      (id : ℕ) (t : Assoc Value) (w : World)
      → Stored config out id t w.db.tokens
      → faults' select_token ≡ false
      → stored_credentials config out' faults' id w
        ≡ (ok (with_expiry out' (token_expiry out.now t) t), w)
  unfolding stored_credentials ◌>>=◌ get_db require_audited pure
  credentials-Stored id t w (text, sealed, written, e, found) fine =
      rw
        (
          fine,
          found,
          decrypt-encrypt out out' law config.encryption_key text sealed e,
          law.of_json-to_json t text written,
        )
        refl

  -- Credentials that storeTokens stored for a connection are the ones that GetToken's reader returns
  -- for it later, with the expiry that was computed when they were stored, and nothing else changes.
  pub stored_credentials-store_tokens :
      (id : ℕ) (t : Assoc Value) (w : World)
      → (store_tokens config out faults id t w).0 ≡ ok true
      → faults' select_token ≡ false
      → stored_credentials config out' faults' id (store_tokens config out faults id t w).1 ≡ (
        ok (with_expiry out' (token_expiry out.now t) t),
        (store_tokens config out faults id t w).1,
      )
  stored_credentials-store_tokens id t w h fine =
      credentials-Stored id t (store_tokens config out faults id t w).1
        (store_tokens-Stored config out faults id t w h).0 fine
