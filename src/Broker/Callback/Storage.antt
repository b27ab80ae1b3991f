-- ===== src/Broker/Callback/Storage.antt =====
-- nexus-broker/pkg/handlers/callback.go: storing tokens, and the status that follows.
use nexus_framework.Prelude.{
  ℕ, String, ◌≡◌, refl, ◌∙◌, ap, Bool, true, false, Option, some, List, [], ◌∷◌, if◌then◌else◌,
  arith, ok, Option-cases, Bool-cases, inl, inr,
}
use nexus_framework.Prelude.Maps.{Assoc}
use nexus_framework.Json.{Value}
use nexus_framework.Broker.Db.{
  Connection, TokenRow, Faults, upsert_token, find_token, set_status, update_status,
}
use nexus_framework.Broker.Db.Laws.{find_token-upsert_token_row}
use nexus_framework.Broker.Handler.{
  error, World, Config, Outside, encrypt, token_expiry, log_audit_event, update_connection_status,
  store_tokens, pure, reply, ◌>>◌,
}
use nexus_framework.Broker.Handler.Outcomes.{Ends, bind-Ends, then-Ends, pure-Ends, reply-Ends}
use nexus_framework.Broker.Callback.{callback_store}

-- The token row that storing leaves.
abbrev pub Stored : Config → Outside → ℕ → Assoc Value → List TokenRow → Type 0
Stored config out id t rows =
    (text : String) × (sealed : String) × (out.to_json t ≡ some text)
    × (encrypt out config.encryption_key text ≡ some sealed)
    × (find_token id rows
        ≡ some (record {
          connection_id = id;
          encrypted_data = sealed;
          expires_at = token_expiry out.now t;
        }))

module _ (config : Config) (out : Outside) (faults : Faults) where
  log-Ends :
      (id : Option ℕ) (kind : String) (details : Assoc String) (w : World)
      → ((log_audit_event config faults id kind details w).1.db.tokens ≡ w.db.tokens)
        × ((log_audit_event config faults id kind details w).1.db.connections ≡ w.db.connections)
  unfolding log_audit_event
  log-Ends id kind details w = (ground arith, ground arith)

  pub store_tokens-Stored :
      (id : ℕ) (t : Assoc Value) (w : World)
      → (store_tokens config out faults id t w).0 ≡ ok true
      → Stored config out id t (store_tokens config out faults id t w).1.db.tokens
        × ((store_tokens config out faults id t w).1.db.connections ≡ w.db.connections)
  unfolding store_tokens
  store_tokens-Stored id t w h = elim (Option-cases (out.to_json t)) [
    | inl failed ↦ absurd (cc (rw (failed, store_tokens) at h))
    | inr (text, written) ↦ elim (Option-cases (encrypt out config.encryption_key text)) [
      | inl failed ↦ absurd (cc (rw (written, failed, store_tokens) at h))
      | inr (sealed, e) ↦ elim (Bool-cases (faults upsert_token)) [
        | inl failed ↦ absurd (cc (rw (written, e, failed, store_tokens) at h))
        | inr fine ↦
            rw (written, e, fine, store_tokens)
              (
                (
                  text,
                  sealed,
                  refl,
                  e,
                  find_token-upsert_token_row id _ w.db.tokens ∙ ground arith,
                ),
                refl,
              )
      ]
    ]
  ]

  updated_world :
      (id : ℕ) (status : String) (w : World)
      → ((update_connection_status faults id status w).1.db.tokens ≡ w.db.tokens)
        × ((update_connection_status faults id status w).1.db.connections ≡ (
            if faults update_status
            then w.db.connections
            else set_status id status w.db.connections))
  unfolding update_connection_status
  updated_world id status w = (ground arith, ground arith)

  stored_test :
      (id : ℕ) (stored : Bool) (v : World) {u : Unit {0}} {v' : World}
      → Ends
          (if stored then pure tt else (do
            log_audit_event config faults (some id) "token_storage_failed" []
            reply (error 500 "token_store_failed")))
          v
          u
          v'
      → (stored ≡ true) × (v' ≡ v)
  stored_test id true v h = (refl, (pure-Ends tt v h).1)
  stored_test id false v h =
      let (a, v2, logged, over) = then-Ends _ _ v h in absurd (reply-Ends _ v2 over)

  warned :
      (id : ℕ) (updated : Bool) (v : World) {u : Unit {0}} {v' : World}
      → Ends
          (if updated
            then pure tt
            else log_audit_event config faults (some id) "status_update_failed" [])
          v
          u
          v'
      → (v'.db.tokens ≡ v.db.tokens) × (v'.db.connections ≡ v.db.connections)
  warned id true v h =
      let same = (pure-Ends tt v h).1 in
      (ap (λ z. z.db.tokens) same, ap (λ z. z.db.connections) same)
  warned id false v h = rw h at (log-Ends (some id) "status_update_failed" [] v)

  pub store-Ends :
      (id : ℕ) (c : Connection) (t : Assoc Value) (w : World) {u : Unit {0}} {w' : World}
      → Ends (callback_store config out faults id c t) w u w'
      → Stored config out id t w'.db.tokens
        × (w'.db.connections ≡ (
            if faults update_status
            then w.db.connections
            else set_status id "active" w.db.connections))
  unfolding callback_store
  store-Ends id c t w h =
      let (stored, v, storing, rest) = bind-Ends _ _ w h in
      let (a, v2, tested, rest2) = then-Ends _ _ v rest in
      let (worked, same) = stored_test id stored v tested in
      let (updated, v3, updating, rest3) = bind-Ends _ _ v2 rest2 in
      let (b, v4, warning, logged) = then-Ends _ _ v3 rest3 in
      let (rows, unchanged) = rw storing at (store_tokens-Stored id t w (cc (storing, worked))) in
      let (t3, c3) = rw updating at (updated_world id "active" v2) in
      let (t4, c4) = warned id updated v3 warning in
      let (t5, c5) = rw logged at (
        log-Ends (some id) "oauth_flow_completed"
          (("provider_id", out.uuid_text c.provider_id) ∷ []) v4) in
      (
        rw (t5 ∙ t4 ∙ t3 ∙ ap (λ z. z.db.tokens) same) rows,
        c5 ∙ c4 ∙ c3 ∙ rw (same, unchanged) refl,
      )
