-- ===== src/Broker/Callback/Completes.antt =====
-- nexus-broker/pkg/handlers/callback.go, Handle: when a callback comes to its redirect.
use nexus_framework.Prelude.{
  ℕ, String, ◌≡◌, refl, ap, sym, subst, true, false, not, ◌||◌, Option, some, [], ◌∷◌, ◌==◌, ok,
  Bool-cases, inl, inr,
}
use nexus_framework.Prelude.Maps.{Assoc}
use nexus_framework.Json.{Value}
use nexus_framework.Broker.State.{StateData, verify_state}
use nexus_framework.Broker.ReturnUrl.{is_return_url_allowed}
use nexus_framework.Broker.Db.{
  Connection, Provider, Faults, Statement, select_pending, select_provider, pending_connection,
  find_provider, upsert_token, update_status, insert_audit,
}
use nexus_framework.Broker.Handler.{
  Response, redirect, World, Config, Outside, Handler, ◌>>=◌, ◌>>◌, pure, require, require_audited,
  guard, get_db, count_metric, log_audit_event, update_connection_status, store_tokens, encrypt,
}
use nexus_framework.Broker.Handler.Outcomes.{Ends}
use nexus_framework.Broker.Callback.Checks.{callback_connection_id-Ends}
use nexus_framework.Broker.Callback.{
  CallbackRequest, callback_connection_id, callback_rows, callback_exchange, callback_tokens,
  has_bad_id_token, callback_id_token, callback_store, callback_redirect, handle_callback,
}

-- A handler gives a value, in whatever world it leaves.
abbrev pub Gives : {A : Type 0} → Handler A → World → A → Type 0
Gives m w a = (m w).0 ≡ ok a

pub Gives-bind :
    {A B : Type 0} (m : Handler A) (f : A → Handler B) (w : World) {a : A} {b : B}
    → Gives m w a
    → Gives (f a) (m w).1 b
    → Gives (m >>= f) w b
unfolding ◌>>=◌
Gives-bind m f w h k = rw h k

pub Gives-then :
    {A B : Type 0} (m : Handler A) (k : Handler B) (w : World) {a : A} {b : B}
    → Gives m w a
    → Gives k (m w).1 b
    → Gives (m >> k) w b
unfolding ◌>>◌
Gives-then m k w h g = Gives-bind m (λ _. k) w h g

pub Gives-Ends : {A : Type 0} (m : Handler A) (w : World) {a : A} → Gives m w a → Ends m w a (m w).1
Gives-Ends m w h = ap (λ r. (r, (m w).1)) h

pub Gives-log_audit_event :
    (config : Config) (faults : Faults) (id : Option ℕ) (kind : String) (details : Assoc String)
    (w : World)
    → Gives (log_audit_event config faults id kind details) w tt
unfolding log_audit_event
Gives-log_audit_event config faults id kind details w = elim (Bool-cases config.audit) [
  | inr off ↦ rw off refl
  | inl on ↦ elim (Bool-cases (faults insert_audit)) [
    | inl failed ↦ rw (on, failed) refl
    | inr fine ↦ rw (on, fine) refl
  ]
]

Gives-update_connection_status :
    (faults : Faults) (id : ℕ) (status : String) (w : World)
    → Gives (update_connection_status faults id status) w (not (faults update_status))
unfolding update_connection_status
Gives-update_connection_status faults id status w = elim (Bool-cases (faults update_status)) [
  | inl failed ↦ rw failed refl
  | inr fine ↦ rw fine refl
]

module _ (config : Config) (out : Outside) (faults : Faults) where
  Gives-store_tokens :
      (id : ℕ) (t : Assoc Value) (w : World) {text sealed : String}
      → out.to_json t ≡ some text
      → encrypt out config.encryption_key text ≡ some sealed
      → faults upsert_token ≡ false
      → Gives (store_tokens config out faults id t) w true
  unfolding store_tokens
  Gives-store_tokens id t w written e fine = rw (written, e, fine, store_tokens) refl

  Gives-callback_store :
      (id : ℕ) (c : Connection) (t : Assoc Value) (w : World) {text sealed : String}
      → out.to_json t ≡ some text
      → encrypt out config.encryption_key text ≡ some sealed
      → faults upsert_token ≡ false
      → faults update_status ≡ false
      → Gives (callback_store config out faults id c t) w tt
  unfolding callback_store pure
  Gives-callback_store id c t w written e fine set =
      Gives-bind _ _ w (Gives-store_tokens id t w written e fine) (
        Gives-then _ _ _ refl (
          Gives-bind _ _ _ (Gives-update_connection_status faults id "active" _) (
            Gives-then _ _ _ (rw set refl)
              (Gives-log_audit_event config faults (some id) "oauth_flow_completed" _ _))))

  Gives-callback_connection_id :
      (req : CallbackRequest) (w : World) {d : StateData} {id : ℕ}
      → req.error ≡ ""
      → (req.code == "" || req.state == "") ≡ false
      → verify_state out.codec config.state_key out.now req.state ≡ ok d
      → out.parse_uuid d.nonce ≡ some id
      → Gives (callback_connection_id config out faults req) w id
  unfolding callback_connection_id pure guard require require_audited
  Gives-callback_connection_id req w {d = d} e given verified parsed = rw e (
      Gives-then _ _ w (rw given refl)
        (Gives-bind _ _ _ {a = d} (rw (verified, require_audited) refl) (rw parsed refl)))

  Gives-callback_rows :
      (id : ℕ) (w : World) (c : Connection) (p : Provider)
      → faults select_pending ≡ false
      → faults select_provider ≡ false
      → pending_connection out.now id w.db.connections ≡ some c
      → find_provider c.provider_id w.db.providers ≡ some p
      → Gives (callback_rows config out faults id) w (c, p)
  unfolding callback_rows pure get_db require_audited
  Gives-callback_rows id w c p fine fine2 pending known = Gives-bind _ _ w refl (
      Gives-bind _ _ _ {a = c} (rw (fine, pending, require_audited) refl)
        (Gives-bind _ _ _ {a = p} (rw (fine2, known, require_audited) refl) refl))

  Gives-callback_tokens :
      (code : String) (id : ℕ) (c : Connection) (p : Provider) (w : World) {t : Assoc Value}
      → callback_exchange config out code c p ≡ some t
      → Gives (callback_tokens config out faults code id c p) w t
  unfolding callback_tokens pure count_metric ◌>>◌ ◌>>=◌
  Gives-callback_tokens code id c p w h = rw (h, callback_tokens) refl

  Gives-callback_id_token :
      (state : String) (id : ℕ) (c : Connection) (p : Provider) (t : Assoc Value) (w : World)
      → has_bad_id_token out state c p t ≡ false
      → Gives (callback_id_token config out faults state id c p t) w tt
  unfolding callback_id_token pure count_metric
  Gives-callback_id_token state id c p t w h = Gives-then _ _ w refl (rw h refl)

  Gives-callback_redirect :
      (id : ℕ) (c : Connection) (p : Provider) (w : World) {url : String}
      → is_return_url_allowed out.urls c.return_url config.enforce_return_url
          config.allowed_return_domains
        ≡ true
      → out.with_query c.return_url
          (("status", "success") ∷ ("connection_id", out.uuid_text id) ∷ ("provider", p.name) ∷ [])
        ≡ some url
      → Gives (callback_redirect config out faults id c p) w (redirect url)
  unfolding callback_redirect pure guard require_audited
  Gives-callback_redirect id c p w {url = url} allowed built =
      Gives-then _ _ w (rw allowed refl)
        (Gives-bind _ _ _ {a = url} (rw (built, require_audited) refl) refl)

  -- The steps after the first one.
  abbrev handle_rest : CallbackRequest → ℕ → Handler Response
  handle_rest req id = do
    rows ← callback_rows config out faults id
    tokens ← callback_tokens config out faults req.code id rows.0 rows.1
    callback_id_token config out faults req.state id rows.0 rows.1 tokens
    callback_store config out faults id rows.0 tokens
    callback_redirect config out faults id rows.0 rows.1

  -- handle_callback, where every step succeeds; the worlds between are those of the steps.
  pub Gives-handle_callback :
      (req : CallbackRequest) (w : World) {d : StateData} {id : ℕ} {c : Connection} {p : Provider}
      {t : Assoc Value} {text sealed url : String}
      → ((s : Statement) → faults s ≡ false)
      → req.error ≡ ""
      → (req.code == "" || req.state == "") ≡ false
      → verify_state out.codec config.state_key out.now req.state ≡ ok d
      → out.parse_uuid d.nonce ≡ some id
      → pending_connection out.now id w.db.connections ≡ some c
      → find_provider c.provider_id w.db.providers ≡ some p
      → callback_exchange config out req.code c p ≡ some t
      → has_bad_id_token out req.state c p t ≡ false
      → out.to_json t ≡ some text
      → encrypt out config.encryption_key text ≡ some sealed
      → is_return_url_allowed out.urls c.return_url config.enforce_return_url
          config.allowed_return_domains
        ≡ true
      → out.with_query c.return_url
          (("status", "success") ∷ ("connection_id", out.uuid_text id) ∷ ("provider", p.name) ∷ [])
        ≡ some url
      → Gives (handle_callback config out faults req) w (redirect url)
  unfolding handle_callback
  Gives-handle_callback req w {id = id} {c = c} {p = p} {t = t} {url = url} fine e given verified
        parsed pending known exchanged good written sealing allowed built =
      let identified = Gives-callback_connection_id req w e given verified parsed in
      let (d', v', p', same) =
        callback_connection_id-Ends config out faults req w
          (Gives-Ends (callback_connection_id config out faults req) w identified) in
      Gives-bind _ _ w identified (
        subst (λ x. Gives (handle_rest req id) x (redirect url)) (sym same)
          (Gives-bind _ _ w
            (Gives-callback_rows id w c p (fine select_pending) (fine select_provider) pending
              known)
            (Gives-bind _ _ _ (Gives-callback_tokens req.code id c p _ exchanged) (
              Gives-then _ _ _ (Gives-callback_id_token req.state id c p t _ good) (
                Gives-then _ _ _
                  (Gives-callback_store id c t _ written sealing (fine upsert_token)
                    (fine update_status))
                  (Gives-callback_redirect id c p _ allowed built))))))
