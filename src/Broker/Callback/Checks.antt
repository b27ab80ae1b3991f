-- ===== src/Broker/Callback/Checks.antt =====
-- nexus-broker/pkg/handlers/callback.go, Handle: the steps that only check.
use nexus_framework.Prelude.{
  ℕ, String, ◌≡◌, ◌∙◌, sym, ap, true, false, Option, some, ◌==◌, arith, Result, ok, err,
  Option-cases, Bool-cases, inl, inr,
}
use nexus_framework.Prelude.Maps.{Assoc}
use nexus_framework.Json.{Value}
use nexus_framework.Broker.State.{StateData, verify_state}
use nexus_framework.Broker.ReturnUrl.{is_return_url_allowed}
use nexus_framework.Broker.Db.{
  Connection, Provider, Faults, Statement, select_pending, select_provider, query,
  pending_connection, find_provider,
}
use nexus_framework.Broker.Handler.{Response, World, Config, Outside, state_of}
use nexus_framework.Broker.Handler.Outcomes.{
  Ends, bind-Ends, then-Ends, pure-Ends, require-Ends, require_audited-Ends, guard-Ends,
  get_db-Ends, reply-Ends, count_metric-Ends,
}
use nexus_framework.Broker.Callback.{
  CallbackRequest, callback_connection_id, callback_rows, callback_exchange, callback_tokens,
  has_bad_id_token, callback_id_token, callback_redirect,
}

pub query-eq-some :
    {A : Type 0} (faults : Faults) (s : Statement) (o : Option A) {a : A}
    → query faults s o ≡ some a
    → o ≡ some a
query-eq-some faults s o h = ground arith

state_of-eq-some : (r : Result _ StateData) {d : StateData} → state_of r ≡ some d → r ≡ ok d
state_of-eq-some (ok x) h = cc h
state_of-eq-some (err e) h = absurd (cc h)

module _ (config : Config) (out : Outside) (faults : Faults) where
  pub callback_connection_id-Ends :
      (req : CallbackRequest) (w : World) {id : ℕ} {w' : World}
      → Ends (callback_connection_id config out faults req) w id w'
      → (d : StateData) × (verify_state out.codec config.state_key out.now req.state ≡ ok d)
        × (out.parse_uuid d.nonce ≡ some id)
        × (w' ≡ w)
  unfolding callback_connection_id
  callback_connection_id-Ends req w h = elim (Bool-cases (req.error == "")) [
    | inr failed ↦
        let (u, v, logged, over) = then-Ends _ _ w (rw failed at h) in absurd (reply-Ends _ v over)
    | inl fine ↦
        let (u, v, guarded, rest) = then-Ends _ _ w (rw fine at h) in
        let (d, v2, verified, rest2) = bind-Ends _ _ v rest in
        let (read, same) = require_audited-Ends _ _ _ _ _ _ v verified in
        let (parsed, same2) = require-Ends _ _ v2 rest2 in
        (d, state_of-eq-some _ read, parsed, same2 ∙ same ∙ (guard-Ends _ _ w guarded).1)
  ]

  pub callback_rows-Ends :
      (id : ℕ) (w : World) {rows : Connection × Provider} {w' : World}
      → Ends (callback_rows config out faults id) w rows w'
      → (pending_connection out.now id w.db.connections ≡ some rows.0)
        × (find_provider (rows.0).provider_id w.db.providers ≡ some rows.1)
        × (w' ≡ w)
  unfolding callback_rows
  callback_rows-Ends id w h =
      let (d, v, got, rest) = bind-Ends _ _ w h in
      let (c, v2, selected, rest2) = bind-Ends _ _ v rest in
      let (p, v3, provided, rest3) = bind-Ends _ _ v2 rest2 in
      let (found, same) = require_audited-Ends _ _ _ _ _ _ v selected in
      let (known, same2) = require_audited-Ends _ _ _ _ _ _ v2 provided in
      let (result, same3) = pure-Ends _ v3 rest3 in
      let (database, same0) = get_db-Ends w got in
      (
        cc (
          query-eq-some faults select_pending (pending_connection out.now id d.connections) found,
          result,
          database,
        ),
        cc (
          query-eq-some faults select_provider (find_provider c.provider_id d.providers) known,
          result,
          database,
        ),
        same3 ∙ same2 ∙ same ∙ same0,
      )

  pub tokens-Ends :
      (code : String) (id : ℕ) (c : Connection) (p : Provider) (w : World) {t : Assoc Value}
      {w' : World}
      → Ends (callback_tokens config out faults code id c p) w t w'
      → (callback_exchange config out code c p ≡ some t) × (w'.db ≡ w.db)
  unfolding callback_tokens
  tokens-Ends code id c p w h = elim (Option-cases (callback_exchange config out code c p)) [
    | inl failed ↦
        let (a, v, logged, rest) = then-Ends _ _ w (rw (failed, callback_tokens) at h) in
        let (b, v2, updated, rest2) = then-Ends _ _ v rest in
        let (d, v3, counted, over) = then-Ends _ _ v2 rest2 in absurd (reply-Ends _ v3 over)
    | inr (x, e) ↦
        let (a, v, counted, rest) = then-Ends _ _ w (rw (e, callback_tokens) at h) in
        let (result, same) = pure-Ends x v rest in
        (e ∙ ap some (sym result), ap (λ z. z.db) same ∙ count_metric-Ends _ w counted)
  ]

  pub id_token-Ends :
      (state : String) (id : ℕ) (c : Connection) (p : Provider) (t : Assoc Value) (w : World)
      {u : Unit {0}} {w' : World}
      → Ends (callback_id_token config out faults state id c p t) w u w'
      → (has_bad_id_token out state c p t ≡ false) × (w'.db ≡ w.db)
  unfolding callback_id_token
  id_token-Ends state id c p t w h = elim (Bool-cases (has_bad_id_token out state c p t)) [
    | inl bad ↦
        let (a, v, counted, rest) = then-Ends _ _ w h in
        let (b, v2, logged, rest2) = then-Ends _ _ v (rw bad at rest) in
        let (d, v3, updated, over) = then-Ends _ _ v2 rest2 in absurd (reply-Ends _ v3 over)
    | inr fine ↦
        let (a, v, counted, rest) = then-Ends _ _ w h in
        (fine, ap (λ z. z.db) (pure-Ends tt v (rw fine at rest)).1 ∙ count_metric-Ends _ w counted)
  ]

  pub redirect-Ends :
      (id : ℕ) (c : Connection) (p : Provider) (w : World) {r : Response} {w' : World}
      → Ends (callback_redirect config out faults id c p) w r w'
      → (is_return_url_allowed out.urls c.return_url config.enforce_return_url
            config.allowed_return_domains
          ≡ true)
        × (w' ≡ w)
  unfolding callback_redirect
  redirect-Ends id c p w h =
      let (u, v, guarded, rest) = then-Ends _ _ w h in
      let (url, v2, built, rest2) = bind-Ends _ _ v rest in
      let (allowed, same) = guard-Ends _ _ w guarded in
      (allowed, (pure-Ends _ v2 rest2).1 ∙ (require_audited-Ends _ _ _ _ _ _ v built).1 ∙ same)
