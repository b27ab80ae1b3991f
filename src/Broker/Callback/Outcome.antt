-- ===== src/Broker/Callback/Outcome.antt =====
-- nexus-broker/pkg/handlers/callback.go, Handle: what a completed callback has checked and stored.
use nexus_framework.Prelude.{ℕ, ◌≡◌, ◌∙◌, sym, ap, subst, true, false, some, if◌then◌else◌, ok}
use nexus_framework.Prelude.Maps.{Assoc}
use nexus_framework.Json.{Value}
use nexus_framework.Broker.State.{StateData, verify_state}
use nexus_framework.Broker.ReturnUrl.{is_return_url_allowed}
use nexus_framework.Broker.Db.{
  Connection, Provider, Faults, pending_connection, find_provider, set_status, update_status,
}
use nexus_framework.Broker.Handler.{Response, World, Config, Outside}
use nexus_framework.Broker.Handler.Outcomes.{Ends, bind-Ends, then-Ends}
use nexus_framework.Broker.Callback.{
  CallbackRequest, callback_exchange, has_bad_id_token, handle_callback,
}
use nexus_framework.Broker.Callback.Checks.{
  callback_connection_id-Ends, callback_rows-Ends, tokens-Ends, id_token-Ends, redirect-Ends,
}
use nexus_framework.Broker.Callback.Storage.{Stored, store-Ends}

-- What a callback that reaches its redirect has done, from one world to another.
abbrev pub Completed : Config → Outside → Faults → CallbackRequest → World → World → Type 0
Completed config out faults req w w' =
    (id : ℕ) × (d : StateData) × (c : Connection) × (p : Provider) × (t : Assoc Value)
    × (verify_state out.codec config.state_key out.now req.state ≡ ok d)
    × (out.parse_uuid d.nonce ≡ some id)
    × (pending_connection out.now id w.db.connections ≡ some c)
    × (find_provider c.provider_id w.db.providers ≡ some p)
    × (callback_exchange config out req.code c p ≡ some t)
    × (has_bad_id_token out req.state c p t ≡ false)
    × (is_return_url_allowed out.urls c.return_url config.enforce_return_url
          config.allowed_return_domains
        ≡ true)
    × Stored config out id t w'.db.tokens
    × (w'.db.connections ≡ (
        if faults update_status then w.db.connections else set_status id "active" w.db.connections))

module _ (config : Config) (out : Outside) (faults : Faults) where
  -- A callback that reaches its redirect has verified the state, found the pending connection that
  -- the state names and its provider, exchanged the code, rejected no identity token, passed the
  -- test of the return URL, stored the tokens, encrypted, under the connection, and set its status
  -- to "active", if the database did not fail there.
  pub handle_callback-Ends :
      (req : CallbackRequest) (w : World) {r : Response} {w' : World}
      → Ends (handle_callback config out faults req) w r w'
      → Completed config out faults req w w'
  unfolding handle_callback
  handle_callback-Ends req w h =
      let (id, v, identified, rest) = bind-Ends _ _ w h in
      let (rows, v2, selected, rest2) = bind-Ends _ _ v rest in
      let (t, v3, exchanged, rest3) = bind-Ends _ _ v2 rest2 in
      let (a, v4, checked, rest4) = then-Ends _ _ v3 rest3 in
      let (b, v5, storing, redirected) = then-Ends _ _ v4 rest4 in
      let (d, verified, parsed, same) =
        callback_connection_id-Ends config out faults req w identified in
      let (pending, known, same2) = callback_rows-Ends config out faults id v selected in
      let (answered, db3) = tokens-Ends config out faults req.code id rows.0 rows.1 v2 exchanged in
      let (fine, db4) = id_token-Ends config out faults req.state id rows.0 rows.1 t v3 checked in
      let (stored, activated) = store-Ends config out faults id rows.0 t v4 storing in
      let (allowed, same6) = redirect-Ends config out faults id rows.0 rows.1 v5 redirected in
      let db : v4.db ≡ w.db = db4 ∙ db3 ∙ ap (λ z. z.db) (same2 ∙ same) in
      (
        id,
        d,
        rows.0,
        rows.1,
        t,
        verified,
        parsed,
        subst (λ z. pending_connection out.now id z.db.connections ≡ some rows.0) same pending,
        subst (λ z. find_provider (rows.0).provider_id z.db.providers ≡ some rows.1) same known,
        answered,
        fine,
        allowed,
        subst (λ z. Stored config out id t z.db.tokens) (sym same6) stored,
        ap (λ z. z.db.connections) same6
            ∙ activated
            ∙ ap
                (λ x.
                  if faults update_status
                  then x.connections
                  else set_status id "active" x.connections)
                db,
      )
