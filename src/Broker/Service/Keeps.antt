-- ===== src/Broker/Service/Keeps.antt =====
-- nexus-broker/pkg/handlers and cmd/nexus-broker/main.go: what no sequence of events does to the
-- database of a broker.
use nexus_framework.Prelude.{
  ℕ, String, ◌≡◌, refl, ap, sym, ◌⊎◌, Bool, true, false, Option, none, some, List, [], ◌∷◌,
  Bool-cases, Option-cases, inl, inr, if◌then◌else◌,
}
use nexus_framework.Json.{Value}
use nexus_framework.Prelude.Maps.{Assoc}
use nexus_framework.Broker.Db.{
  Connection, Provider, TokenRow, Faults, find_connection, has_connection, keep_owned,
}
use nexus_framework.Broker.Db.Cleanup.{orphan_cleanup}
use nexus_framework.Broker.Db.Laws.{IsFresh, IsUnique}
use nexus_framework.Broker.Exchange.{Refreshed, tokens, failed}
use nexus_framework.Broker.Handler.{World, Config, Outside, run}
use nexus_framework.Broker.Handler.Keeps.{Keeps, append-nil, keeps_rules}
use nexus_framework.Broker.Callback.{
  CallbackRequest, callback_connection_id, callback_rows, callback_exchange, callback_tokens,
  callback_id_token, callback_store, callback_redirect, handle_callback,
}
use nexus_framework.Broker.Capture.{Submission, get_capture_schema, save_credential}
use nexus_framework.Broker.Token.{token_connection_id, stored_credentials, get_token}
use nexus_framework.Broker.Refresh.{
  refresh_row, check_refreshable, refresh_inputs, refresh_outcome, refresh,
}
use nexus_framework.Broker.Service.{
  Call, callback, capture_schema, capture, consent, token, refreshing, serve, Event, served,
  cleaned, providers_changed, broker_step, serve_all,
}
use nexus_framework.Broker.Service.Evolves.{
  Evolves, Evolves-refl, Evolves-trans, Extends-Evolves, Becomes-refl,
}
use nexus_framework.Broker.Service.Consents.{IsNew, get_spec-Grows}

IsFresh-keep_owned :
    (id : ℕ) (cs : List Connection) (l : List TokenRow)
    → IsFresh id l
    → IsFresh id (keep_owned cs l)
unfolding keep_owned
IsFresh-keep_owned id cs [] h = tt
IsFresh-keep_owned id cs (t ∷ l) (h, hs) = elim (Bool-cases (has_connection cs t.connection_id)) [
  | inl owned ↦ rw owned (h, IsFresh-keep_owned id cs l hs)
  | inr orphan ↦ rw orphan (IsFresh-keep_owned id cs l hs)
]

IsUnique-keep_owned :
    (cs : List Connection) (l : List TokenRow) → IsUnique l → IsUnique (keep_owned cs l)
unfolding keep_owned
IsUnique-keep_owned cs [] h = tt
IsUnique-keep_owned cs (t ∷ l) (h, hs) = elim (Bool-cases (has_connection cs t.connection_id)) [
  | inl owned ↦ rw owned (IsFresh-keep_owned t.connection_id cs l h, IsUnique-keep_owned cs l hs)
  | inr orphan ↦ rw orphan (IsUnique-keep_owned cs l hs)
]

IsUnique-cleaned :
    (fails : Bool) (cs : List Connection) (l : List TokenRow)
    → IsUnique l
    → IsUnique (if fails then l else keep_owned cs l)
IsUnique-cleaned true cs l h = h
IsUnique-cleaned false cs l h = IsUnique-keep_owned cs l h

module _ (config : Config) (out : Outside) (faults : Faults) where
  callback_connection_id-Keeps :
      (req : CallbackRequest) → Keeps (callback_connection_id config out faults req)
  unfolding callback_connection_id
  callback_connection_id-Keeps req = search keeps_rules depth 30

  callback_rows-Keeps : (id : ℕ) → Keeps (callback_rows config out faults id)
  unfolding callback_rows
  callback_rows-Keeps id = search keeps_rules depth 30

  tokens-Keeps :
      (code : String) (id : ℕ) (c : Connection) (p : Provider)
      → Keeps (callback_tokens config out faults code id c p)
  unfolding callback_tokens
  tokens-Keeps code id c p = elim (Option-cases (callback_exchange config out code c p)) [
    | inl e ↦ rw (e, callback_tokens) (search keeps_rules depth 30)
    | inr (t, e) ↦ rw (e, callback_tokens) (search keeps_rules depth 30)
  ]

  id_token-Keeps :
      (state : String) (id : ℕ) (c : Connection) (p : Provider) (t : Assoc Value)
      → Keeps (callback_id_token config out faults state id c p t)
  unfolding callback_id_token
  id_token-Keeps state id c p t = search keeps_rules depth 30

  store-Keeps :
      (id : ℕ) (c : Connection) (t : Assoc Value) → Keeps (callback_store config out faults id c t)
  unfolding callback_store
  store-Keeps id c t = search keeps_rules depth 30

  redirect-Keeps :
      (id : ℕ) (c : Connection) (p : Provider) → Keeps (callback_redirect config out faults id c p)
  unfolding callback_redirect
  redirect-Keeps id c p = search keeps_rules depth 30

  pub handle_callback-Keeps :
      (req : CallbackRequest) → Keeps (handle_callback config out faults req)
  unfolding handle_callback
  handle_callback-Keeps req =
      search
        (
          keeps_rules, callback_connection_id-Keeps, callback_rows-Keeps, tokens-Keeps,
          id_token-Keeps, store-Keeps, redirect-Keeps,
        )
        depth 30

  schema-Keeps : (state : String) → Keeps (get_capture_schema config out faults state)
  unfolding get_capture_schema
  schema-Keeps state = search keeps_rules depth 30

  save-Keeps : (body : Option Submission) → Keeps (save_credential config out faults body)
  unfolding save_credential
  save-Keeps body = search keeps_rules depth 30

  token_id-Keeps : (path : String) → Keeps (token_connection_id config out faults path)
  unfolding token_connection_id
  token_id-Keeps path = search keeps_rules depth 30

  credentials-Keeps : (id : ℕ) → Keeps (stored_credentials config out faults id)
  unfolding stored_credentials
  credentials-Keeps id = search keeps_rules depth 30

  get_token-Keeps : (path : String) → Keeps (get_token config out faults path)
  unfolding get_token
  get_token-Keeps path = search (keeps_rules, token_id-Keeps, credentials-Keeps) depth 30

  row-Keeps : (path : String) → Keeps (refresh_row config out faults path)
  unfolding refresh_row
  row-Keeps path = search keeps_rules depth 30

  refreshable-Keeps : (auth_type : String) → Keeps (check_refreshable auth_type)
  unfolding check_refreshable
  refreshable-Keeps auth_type = search keeps_rules depth 30

  inputs-Keeps : (id : ℕ) (c : Connection) → Keeps (refresh_inputs config out faults id c)
  unfolding refresh_inputs
  inputs-Keeps id c = search keeps_rules depth 30

  outcome-Keeps : (id : ℕ) (r : Refreshed) → Keeps (refresh_outcome config out faults id r)
  unfolding refresh_outcome
  outcome-Keeps id (failed status) = search keeps_rules depth 30
  outcome-Keeps id (tokens t) = search keeps_rules depth 30

  refresh-Keeps : (path : String) → Keeps (refresh config out faults path)
  unfolding refresh
  refresh-Keeps path =
      search (keeps_rules, row-Keeps, refreshable-Keeps, inputs-Keeps, outcome-Keeps) depth 30

-- The identifier that an event draws for a new connection.
abbrev drawn_in : Call → Option ℕ
drawn_in (consent fresh body) = some fresh.new_uuid
drawn_in _ = none

abbrev drawn_by : Event → Option ℕ
drawn_by (served call out faults) = drawn_in call
drawn_by _ = none

-- An identifier is the one that a consent among the events draws.
abbrev pub IsDrawn : List Event → ℕ → Type 0
IsDrawn [] id = ⊥
IsDrawn (e ∷ later) id = (drawn_by e ≡ some id) ⊎ IsDrawn later id

-- There is a request to a route under /providers among the events.
abbrev pub IsChanged : List Event → Type 0
IsChanged [] = ⊥
IsChanged (providers_changed providers events ∷ later) = Unit
IsChanged (_ ∷ later) = IsChanged later

later-IsChanged : (e : Event) (later : List Event) → IsChanged later → IsChanged (e ∷ later)
later-IsChanged (served call out faults) later h = h
later-IsChanged (cleaned fails) later h = h
later-IsChanged (providers_changed providers events) later h = tt

first-IsChanged : (e : Event) (later : List Event) → IsChanged (e ∷ []) → IsChanged (e ∷ later)
first-IsChanged (served call out faults) later h = absurd h
first-IsChanged (cleaned fails) later h = absurd h
first-IsChanged (providers_changed providers events) later h = tt

module _ (config : Config) (out : Outside) (faults : Faults) where
  serve-Evolves :
      (call : Call) (w : World)
      → Evolves (IsDrawn (served call out faults ∷ [])) ⊥ w (serve config out faults call w).1
  unfolding serve
  serve-Evolves (callback req) w =
      Extends-Evolves _ ⊥ w _ ((handle_callback-Keeps config out faults req).at w)
  serve-Evolves (capture_schema state) w =
      Extends-Evolves _ ⊥ w _ ((schema-Keeps config out faults state).at w)
  serve-Evolves (capture body) w =
      Extends-Evolves _ ⊥ w _ ((save-Keeps config out faults body).at w)
  serve-Evolves (token path) w =
      Extends-Evolves _ ⊥ w _ ((get_token-Keeps config out faults path).at w)
  serve-Evolves (refreshing path) w =
      Extends-Evolves _ ⊥ w _ ((refresh-Keeps config out faults path).at w)
  serve-Evolves (consent fresh body) w =
      Evolves-trans (IsNew config out fresh faults) (IsNew config out fresh faults)
        (IsDrawn (served (consent fresh body) out faults ∷ [])) ⊥ ⊥ ⊥ w
        (serve config out faults (consent fresh body) w).1
        (serve config out faults (consent fresh body) w).1 (λ id same. inl (ap some (sym same)))
        (λ id same. inl (ap some (sym same))) (λ x. x) (λ x. x)
        ((get_spec-Grows config out fresh faults body).at w)
        (Evolves-refl (IsNew config out fresh faults) ⊥
          (serve config out faults (consent fresh body) w).1)

broker_step-Evolves :
    (config : Config) (e : Event) (w : World)
    → Evolves (IsDrawn (e ∷ [])) (IsChanged (e ∷ [])) w (broker_step config e w)
unfolding broker_step run orphan_cleanup
broker_step-Evolves config (served call out faults) w = serve-Evolves config out faults call w
broker_step-Evolves config (cleaned fails) w = record {
  connections = λ id. Becomes-refl _ (find_connection id w.db.connections);
  providers = inl refl;
  tokens = λ h. IsUnique-cleaned fails w.db.connections w.db.tokens h;
  audit_events = ([], sym (append-nil w.db.audit_events));
}
broker_step-Evolves config (providers_changed providers events) w = record {
  connections = λ id. Becomes-refl _ (find_connection id w.db.connections);
  providers = inr tt;
  tokens = λ h. h;
  audit_events = (events, refl);
}

-- Whatever happens to a broker, by requests to the handlers of callback.go and consent.go, by ticks of
-- the cleanup and by requests under /providers, with whatever answers and faults: every connection
-- stays, the same but for its status, which does not become "pending" where it was not; one that was
-- not there has an identifier that one of the consents drew; the providers stay, unless there was a
-- request under /providers; tokens that have at most one row for each connection keep that; and the
-- audit events only grow at their end.
pub serve_all-Evolves :
    (config : Config) (events : List Event) (w : World)
    → Evolves (IsDrawn events) (IsChanged events) w (serve_all config events w)
unfolding serve_all
serve_all-Evolves config [] w = Evolves-refl (IsDrawn []) ⊥ w
serve_all-Evolves config (e ∷ later) w =
    let next = broker_step config e w in
    Evolves-trans (IsDrawn (e ∷ [])) (IsDrawn later) (IsDrawn (e ∷ later)) (IsChanged (e ∷ []))
      (IsChanged later) (IsChanged (e ∷ later)) w next (serve_all config later next)
      (λ id drawn. elim drawn [ inl here ↦ inl here | inr there ↦ absurd there ])
      (λ id drawn. inr drawn) (first-IsChanged e later) (later-IsChanged e later)
      (broker_step-Evolves config e w) (serve_all-Evolves config later next)
