-- ===== src/Broker/Callback/Replay.antt =====
-- nexus-broker/pkg/handlers/callback.go, Handle: a state is good for one completed callback.
use nexus_framework.Prelude.{
  ℕ, String, ◌≡◌, refl, ◌∙◌, ap, sym, subst, true, false, Option, none, some, List, arith, ok,
}
use nexus_framework.Prelude.Int.{ℤ}
use nexus_framework.Broker.State.{StateData, Codec, check_age, verify_state}
use nexus_framework.Broker.Db.{
  Connection, Faults, find_connection, pending_connection, set_status, update_status,
}
use nexus_framework.Broker.Handler.{Response, World, Config, Outside}
use nexus_framework.Broker.Handler.Outcomes.{Ends}
use nexus_framework.Broker.Handler.Keeps.{is_pending}
use nexus_framework.Broker.Db.Laws.{find_connection-set_status}
use nexus_framework.Broker.Service.Evolves.{Becomes}
use nexus_framework.Broker.Callback.{CallbackRequest, handle_callback}
use nexus_framework.Broker.Callback.Outcome.{handle_callback-Ends}
use nexus_framework.Broker.Service.{Event, serve_all}
use nexus_framework.Broker.Service.Keeps.{IsDrawn, serve_all-Evolves}

-- The pending connection of an identifier is its connection, and pending.
pending_connection-is_pending :
    (now : ℤ) (id : ℕ) (l : List Connection) {c : Connection}
    → pending_connection now id l ≡ some c
    → (find_connection id l ≡ some c) × (is_pending c ≡ true)
unfolding pending_connection
pending_connection-is_pending now id l h = ground arith

-- A connection that is set to active is never again found as pending.
not_pending_again :
    (Drawn : Type 0) (before after : Option Connection) (c d : Connection)
    → before ≡ some (record c { status = "active" })
    → after ≡ some d
    → is_pending d ≡ true
    → ¬ Becomes Drawn before after
not_pending_again Drawn none after c d h k p b = absurd (cc h)
not_pending_again Drawn (some x) none c d h k p b = b
not_pending_again Drawn (some x) (some y) c d h k p (same, back) =
    let given : y ≡ d = cc k in
    let active : x ≡ record c { status = "active" } = cc h in
    let was : is_pending x ≡ true = back (ap is_pending given ∙ p) in
    let is_not : is_pending x ≡ false = ap is_pending active in cc (was, is_not)

found_active :
    (id : ℕ) (l : List Connection) {c : Connection}
    → find_connection id l ≡ some c
    → find_connection id (set_status id "active" l) ≡ some (record c { status = "active" })
found_active id l h = find_connection-set_status id id "active" l ∙ rw h (ground arith)

verify_state_same :
    (codec : Codec) (key : String) (now later : ℤ) (s : String) {d d' : StateData}
    → verify_state codec key now s ≡ ok d
    → verify_state codec key later s ≡ ok d'
    → d ≡ d'
unfolding verify_state check_age
verify_state_same codec key now later s h k = ground arith

-- After a callback that reached its redirect and set its status, no callback with the same state
-- reaches its redirect again, whatever happens to the broker between, by requests to the handlers of
-- callback.go and consent.go, by ticks of the cleanup and by requests under /providers: at any time,
-- with any code, answers and faults, where the codec and the reader of UUIDs are the same.
pub handle_callback_replay :
    (config : Config) (out : Outside) (faults : Faults) (req : CallbackRequest) (w : World)
    (r : Response) (w' : World)
    → Ends (handle_callback config out faults req) w r w'
    → faults update_status ≡ false
    → (events : List Event) (out' : Outside) (faults' : Faults) (req' : CallbackRequest)
      (r' : Response) (w'' : World)
    → out'.codec ≡ out.codec
    → out'.parse_uuid ≡ out.parse_uuid
    → req'.state ≡ req.state
    → ¬ Ends (handle_callback config out' faults' req') (serve_all config events w') r' w''
handle_callback_replay config out faults req w r w' h fine events out' faults' req' r' w'' codec
      uuid state k =
    let (id, d, c, p, t, verified, parsed, was_there, x2, x3, x4, x5, x6, activated) =
      handle_callback-Ends config out faults req w h in
    let (id', d', c', p', t', verified', parsed', pending, y1, y2, y3, y4, y5, y6) =
      handle_callback-Ends config out' faults' req' (serve_all config events w') k in
    let reread : verify_state out.codec config.state_key out'.now req.state ≡ ok d' =
      subst (λ x. verify_state out.codec config.state_key out'.now x ≡ ok d') state
        (subst (λ x. verify_state x config.state_key out'.now req'.state ≡ ok d') codec
          verified') in
    let same_data : d ≡ d' =
      verify_state_same out.codec config.state_key out.now out'.now req.state verified reread in
    let same_id : id' ≡ id = cc (same_data, uuid, parsed, parsed') in
    let active : find_connection id w'.db.connections ≡ some (record c { status = "active" }) =
      ap (find_connection id) (activated ∙ rw fine refl)
      ∙ found_active id w.db.connections
          (pending_connection-is_pending out.now id w.db.connections was_there).0 in
    let again =
      pending_connection-is_pending out'.now id' (serve_all config events w').db.connections
        pending in
    not_pending_again (IsDrawn events id) (find_connection id w'.db.connections)
      (find_connection id (serve_all config events w').db.connections) c c' active
      (ap (λ n. find_connection n (serve_all config events w').db.connections) (sym same_id)
        ∙ again.0)
      again.1 ((serve_all-Evolves config events w').connections id)
