-- ===== src/Bridge/Session.antt =====
-- nexus-bridge/bridge.go, manageConnection: one WebSocket connection. The select statement is a
-- list of events, each with the time at which the loop starts again after it.
pub mod Laws
pub mod Expiry
use nexus_framework.Prelude.{
  ℕ, Bool, true, false, not, ◌&&◌, Option, none, some, List, [], ◌∷◌, ◌++◌, if◌then◌else◌, Result,
  ok, err, ◌=?◌, ◌||◌,
}
use nexus_framework.Prelude.Int.{
  ℤ, pos, negsuc, pos_part, neg_part, ltb_ℤ, leb_ℤ, ◌-ℤ◌, scale, sub64, saturate64,
}
use nexus_framework.Strategy.{Token, Crypto, Request, apply_authentication}
use nexus_framework.Bridge.Errors.{
  GoError, plain, closed, cancelled, permanent, wrapped, permanent_close_codes,
}

pub data Event : Type 0 where
  context_done : Event
  read_error : Option GoError → Event  -- `none` is the closed channel
  timer_fired : Event
  refreshed : Token → Event
  refresh_failed : GoError → Event

-- The calls of the metrics and of the handler, and the start of a refresh.
pub data Action : Type 0 where
  inc_connections inc_disconnects inc_token_refreshes : Action
  set_connection_status : ℕ → Action
  on_connect : Action
  on_disconnect : GoError → Action
  start_refresh : Action

pub record Session : Type 0 where
  pub token : Token
  pub refreshing : Bool

abbrev pub refresh_required : GoError
refresh_required = plain "token refresh required"

abbrev pub connection_closed : GoError
connection_closed = plain "connection closed"

-- time.Until(time.Unix(token.ExpiresAt, 0)) - b.refreshBuffer
unfoldable pub refresh_in : ℤ → ℤ → Token → ℤ
unfolding ◌-ℤ◌ sub64 saturate64
refresh_in buffer now t = sub64 (saturate64 (scale 1000000000 t.expires_at -ℤ now)) buffer

-- What a connection that ends with an error does first.
abbrev pub drop_with : GoError → List Action
drop_with e = inc_disconnects ∷ set_connection_status 0 ∷ on_disconnect e ∷ []

-- The start of the loop's body: a token that is about to expire ends the connection.
unfoldable pub expiry_check : ℤ → ℤ → Session → Option GoError
expiry_check buffer now s =
    if not s.refreshing && leb_ℤ (refresh_in buffer now s.token) (pos 0)
    then some refresh_required
    else none

-- The timer's channel is nil while a refresh is running; a refresh answers only then.
unfoldable pub is_enabled : Session → Event → Bool
is_enabled s timer_fired = not s.refreshing
is_enabled s (refreshed t) = s.refreshing
is_enabled s (refresh_failed e) = s.refreshing
is_enabled s _ = true

-- The cases of the select: what is done, the session after it, and the error of a return.
unfoldable pub handle : Session → Event → List Action × Session × Option GoError
handle s context_done = ([], s, some cancelled)
handle s (read_error none) = (drop_with connection_closed, s, some connection_closed)
handle s (read_error (some e)) = (drop_with e, s, some e)
handle s timer_fired =
    (inc_token_refreshes ∷ start_refresh ∷ [], record s { refreshing = true }, none)
handle s (refreshed t) = ([], record { token = t; refreshing = false }, none)
handle s (refresh_failed e) = ([], record s { refreshing = false }, none)

abbrev prepend : List Action → List Action × Option GoError → List Action × Option GoError
prepend acts (more, final) = (acts ++ more, final)

-- The rest of a run after the check at the start of the body.
abbrev check_then : ℤ → ℤ → Session → List Action × Option GoError → List Action × Option GoError
check_then buffer now s rest = elim (expiry_check buffer now s) [
  | some e ↦ (drop_with e, some e)
  | none ↦ rest
]

-- The select and what follows it. An event that is not enabled is not received.
unfoldable pub event_loop : ℤ → Session → List (Event × ℤ) → List Action × Option GoError
event_loop buffer s [] = ([], none)
event_loop buffer s ((e, now) ∷ later) =
    let (acts, s', final) = handle s e in
    let skipped = event_loop buffer s later in
    let rest = event_loop buffer s' later in
    elim (is_enabled s e) [
      | false ↦ skipped
      | true ↦ elim final [
        | some x ↦ (acts, some x)
        | none ↦ prepend acts (check_then buffer now s' rest)
      ]
    ]

-- The loop from its first pass.
unfoldable pub run_connection : ℤ → ℤ → Session → List (Event × ℤ) → List Action × Option GoError
run_connection buffer now s events = check_then buffer now s (event_loop buffer s events)

-- What the outside answers while a connection is set up: the token, and the dial, which is given
-- the request with the credentials.
pub record Outside : Type 0 where
  pub get_token : Result GoError Token
  pub new_request : Result GoError Request
  pub dial : Request → Option GoError

-- manageConnection. `none` is a connection that is still up after the events.
unfoldable pub manage_connection :
    Crypto → Outside → ℤ → ℤ → List (Event × ℤ) → List Action × Option GoError
manage_connection crypto out buffer now events = elim out.get_token [
  | err e ↦ ([], some (permanent (wrapped "failed to get initial token" e)))
  | ok t ↦ elim out.new_request [
    | err e ↦ ([], some (wrapped "failed to create request for auth injection" e))
    | ok req ↦
        let (signed, failure) = apply_authentication crypto req t.strategy t.credentials in
        elim failure [
          | some _ ↦ ([], some (permanent (plain "failed to apply authentication strategy")))
          | none ↦ elim (out.dial signed) [
            | some e ↦ ([], some (wrapped "failed to establish WebSocket connection" e))
            | none ↦
                prepend (inc_connections ∷ set_connection_status 1 ∷ on_connect ∷ [])
                  (run_connection buffer now (record { token = t; refreshing = false }) events)
          ]
        ]
  ]
]

-- The read pump: what an error of ReadMessage puts on the error channel. `none` closes it. The
-- third test is websocket.IsUnexpectedCloseError with CloseGoingAway and CloseAbnormalClosure.
unfoldable pub read_pump_error : GoError → Option GoError
unfolding permanent_close_codes
read_pump_error (closed c) =
    if permanent_close_codes c
    then some (permanent (closed c))
    else if c =? 1001 || c =? 1006
    then none
    else some (closed c)
read_pump_error _ = none
