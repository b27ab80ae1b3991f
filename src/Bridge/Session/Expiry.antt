-- ===== src/Bridge/Session/Expiry.antt =====
-- nexus-bridge/bridge.go, manageConnection: connections that end by their token's expiry.
use nexus_framework.Prelude.{ℕ, ◌+◌, ◌*◌, ◌≤◌, ◌<◌, ◌≡◌, true, false, some, List, ◌∷◌, arith}
use nexus_framework.Prelude.Int.{ℤ, pos, ◌≤ℤ◌}
use nexus_framework.Strategy.{Token}
use nexus_framework.Bridge.Errors.{GoError}
use nexus_framework.Bridge.Session.{
  Event, refresh_failed, refresh_required, refresh_in, drop_with, expiry_check, is_enabled, handle,
  event_loop, run_connection,
}

static_expired :
    (b n : ℕ)
    → b < 4611686018427387904
    → n < 4611686018427387904
    → (t : Token) → t.expires_at ≡ pos 0
    → refresh_in (pos b) (pos n) t ≤ℤ pos 0
unfolding refresh_in
static_expired b n hb hn t e = rw e (ground arith)

near_expiry :
    (x b n : ℕ)
    → x * 1000000000 < 4611686018427387904
    → b < 4611686018427387904
    → n < 4611686018427387904
    → (t : Token) → t.expires_at ≡ pos x
    → x * 1000000000 ≤ n + b
    → refresh_in (pos b) (pos n) t ≤ℤ pos 0
unfolding refresh_in
near_expiry x b n hx hb hn t e h = rw e (ground arith)

abbrev pub max_ns : ℕ
max_ns = 4611686018427387904

-- A token whose expiry is 0 ends its WebSocket connection at once, with a demand for a refresh,
-- whatever the events: for sizes of the clock and the buffer below 2 ^ 62 nanoseconds.
pub run_connection_static :
    (b n : ℕ) (t : Token) (events : List (Event × ℤ))
    → b < max_ns
    → n < max_ns
    → t.expires_at ≡ pos 0
    → run_connection (pos b) (pos n) (record { token = t; refreshing = false }) events
      ≡ (drop_with refresh_required, some refresh_required)
unfolding run_connection expiry_check
run_connection_static b n t events hb hn e = ground (arith, static_expired b n hb hn t e)

-- When a refresh fails, the connection is dropped at once if the clock is inside the refresh buffer
-- before the expiry, although the token has not expired; later events are not awaited.
pub refresh_failed_drops :
    (x b n : ℕ) (t : Token) (why : GoError) (later : List (Event × ℤ))
    → x * 1000000000 < max_ns
    → b < max_ns
    → n < max_ns
    → t.expires_at ≡ pos x
    → x * 1000000000 ≤ n + b
    → event_loop
        (pos b)
        (record { token = t; refreshing = true })
        ((refresh_failed why, pos n) ∷ later)
      ≡ (drop_with refresh_required, some refresh_required)
unfolding event_loop handle is_enabled expiry_check
refresh_failed_drops x b n t why later hx hb hn e h =
    ground (arith, near_expiry x b n hx hb hn t e h)
