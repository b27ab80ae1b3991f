-- ===== src/Examples/Reconnect.antt =====
-- nexus-bridge/bridge.go: the theorems at concrete inputs.
use nexus_framework.Prelude.{
  ℕ, ◌+◌, ◌≤◌, ◌≡◌, ◌↔◌, refl, true, false, none, some, List, [], ◌∷◌, arith,
}
use nexus_framework.Prelude.Int.{ℤ, pos, ◌≤ℤ◌}
use nexus_framework.Strategy.{Token}
use nexus_framework.Bridge.Errors.{plain, permanent, is_permanent}
use nexus_framework.Bridge.Backoff.{RetryPolicy, apply_jitter, calculate_backoff}
use nexus_framework.Bridge.Backoff.Growth.{backoff_after, backoff_after_lem, calculate_backoff_lem}
use nexus_framework.Bridge.Rpc
use nexus_framework.Bridge.Rpc.{Attempt, maintain_grpc}
use nexus_framework.Bridge.Rpc.Exits
use nexus_framework.Bridge.Rpc.Exits.{All, maintain_grpc-StoppedAt, maintain_grpc_running}
use nexus_framework.Bridge.Rpc.Waits.{FollowsPolicy, waits_of, maintain_grpc-FollowsPolicy}
use nexus_framework.Bridge.Session.{
  Event, timer_fired, refreshed, refresh_failed, read_error, Session, refresh_required, drop_with,
  event_loop, run_connection,
}
use nexus_framework.Bridge.Session.Laws.{
  starts, answers, IsClosed, run_connection_one_refresh, run_connection-IsClosed,
}
use nexus_framework.Bridge.Session.Expiry.{run_connection_static, refresh_failed_drops}
use nexus_framework.Bridge.Socket
use nexus_framework.Bridge.Socket.{Turn, maintain_websocket}
use nexus_framework.Bridge.Socket.Laws
use nexus_framework.Bridge.Socket.Laws.{maintain_websocket-StoppedAt}

abbrev small_policy : RetryPolicy
small_policy = record { min_backoff = pos 10; max_backoff = pos 60; jitter = pos 4 }

backoff_after_lem_example : backoff_after small_policy 3 ≡ pos 60
backoff_after_lem_example =
    backoff_after_lem small_policy 60 refl (omega arith) 10 refl (omega arith) (omega arith) 3

calculate_backoff_lem_example :
    ((calculate_backoff small_policy 7 ≡ none) ↔ (small_policy.jitter ≤ℤ pos 0))
    × ((wait : ℤ) → calculate_backoff small_policy 7 ≡ some wait → wait ≤ℤ small_policy.max_backoff)
calculate_backoff_lem_example = calculate_backoff_lem small_policy 7

abbrev failed_dial : Attempt
failed_dial = record {
  draw = 1;
  cancelled_waiting = false;
  dial = some (plain "refused");
  run = none;
  cancelled_after = false;
}

abbrev good_run : Attempt
good_run = record {
  draw = 2;
  cancelled_waiting = false;
  dial = none;
  run = none;
  cancelled_after = false;
}

maintain_grpc-StoppedAt_example : Rpc.Exits.StoppedAt (failed_dial ∷ good_run ∷ []) Rpc.clean
unfolding maintain_grpc Rpc.loop Rpc.turn Rpc.wait_once Rpc.attempt_once apply_jitter Rpc.verdict
maintain_grpc-StoppedAt_example =
    maintain_grpc-StoppedAt small_policy (failed_dial ∷ good_run ∷ []) Rpc.clean refl

maintain_grpc-FollowsPolicy_example :
    FollowsPolicy small_policy 1 failed_dial
      (waits_of (maintain_grpc small_policy (failed_dial ∷ failed_dial ∷ good_run ∷ [])).0)
      (failed_dial ∷ good_run ∷ [])
maintain_grpc-FollowsPolicy_example =
    maintain_grpc-FollowsPolicy small_policy failed_dial (failed_dial ∷ good_run ∷ [])

abbrev token_until : ℕ → Token
token_until x = record {
  strategy = record { type = "oauth2"; config = [] };
  credentials = [];
  expires_at = pos x;
}

abbrev session_events : List (Event × ℤ)
session_events =
    (timer_fired, pos 0)
    ∷ (refreshed (token_until 20), pos 0)
    ∷ (read_error (some (plain "reset")), pos 0)
    ∷ []

run_connection_one_refresh_example :
    starts
      (run_connection
        (pos 5)
        (pos 0)
        (record { token = token_until 10; refreshing = false })
        session_events).0
    ≤ answers session_events + 1
run_connection_one_refresh_example =
    run_connection_one_refresh (pos 5) (pos 0) (token_until 10) session_events

run_connection-IsClosed_example :
    IsClosed
      (run_connection
        (pos 5)
        (pos 0)
        (record { token = token_until 10; refreshing = false })
        session_events).0
      (plain "reset")
unfolding run_connection nexus_framework.Bridge.Session.expiry_check
    nexus_framework.Bridge.Session.refresh_in event_loop nexus_framework.Bridge.Session.is_enabled
    nexus_framework.Bridge.Session.handle
run_connection-IsClosed_example =
    run_connection-IsClosed (pos 5) (pos 0) (record { token = token_until 10; refreshing = false })
      session_events (plain "reset") refl

run_connection_static_example :
    run_connection
      (pos 5)
      (pos 3)
      (record { token = token_until 0; refreshing = false })
      session_events
    ≡ (drop_with refresh_required, some refresh_required)
run_connection_static_example =
    run_connection_static 5 3 (token_until 0) session_events (omega arith) (omega arith) refl

refresh_failed_drops_example :
    event_loop
      (pos 2000000000)
      (record { token = token_until 10; refreshing = true })
      ((refresh_failed (plain "502"), pos 9000000000) ∷ session_events)
    ≡ (drop_with refresh_required, some refresh_required)
refresh_failed_drops_example =
    refresh_failed_drops 10 2000000000 9000000000 (token_until 10) (plain "502") session_events
      (omega arith) (omega arith) (omega arith) refl (omega arith)

abbrev lost : Turn
lost = record { error = some (plain "reset"); cancelled = false; draw = 3 }

abbrev refused : Turn
refused = record { error = some (permanent (plain "no token")); cancelled = false; draw = 0 }

maintain_websocket-StoppedAt_example :
    Socket.Laws.StoppedAt small_policy
      (lost ∷ refused ∷ [])
      (maintain_websocket small_policy (lost ∷ refused ∷ [])).0
      (Socket.stopped (permanent (plain "no token")))
unfolding maintain_websocket Socket.socket_turn is_permanent calculate_backoff
maintain_websocket-StoppedAt_example =
    maintain_websocket-StoppedAt small_policy (lost ∷ refused ∷ [])
      (Socket.stopped (permanent (plain "no token"))) refl
