-- ===== src/Examples/Client.antt =====
-- nexus-sdk/client.go: the theorems at concrete inputs.
use nexus_framework.Prelude.{
  ℕ, String, ◌≡◌, refl, ◌≤◌, ◌<◌, true, false, none, some, [], ◌=?◌, ltb, if◌then◌else◌, arith,
  Result, ok, inl, inr,
}
use nexus_framework.Prelude.Int.{pos, negsuc, pos_part}
use nexus_framework.Sdk.{
  RetryPolicy, SdkRequest, Sent, answered, SdkError, Network, normalized, do_request,
  wait_for_active,
}
use nexus_framework.Sdk.Attempts.{EndsAt, GoesOn, AllWithin, count, do_request_lem}
use nexus_framework.Sdk.Waits.{PollsOn, wait_for_active_ends}

-- The first answer is a bad request and the second one a token.
abbrev two_answers : ℕ → Sent
two_answers n = if n =? 0 then answered 400 "no" else answered 200 "token"

abbrev toy_network : Network
toy_network = record {
  answer = λ request n. two_answers n;
  is_done = λ request n. false;
  jittered = λ n base. base;
  code_field = λ text. none;
  path_escape = λ s. s;
  to_text = λ v. none;
  of_text = λ text. none;
}

abbrev toy_policy : RetryPolicy
toy_policy = record {
  retries = pos 3;
  min_delay = pos 100;
  max_delay = negsuc 0;
  retry_on_429 = true;
}

abbrev toy_request : SdkRequest
toy_request = record { method = "GET"; url = "/v1/token/n1"; header = []; body = none }

do_request_lem_example :
    (n : ℕ) × (n ≤ pos_part (normalized toy_policy).retries)
    × EndsAt toy_network
        (normalized toy_policy)
        toy_request
        n
        (pos_part (normalized toy_policy).retries)
        (do_request toy_network toy_policy toy_request)
    × ((j : ℕ) → j < n → GoesOn toy_network (normalized toy_policy) toy_request j)
    × (count (do_request toy_network toy_policy toy_request).1
        ≤ pos_part (normalized toy_policy).retries)
    × AllWithin
        (pos_part (normalized toy_policy).max_delay)
        (do_request toy_network toy_policy toy_request).1
do_request_lem_example = do_request_lem toy_network toy_policy toy_request (λ i base. omega arith)

abbrev polled : ℕ → Result SdkError String
polled n = ok (if ltb n 2 then "pending" else "active")

two_pending : (j : ℕ) → j < 2 → PollsOn polled (λ n. false) j
two_pending j h = (("pending", ground arith, refl), refl)

wait_for_active_ends_example : wait_for_active polled (λ n. false) 3 0 ≡ some (ok "active")
wait_for_active_ends_example =
    wait_for_active_ends polled (λ n. false) 2 3 (ok "active") two_pending
      (inr (inl ("active", refl, refl, refl))) (omega arith)
