-- ===== src/Bridge/Rpc/Waits.antt =====
-- nexus-bridge/bridge.go, MaintainGRPCConnection: how long the loop waits.
use nexus_framework.Prelude.{
  ℕ, suc, ◌≡◌, ◌⊎◌, refl, ap, sym, ◌∙◌, true, none, some, List, [], ◌∷◌, ◌++◌, arith, Option-cases,
  Bool-cases, inl, inr,
}
use nexus_framework.Prelude.Int.{ℤ}
use nexus_framework.Bridge.Backoff.{RetryPolicy, grow_backoff, apply_jitter}
use nexus_framework.Bridge.Backoff.Growth.{backoff_after}
use nexus_framework.Bridge.Rpc.Steps.{turn_on, turn_ended, loop_on, loop_ended}
use nexus_framework.Bridge.Rpc.{
  Attempt, Action, waited, inc_connections, inc_disconnects, set_connection_status, wait_once,
  attempt_once, Exit, turn, loop, maintain_grpc,
}

abbrev pub waits_of : List Action → List ℤ
waits_of [] = []
waits_of (waited w ∷ l) = w ∷ waits_of l
waits_of (_ ∷ l) = waits_of l

-- What ends the loop before the wait of attempt `n`: the attempt before it, a context that is done,
-- or a jitter that panics.
abbrev pub IsOver : RetryPolicy → ℕ → Attempt → Attempt → Type 0
IsOver policy n previous a =
    ((x : Exit) × ((attempt_once previous).1 ≡ some x))
    ⊎ (a.cancelled_waiting ≡ true)
    ⊎ (apply_jitter policy a.draw (backoff_after policy n) ≡ none)

-- The waits before the attempts from number `n` on, after a previous one: each is the backoff after
-- that many failures, with the jitter of its attempt, and there is one for each attempt until the
-- loop is over.
abbrev pub FollowsPolicy : RetryPolicy → ℕ → Attempt → List ℤ → List Attempt → Type 0
FollowsPolicy policy n previous [] [] = Unit
FollowsPolicy policy n previous [] (a ∷ attempts) = IsOver policy n previous a
FollowsPolicy policy n previous (w ∷ ws) [] = ⊥
FollowsPolicy policy n previous (w ∷ ws) (a ∷ attempts) =
    (apply_jitter policy a.draw (backoff_after policy n) ≡ some w)
    × FollowsPolicy policy (suc n) a ws attempts

backoff_after-suc :
    (policy : RetryPolicy) (n : ℕ)
    → backoff_after policy (suc n) ≡ grow_backoff policy (backoff_after policy n)
unfolding backoff_after
backoff_after-suc policy n = refl

waits_of-append : (l m : List Action) → waits_of (l ++ m) ≡ waits_of l ++ waits_of m
waits_of-append [] m = refl
waits_of-append (waited w ∷ l) m = cc (waits_of-append l m)
waits_of-append (inc_connections ∷ l) m = waits_of-append l m
waits_of-append (inc_disconnects ∷ l) m = waits_of-append l m
waits_of-append (set_connection_status t ∷ l) m = waits_of-append l m

waits_of-attempt_once : (a : Attempt) → waits_of (attempt_once a).0 ≡ []
unfolding attempt_once
waits_of-attempt_once a = ground arith

module _ (policy : RetryPolicy) (b : ℤ) (n : ℕ) (a : Attempt) where
  -- A later attempt waits once if the loop goes on past the wait, and not at all otherwise.
  wait_once_on :
      (wait_once policy b (suc n) a).1 ≡ none
      → (w : ℤ) × (apply_jitter policy a.draw b ≡ some w)
        × (waits_of (wait_once policy b (suc n) a).0 ≡ w ∷ [])
  unfolding wait_once
  wait_once_on h = elim (Option-cases (apply_jitter policy a.draw b)) [
    | inl failed ↦ absurd (ground arith)
    | inr (w, jittered) ↦ (w, jittered, ground arith)
  ]

  wait_once_ended :
      {x : Exit}
      → (wait_once policy b (suc n) a).1 ≡ some x
      → (waits_of (wait_once policy b (suc n) a).0 ≡ [])
        × ((a.cancelled_waiting ≡ true) ⊎ (apply_jitter policy a.draw b ≡ none))
  unfolding wait_once
  wait_once_ended h = elim (Option-cases (apply_jitter policy a.draw b)) [
    | inl failed ↦ (ground arith, inr failed)
    | inr (w, jittered) ↦ elim (Bool-cases a.cancelled_waiting) [
      | inl done ↦ (ground arith, inl done)
      | inr waiting ↦ absurd (ground arith)
    ]
  ]

-- One turn of a later attempt: it waits as the policy says and ends as the attempt does, or the loop
-- ends before it waits.
turn_waits :
    (policy : RetryPolicy) (b : ℤ) (n : ℕ) (a : Attempt)
    → ((w : ℤ) × (apply_jitter policy a.draw b ≡ some w)
        × (waits_of (turn policy b (suc n) a).0 ≡ w ∷ [])
        × ((turn policy b (suc n) a).1 ≡ (attempt_once a).1))
      ⊎ ((x : Exit) × ((turn policy b (suc n) a).1 ≡ some x)
          × (waits_of (turn policy b (suc n) a).0 ≡ [])
          × ((a.cancelled_waiting ≡ true) ⊎ (apply_jitter policy a.draw b ≡ none)))
turn_waits policy b n a = elim (Option-cases (wait_once policy b (suc n) a).1) [
  | inl on ↦
      let (w, jittered, once) = wait_once_on policy b n a on in
      inl (
        w,
        jittered,
        rw (turn_on policy b (suc n) a on, waits_of-append, once, waits_of-attempt_once a),
        ap (λ x. x.1) (turn_on policy b (suc n) a on),
      )
  | inr (x, ended) ↦
      let (silent, why) = wait_once_ended policy b n a ended in
      inr (
        x,
        rw (turn_ended policy b (suc n) a ended),
        rw (turn_ended policy b (suc n) a ended) silent,
        why,
      )
]

-- After an attempt that ends the loop there are no waits.
over-FollowsPolicy :
    (policy : RetryPolicy) (n : ℕ) (a : Attempt) (later : List Attempt) (x : Exit)
    → (attempt_once a).1 ≡ some x
    → FollowsPolicy policy n a [] later
over-FollowsPolicy policy n a [] x e = tt
over-FollowsPolicy policy n a (b ∷ later) x e = inl (x, e)

module _ (policy : RetryPolicy) (n : ℕ) (previous a : Attempt) (later : List Attempt)
    (acts : List Action) where
  none-FollowsPolicy :
      (a.cancelled_waiting ≡ true) ⊎ (apply_jitter policy a.draw (backoff_after policy n) ≡ none)
      → waits_of acts ≡ []
      → FollowsPolicy policy n previous (waits_of acts) (a ∷ later)
  none-FollowsPolicy why e = rw e (inr why)

  one-FollowsPolicy :
      (w : ℤ) (x : Exit)
      → apply_jitter policy a.draw (backoff_after policy n) ≡ some w
      → waits_of acts ≡ w ∷ []
      → (attempt_once a).1 ≡ some x
      → FollowsPolicy policy n previous (waits_of acts) (a ∷ later)
  one-FollowsPolicy w x jittered once ended =
      rw once (jittered, over-FollowsPolicy policy (suc n) a later x ended)

  more-FollowsPolicy :
      (w : ℤ) (more : List Action)
      → apply_jitter policy a.draw (backoff_after policy n) ≡ some w
      → waits_of acts ≡ w ∷ []
      → FollowsPolicy policy (suc n) a (waits_of more) later
      → FollowsPolicy policy n previous (waits_of (acts ++ more)) (a ∷ later)
  more-FollowsPolicy w more jittered once rest = rw (waits_of-append, once) (jittered, rest)

waits_of-loop :
    (policy : RetryPolicy) (n : ℕ) (previous : Attempt) (attempts : List Attempt)
    → FollowsPolicy policy
        (suc n)
        previous
        (waits_of (loop policy (backoff_after policy (suc n)) (suc n) attempts).0)
        attempts
unfolding loop
waits_of-loop policy n previous [] = tt
waits_of-loop policy n previous (a ∷ later) =
    let b = backoff_after policy (suc n) in
    let acts = (turn policy b (suc n) a).0 in
    let more = (loop policy (grow_backoff policy b) (suc (suc n)) later).0 in
    let rest : FollowsPolicy policy (suc (suc n)) a (waits_of more) later =
      rw (← backoff_after-suc policy (suc n)) (waits_of-loop policy (suc n) a later) in
    elim (Option-cases (turn policy b (suc n) a).1) [
      | inr (y, ended) ↦
          rw (loop_ended policy b (suc n) a later ended) (elim (turn_waits policy b n a) [
            | inl (w, jittered, once, same) ↦
                one-FollowsPolicy policy (suc n) previous a later acts w y jittered once
                  (sym same ∙ ended)
            | inr (x, _, silent, why) ↦
                none-FollowsPolicy policy (suc n) previous a later acts why silent
          ])
      | inl on ↦ rw (loop_on policy b (suc n) a later on) (elim (turn_waits policy b n a) [
        | inl (w, jittered, once, same) ↦
            more-FollowsPolicy policy (suc n) previous a later acts w more jittered once rest
        | inr (x, ended, _, _) ↦ absurd (cc (on, ended))
      ])
    ]

first_turn_waits :
    (policy : RetryPolicy) (b : ℤ) (a : Attempt) → waits_of (turn policy b 0 a).0 ≡ []
unfolding turn wait_once
first_turn_waits policy b a = rw (turn_on policy b 0 a refl) (waits_of-attempt_once a)

first_turn_ends :
    (policy : RetryPolicy) (b : ℤ) (a : Attempt) → (turn policy b 0 a).1 ≡ (attempt_once a).1
unfolding turn wait_once
first_turn_ends policy b a = ap (λ x. x.1) (turn_on policy b 0 a refl)

-- The loop does not wait before its first attempt. From n = 1 on it waits once before attempt n, the
-- backoff of n failures with the jitter of that attempt, until it is over: after the attempt before,
-- or because the context is done while it waits, or because the jitter panics.
pub maintain_grpc-FollowsPolicy :
    (policy : RetryPolicy) (first : Attempt) (attempts : List Attempt)
    → FollowsPolicy policy 1 first (waits_of (maintain_grpc policy (first ∷ attempts)).0) attempts
unfolding maintain_grpc backoff_after
maintain_grpc-FollowsPolicy policy first attempts =
    let b = policy.min_backoff in
    elim (Option-cases (turn policy b 0 first).1) [
      | inr (y, ended) ↦
          rw (loop_ended policy b 0 first attempts ended, first_turn_waits policy b first)
            (over-FollowsPolicy policy 1 first attempts y
              (sym (first_turn_ends policy b first) ∙ ended))
      | inl on ↦
          rw
            (loop_on policy b 0 first attempts on, waits_of-append, first_turn_waits policy b first)
            (waits_of-loop policy 0 first attempts)
    ]
