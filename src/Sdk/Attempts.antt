-- ===== src/Sdk/Attempts.antt =====
-- nexus-sdk/client.go, do: which attempts a request takes, and how long it waits between them.
use nexus_framework.Prelude.{
  ℕ, zero, suc, String, ◌≡◌, refl, true, false, List, [], ◌∷◌, ◌⊎◌, ◌+◌, ◌≤◌, ◌<◌, ◌=?◌, arith,
  Result, ok, err, Result-cases, Bool-cases, inl, inr, subst,
}
use nexus_framework.Prelude.Int.{pos_part}
use nexus_framework.Sdk.{
  RetryPolicy, Network, SdkRequest, SdkError, context_done, normalized, attempt, backoff_base,
  do_from, do_request,
}

backoff_base_bound : (i least most : ℕ) → backoff_base i least most ≤ most
unfolding backoff_base
backoff_base_bound i least most = ground arith

-- Every wait of a list is at most a bound.
abbrev pub AllWithin : ℕ → List ℕ → Type 0
AllWithin most [] = Unit
AllWithin most (d ∷ l) = (d ≤ most) × AllWithin most l

abbrev pub count : List ℕ → ℕ
count [] = 0
count (d ∷ l) = suc (count l)

module _ (net : Network) (p : RetryPolicy) (request : SdkRequest) where
  abbrev pub result_at : ℕ → Result SdkError String
  result_at i = attempt net p (net.answer request i)

  -- An attempt that is followed by another one: it fails, and the context lets the wait end.
  abbrev pub GoesOn : ℕ → Type 0
  GoesOn i = ((e : SdkError) × (result_at i ≡ err e)) × (net.is_done request i ≡ false)

  -- The last attempt, and the outcome after it: its success, its error where no attempt is left, or
  -- the end of the context in the wait after it.
  abbrev pub EndsAt : ℕ → ℕ → Result SdkError String × List ℕ → Type 0
  EndsAt n last (r, waits) =
      ((text : String) × (result_at n ≡ ok text) × (r ≡ ok text))
      ⊎ (((e : SdkError) × (result_at n ≡ err e) × (r ≡ err e) × (n ≡ last))
          ⊎ ((e : SdkError) × (result_at n ≡ err e)
              × (r ≡ err context_done)
              × (net.is_done request n ≡ true)
              × (n < last)))

  -- A run from attempt i on, with a number of attempts left after it.
  abbrev Run : ℕ → ℕ → Result SdkError String × List ℕ → Type 0
  Run i left (r, waits) =
      (n : ℕ) × (i ≤ n)
      × (n ≤ i + left)
      × EndsAt n (i + left) (r, waits)
      × ((j : ℕ) → i ≤ j → j < n → GoesOn j)
      × (count waits ≤ left)
      × AllWithin (pos_part p.max_delay) waits

  module _ (short : (i base : ℕ) → net.jittered i base ≤ base) where
    delay_bound :
        (i : ℕ)
        → net.jittered i (backoff_base i (pos_part p.min_delay) (pos_part p.max_delay))
          ≤ pos_part p.max_delay
    delay_bound i = omega (
      arith,
      short i (backoff_base i (pos_part p.min_delay) (pos_part p.max_delay)),
      backoff_base_bound i (pos_part p.min_delay) (pos_part p.max_delay),
    )

    do_from-Run : (i left : ℕ) → Run i left (do_from net p request i left)
    unfolding do_from
    do_from-Run i zero = elim (Result-cases (result_at i)) [
      | inl (text, fine) ↦ (
        i,
        omega arith,
        omega arith,
        inl (text, fine, fine),
        (λ j a b. absurd (omega arith)),
        omega arith,
        tt,
      )
      | inr (e, wrong) ↦ (
        i,
        omega arith,
        omega arith,
        inr (inl (e, wrong, wrong, omega arith)),
        (λ j a b. absurd (omega arith)),
        omega arith,
        tt,
      )
    ]
    do_from-Run i (suc left) = elim (Result-cases (result_at i)) [
      | inl (text, fine) ↦
          rw (fine, do_from)
            (
              i,
              omega arith,
              omega arith,
              inl (text, fine, refl),
              (λ j a b. absurd (omega arith)),
              omega arith,
              tt,
            )
      | inr (e, wrong) ↦ elim (Bool-cases (net.is_done request i)) [
        | inl over ↦
            rw (wrong, over, do_from)
              (
                i,
                omega arith,
                omega arith,
                inr (inr (e, wrong, refl, over, omega arith)),
                (λ j a b. absurd (omega arith)),
                omega arith,
                (delay_bound i, tt),
              )
        | inr more ↦
            let (n, after, within, ended, before, few, bounded) = do_from-Run (suc i) left in
            let same : suc i + left ≡ i + suc left = omega arith in
            rw (wrong, more, do_from)
              (
                n,
                omega arith,
                omega arith,
                subst (λ m. EndsAt n m (do_from net p request (suc i) left)) same ended,
                (λ j a b. elim (Bool-cases (j =? i)) [
                  | inl here ↦ subst GoesOn (ground (arith, here)) ((e, wrong), more)
                  | inr later ↦ before j (ground (arith, later)) b
                ]),
                omega arith,
                (delay_bound i, bounded),
              )
      ]
    ]

-- A request takes at most one attempt more than the policy has retries: it ends at the first
-- attempt that succeeds, at the last one with its error, or where the context ends a wait. Every
-- attempt before has failed, whatever its error, also with a status that is not to be retried. It
-- waits at most as often as the policy has retries, and never longer than the maximal delay, for a
-- jitter that does not lengthen a wait.
pub do_request_lem :
    (net : Network) (policy : RetryPolicy) (request : SdkRequest)
    → ((i base : ℕ) → net.jittered i base ≤ base)
    → (n : ℕ) × (n ≤ pos_part (normalized policy).retries)
      × EndsAt net
          (normalized policy)
          request
          n
          (pos_part (normalized policy).retries)
          (do_request net policy request)
      × ((j : ℕ) → j < n → GoesOn net (normalized policy) request j)
      × (count (do_request net policy request).1 ≤ pos_part (normalized policy).retries)
      × AllWithin (pos_part (normalized policy).max_delay) (do_request net policy request).1
unfolding do_request
do_request_lem net policy request short =
    let p = normalized policy in
    let (n, after, within, ended, before, few, bounded) =
      do_from-Run net p request short 0 (pos_part p.retries) in
    let same : 0 + pos_part p.retries ≡ pos_part p.retries = omega arith in
    (
      n,
      omega arith,
      subst (λ m. EndsAt net p request n m (do_request net policy request)) same ended,
      (λ j b. before j (omega arith) b),
      few,
      bounded,
    )
