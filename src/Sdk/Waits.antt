-- ===== src/Sdk/Waits.antt =====
-- nexus-sdk/client.go, WaitForActive: when the polling ends.
use nexus_framework.Prelude.{
  ℕ, zero, suc, String, ◌≡◌, refl, Bool, true, false, some, ◌⊎◌, ◌+◌, ◌≤◌, ◌<◌, arith, Result, ok,
  err, inl, inr, subst, ◌∙◌,
}
use nexus_framework.Sdk.{SdkError, context_done, is_final, wait_for_active}

module _ (poll : ℕ → Result SdkError String) (is_done : ℕ → Bool) where
  -- A poll after which the client polls again.
  abbrev pub PollsOn : ℕ → Type 0
  PollsOn i =
      ((status : String) × (poll i ≡ ok status) × (is_final status ≡ false)) × (is_done i ≡ false)

  -- A poll that ends the polling, with its result.
  abbrev pub EndsWith : ℕ → Result SdkError String → Type 0
  EndsWith i r =
      ((e : SdkError) × (poll i ≡ err e) × (r ≡ err e))
      ⊎ (((status : String) × (poll i ≡ ok status) × (is_final status ≡ true) × (r ≡ ok status))
          ⊎ ((status : String) × (poll i ≡ ok status)
              × (is_final status ≡ false)
              × (is_done i ≡ true)
              × (r ≡ err context_done)))

  ends_now :
      (fuel i : ℕ) (r : Result SdkError String)
      → EndsWith i r
      → wait_for_active poll is_done (suc fuel) i ≡ some r
  unfolding wait_for_active
  ends_now fuel i r (inl (e, failed, same)) = rw (failed, same, wait_for_active) refl
  ends_now fuel i r (inr (inl (status, there, final, same))) =
      rw (there, wait_for_active) (rw (final, same) refl)
  ends_now fuel i r (inr (inr (status, there, waiting, over, same))) =
      rw (there, wait_for_active) (rw (waiting, over, same) refl)

  goes_on :
      (fuel i : ℕ)
      → PollsOn i
      → wait_for_active poll is_done (suc fuel) i ≡ wait_for_active poll is_done fuel (suc i)
  unfolding wait_for_active
  goes_on fuel i ((status, there, waiting), more) =
      rw (there, wait_for_active) (rw (waiting, more) refl)

  ends_at :
      (k fuel i n : ℕ) (r : Result SdkError String)
      → i + k ≡ n
      → k < fuel
      → ((j : ℕ) → i ≤ j → j < n → PollsOn j)
      → EndsWith n r
      → wait_for_active poll is_done fuel i ≡ some r
  ends_at k zero i n r e enough before ended = absurd (omega arith)
  ends_at zero (suc fuel) i n r e enough before ended =
      ends_now fuel i r (subst (λ m. EndsWith m r) (omega arith) ended)
  ends_at (suc k) (suc fuel) i n r e enough before ended =
      goes_on fuel i (before i (omega arith) (omega arith))
      ∙ ends_at k fuel (suc i) n r (omega arith) (omega arith) (λ j a b. before j (omega arith) b)
          ended

  -- The waiting for a connection ends at the first poll that fails, finds it active or failed, or
  -- after which the context is done, and gives that poll's result: any fuel above the number of
  -- polls before it is enough.
  pub wait_for_active_ends :
      (n fuel : ℕ) (r : Result SdkError String)
      → ((j : ℕ) → j < n → PollsOn j)
      → EndsWith n r
      → n < fuel
      → wait_for_active poll is_done fuel 0 ≡ some r
  wait_for_active_ends n fuel r before ended enough =
      ends_at n fuel 0 n r (omega arith) enough (λ j a b. before j b) ended
