-- ===== src/Ccx/Retry/Result.antt =====
-- With what the retry loop ends.
use formae_plugin_aws.Prelude.{
  ℕ, zero, suc, ◌+◌, ◌/◌, ◌≤◌, ◌≡◌, arith, Bool, true, false, Option, none, ◌==◌, Io, Bool-cases,
  inl, inr, ◌⊎◌,
}
use formae_plugin_aws.Go.{GoError, Outcome, returned, panicked, after}
use formae_plugin_aws.Ccx.Retry.{
  RetryOpts, Budget, with_defaults, Clock, capped_delay, backoff_then, wait_then, after_attempt,
  retry_from, retry,
}
use formae_plugin_aws.Ccx.Retry.Backoff.{capped_delay-ge_four}
use formae_plugin_aws.Ccx.Retry.Calls.{Counts}

abbrev Returns {ℓ} : {A : Type ℓ} → Outcome A → Type 0
Returns (returned _ _) = Unit
Returns panicked = ⊥

-- The call does not panic, and the context outlives the loop.
pub record Calm {ℓ κ} {W : Type ℓ} {A : Type κ} (clock : Clock W) (fn : Io W (Outcome A))
    : Type ℓ where
  pub no_panic : (w : W) → Returns (fn w).0
  pub no_end : (n : ℕ) (w : W) → (clock.wait n w).0 ≡ none

-- Delays that rand.Int64N accepts and int64 holds.
pub record SaneDelays (b : Budget) : Type 0 where
  pub base_ge : 4 ≤ b.base
  pub base_le : b.base ≤ 8589934591
  pub limit_ge : 4 ≤ b.limit

-- The result is settled, or all of the `k` calls were made.
abbrev pub Ends {ℓ κ} :
    {W : Type ℓ} {A : Type κ}
    → (Option A → Option GoError → Bool)
    → (W → ℕ)
    → ℕ
    → W
    → Outcome A
    → W
    → Type 0
Ends settled count k w (returned res err) w' = (settled res err ≡ true) ⊎ (count w' ≡ count w + k)
Ends settled count k w panicked w' = ⊥

module _ {ℓ κ} {W : Type ℓ} {A : Type κ} (clock : Clock W)
    (settled : Option A → Option GoError → Bool) (fn : Io W (Outcome A)) (count : W → ℕ)
    (c : Counts clock fn count) (calm : Calm clock fn) where
  Ends-earlier :
      (k j : ℕ) (w v w' : W) (o : Outcome A)
      → count w + k ≡ count v + j
      → Ends settled count k w o w'
      → Ends settled count j v o w'
  Ends-earlier k j w v w' (returned res err) e (inl done) = inl done
  Ends-earlier k j w v w' (returned res err) e (inr all) = inr (omega arith)
  Ends-earlier k j w v w' panicked e h = h

  module _ (b : Budget) (sane : SaneDelays b) where
    -- what holds of the next round holds of the pause and the next round
    pause-Ends :
        (k attempt : ℕ) (last : Option A) (next : Io W (Outcome A)) (w : W)
        → ((w' : W) → Ends settled count k w' (next w').0 (next w').1)
        → let r = backoff_then clock attempt b.base b.limit (λ d. wait_then clock last d next) w in
          Ends settled count k w r.0 r.1
    unfolding backoff_then wait_then
    pause-Ends k attempt last next w h =
        let delay = capped_delay attempt b.base b.limit in
        let drawn = clock.int64n (delay / 4) w in
        let waited = clock.wait (delay + drawn.0) drawn.1 in
        let large =
          capped_delay-ge_four attempt b.base b.limit sane.base_ge sane.base_le sane.limit_ge in
        let some_range : (delay / 4 == 0) ≡ false = ground (arith, large) in
        rw (backoff_then, some_range)
          (rw (wait_then, calm.no_end (delay + drawn.0) drawn.1)
            (Ends-earlier k k waited.1 w (next waited.1).1 (next waited.1).0
              (omega (arith, c.draw (delay / 4) w, c.wait (delay + drawn.0) drawn.1)) (h waited.1)))

    after_attempt-Ends :
        (left attempt : ℕ) (next : Io W (Outcome A)) (res : Option A) (err : Option GoError) (w : W)
        → ((w' : W) → Ends settled count left w' (next w').0 (next w').1)
        → let r = after_attempt clock settled b fn left attempt next res err w in
          Ends settled count left w r.0 r.1
    unfolding after_attempt
    after_attempt-Ends left attempt next res err w h = elim (Bool-cases (settled res err)) [
      | inl done ↦ rw (after_attempt, done) (inl done)
      | inr open_still ↦ elim (Bool-cases (left == 0)) [
        | inl last ↦ rw (after_attempt, open_still, last) (inr (ground arith))
        | inr more ↦ rw (after_attempt, open_still, more) (pause-Ends left attempt res next w h)
      ]
    ]

    attempt-Ends :
        (left attempt : ℕ) (next : Io W (Outcome A)) (o : Outcome A) (w : W)
        → Returns o
        → ((w' : W) → Ends settled count left w' (next w').0 (next w').1)
        → let r = after o (after_attempt clock settled b fn left attempt next) w in
          Ends settled count left w r.0 r.1
    attempt-Ends left attempt next (returned res err) w _ h =
        after_attempt-Ends left attempt next res err w h
    attempt-Ends left attempt next panicked w absent h = absurd absent

    retry_from-Ends :
        (left attempt : ℕ) (w : W)
        → let r = retry_from clock settled b fn left attempt w in Ends settled count left w r.0 r.1
    unfolding retry_from
    retry_from-Ends zero attempt w = inr (omega arith)
    retry_from-Ends (suc left) attempt w =
        let rest = retry_from clock settled b fn left (suc attempt) in
        let end = after (fn w).0 (after_attempt clock settled b fn left attempt rest) (fn w).1 in
        Ends-earlier left (suc left) (fn w).1 w end.1 end.0 (omega (arith, c.call w)) (
          attempt-Ends left attempt rest (fn w).0 (fn w).1 (calm.no_panic w)
            (λ w'. retry_from-Ends left (suc attempt) w'))

-- While the context lasts and the call does not panic, a retried call returns, for delays that are
-- at least four nanoseconds and whose base is at most 2^33 - 1 of them. Its result is one that needs no
-- retry, or the budget's calls were all made.
pub retry-Ends {ℓ κ} :
    {W : Type ℓ} {A : Type κ} (clock : Clock W) (settled : Option A → Option GoError → Bool)
    (o : RetryOpts) (fn : Io W (Outcome A)) (count : W → ℕ) (w : W)
    → Counts clock fn count
    → Calm clock fn
    → SaneDelays (with_defaults o)
    → let r = retry clock settled o fn w in Ends settled count (with_defaults o).attempts w r.0 r.1
unfolding retry
retry-Ends clock settled o fn count w c calm sane =
    retry_from-Ends clock settled fn count c calm (with_defaults o) sane (with_defaults o).attempts
      1 w
