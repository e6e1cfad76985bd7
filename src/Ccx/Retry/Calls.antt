-- ===== src/Ccx/Retry/Calls.antt =====
-- How often the retry loop calls, and with what it ends.
use formae_plugin_aws.Prelude.{
  ℕ, zero, suc, ◌+◌, ◌/◌, ◌≤◌, ◌<◌, ◌≡◌, arith, Bool, ◌||◌, Option, ◌==◌, Io, Bool-cases,
  Option-cases, inl, inr, subst, sym, ◌-◌,
}
use formae_plugin_aws.Go.{GoError, Outcome, returned, panicked, after}
use formae_plugin_aws.Ccx.Retry.{
  RetryOpts, Budget, with_defaults, Clock, capped_delay, backoff_then, wait_then, after_attempt,
  retry_from, retry,
}
use formae_plugin_aws.Ccx.Retry.Backoff.{with_defaults_pos}

-- A number that counts the calls of `fn` in the world, which drawing and waiting leave alone.
pub record Counts {ℓ κ} {W : Type ℓ} {A : Type κ} (clock : Clock W) (fn : Io W (Outcome A))
    (count : W → ℕ) : Type (ℓ ⊔ κ) where
  pub call : (w : W) → count (fn w).1 ≡ suc (count w)
  pub draw : (n : ℕ) (w : W) → count (clock.int64n n w).1 ≡ count w
  pub wait : (n : ℕ) (w : W) → count (clock.wait n w).1 ≡ count w

-- `m` makes at most `k` calls.
abbrev pub Spends {ℓ κ} : {W : Type ℓ} {A : Type κ} → (W → ℕ) → ℕ → Io W (Outcome A) → Type ℓ
Spends {W} count k m = (w : W) → (count w ≤ count (m w).1) × (count (m w).1 ≤ count w + k)

module _ {ℓ κ} {W : Type ℓ} {A : Type κ} (clock : Clock W) (fn : Io W (Outcome A)) (count : W → ℕ)
    (c : Counts clock fn count) where
  wait_then-Spends :
      (k : ℕ) (last : Option A) (delay : ℕ) (next : Io W (Outcome A))
      → Spends count k next
      → Spends count k (wait_then clock last delay next)
  unfolding wait_then
  wait_then-Spends k last delay next h w = elim (Option-cases (clock.wait delay w).0) [
    | inl e ↦ rw (wait_then, e) (omega (arith, c.wait delay w, h (clock.wait delay w).1))
    | inr (x, e) ↦ rw (wait_then, e) (omega (arith, c.wait delay w))
  ]

  backoff_then-Spends :
      (k attempt base limit : ℕ) (next : ℕ → Io W (Outcome A))
      → ((delay : ℕ) → Spends count k (next delay))
      → Spends count k (backoff_then clock attempt base limit next)
  unfolding backoff_then
  backoff_then-Spends k attempt base limit next h w =
      let delay = capped_delay attempt base limit in
      let drawn = clock.int64n (delay / 4) w in
      elim (Bool-cases (delay / 4 == 0)) [
        | inl zero_range ↦ rw (backoff_then, zero_range) (omega arith)
        | inr some_range ↦
            rw (backoff_then, some_range)
              (omega (arith, c.draw (delay / 4) w, h (delay + drawn.0) drawn.1))
      ]

  after-Spends :
      (k : ℕ) (o : Outcome A) (next : Option A → Option GoError → Io W (Outcome A))
      → ((res : Option A) (err : Option GoError) → Spends count k (next res err))
      → Spends count k (after o next)
  after-Spends k (returned res err) next h w = h res err w
  after-Spends k panicked next h w = omega arith

  module _ (settled : Option A → Option GoError → Bool) (b : Budget) where
    after_attempt-Spends :
        (left attempt : ℕ) (next : Io W (Outcome A)) (res : Option A) (err : Option GoError)
        → Spends count left next
        → Spends count left (after_attempt clock settled b fn left attempt next res err)
    unfolding after_attempt
    after_attempt-Spends left attempt next res err h w =
        elim (Bool-cases (settled res err || left == 0)) [
          | inl done ↦ rw (after_attempt, done) (omega arith)
          | inr more ↦
              rw (after_attempt, more)
                (backoff_then-Spends left attempt b.base b.limit _
                  (λ delay. wait_then-Spends left res delay next h) w)
        ]

    -- one attempt and what follows it
    attempt-Spends :
        (left attempt : ℕ) (rest : Io W (Outcome A)) (w : W)
        → Spends count left rest
        → let end =
            (after (fn w).0 (after_attempt clock settled b fn left attempt rest) (fn w).1).1 in
          (count w < count end) × (count end ≤ count w + suc left)
    attempt-Spends left attempt rest w h = omega (
      arith,
      c.call w,
      after-Spends left (fn w).0 (after_attempt clock settled b fn left attempt rest)
          (λ res err. after_attempt-Spends left attempt rest res err h) (fn w).1,
    )

    retry_from-Spends :
        (left attempt : ℕ) → Spends count left (retry_from clock settled b fn left attempt)
    unfolding retry_from
    retry_from-Spends zero attempt w = omega arith
    retry_from-Spends (suc left) attempt w =
        let rest = retry_from clock settled b fn left (suc attempt) in
        omega (arith, attempt-Spends left attempt rest w (retry_from-Spends left (suc attempt)))

    -- The first attempt is always made.
    retry_from-called :
        (left attempt : ℕ) (w : W)
        → count w < count (retry_from clock settled b fn (suc left) attempt w).1
    unfolding retry_from
    retry_from-called left attempt w =
        (attempt-Spends left attempt (retry_from clock settled b fn left (suc attempt)) w
          (retry_from-Spends left (suc attempt))).0

-- A retried call is made at least once, and at most as often as the budget says, whatever the calls
-- return and whether or not the context ends.
pub retry-calls {ℓ κ} :
    {W : Type ℓ} {A : Type κ} (clock : Clock W) (settled : Option A → Option GoError → Bool)
    (o : RetryOpts) (fn : Io W (Outcome A)) (count : W → ℕ) (w : W)
    → Counts clock fn count
    → (count w < count (retry clock settled o fn w).1)
      × (count (retry clock settled o fn w).1 ≤ count w + (with_defaults o).attempts)
unfolding retry
retry-calls clock settled o fn count w c = (
  subst (λ n. count w < count (retry_from clock settled (with_defaults o) fn n 1 w).1)
      (sym (pred_of_pos _ (with_defaults_pos o).0))
      (retry_from-called clock fn count c settled (with_defaults o) ((with_defaults o).attempts - 1)
        1 w),
  (retry_from-Spends clock fn count c settled (with_defaults o) (with_defaults o).attempts 1 w).1,
)
  where
    pred_of_pos : (n : ℕ) → 1 ≤ n → n ≡ suc (n - 1)
    pred_of_pos n h = omega arith
