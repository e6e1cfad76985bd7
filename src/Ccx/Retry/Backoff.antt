-- ===== src/Ccx/Retry/Backoff.antt =====
-- Bounds of the delays between attempts.
use formae_plugin_aws.Prelude.Int.{ℤ, pos, negsuc}
use formae_plugin_aws.Prelude.{
  ℕ, zero, suc, ◌-◌, ◌*◌, ◌%◌, ◌^◌, ◌≤◌, ◌<◌, ◌≡◌, arith, ◌||◌, if◌then◌else◌, ltb, leb, ◌==◌,
}
use native.Mathlib.Nat.{one-le-pow, pow-le-pow_right}
use formae_plugin_aws.Ccx.Retry.{
  RetryOpts, with_defaults, capped_delay, shift_of, or_default, two_pow_63, two_pow_64,
}

or_default-pos : (v : ℤ) (d : ℕ) → 1 ≤ d → 1 ≤ or_default v d
or_default-pos (pos zero) d h = h
or_default-pos (pos (suc n)) d h = omega arith
or_default-pos (negsuc n) d h = h

-- Whatever the options, the budget has at least one attempt and positive delays; positive options
-- are kept.
pub with_defaults_pos :
    (o : RetryOpts)
    → (1 ≤ (with_defaults o).attempts)
      × (1 ≤ (with_defaults o).base)
      × (1 ≤ (with_defaults o).limit)
      × ((n : ℕ) → o.max_attempts ≡ pos (suc n) → (with_defaults o).attempts ≡ suc n)
unfolding with_defaults
with_defaults_pos o = (
  or_default-pos o.max_attempts _ (omega arith),
  or_default-pos o.base_delay _ (omega arith),
  or_default-pos o.max_delay _ (omega arith),
  λ n e. rw e,
)

-- The delay before jitter is positive and at most the limit, for any attempt, wrap-around included.
capped_delay_bounds :
    (attempt base limit : ℕ)
    → 1 ≤ limit
    → (1 ≤ capped_delay attempt base limit) × (capped_delay attempt base limit ≤ limit)
unfolding capped_delay
capped_delay_bounds attempt base limit h = ground arith

-- 2 ^ n for the shifts that the code makes
shift_range : (n : ℕ) → n ≤ 30 → (1 ≤ 2 ^ n) × (2 ^ n ≤ 1073741824)
shift_range n h = (one-le-pow n 2 (omega arith), pow-le-pow_right {n = 2} (omega arith) h)

product_bound : (a b c d : ℕ) → a ≤ c → b ≤ d → a * b ≤ c * d
product_bound a b c d h k = grind arith

product_pos : (a b : ℕ) → 1 ≤ a → 1 ≤ b → 1 ≤ a * b
product_pos a b h k = grind arith

shift_of_small : (attempt : ℕ) → attempt ≤ 31 → shift_of attempt ≡ attempt - 1
shift_of_small attempt h = ground arith

-- For up to 31 attempts, and a positive base that is at most 2^33 - 1 nanoseconds, the delay is
-- base * 2 ^ (attempt - 1), or the limit if that is less.
pub capped_delay_exact :
    (attempt base limit : ℕ)
    → 1 ≤ base
    → base ≤ 8589934591
    → attempt ≤ 31
    → capped_delay attempt base limit
      ≡ (if ltb limit (base * 2 ^ (attempt - 1)) then limit else base * 2 ^ (attempt - 1))
unfolding capped_delay
capped_delay_exact attempt base limit hb hc ha =
    let (low, high) = shift_range (attempt - 1) (omega arith) in
    let bound = product_bound base (2 ^ (attempt - 1)) 8589934591 1073741824 hc high in
    let large = product_pos base (2 ^ (attempt - 1)) hb low in
    rw (shift_of_small attempt ha) (exact (base * 2 ^ (attempt - 1)) large (omega arith))
  where
    exact :
        (p : ℕ)
        → 1 ≤ p
        → p < two_pow_63
        → (if ltb limit (p % two_pow_64) || p % two_pow_64 == 0 || leb two_pow_63 (p % two_pow_64)
            then limit
            else p % two_pow_64)
          ≡ (if ltb limit p then limit else p)
    exact p h k = let e : p % two_pow_64 ≡ p = omega arith in rw e (ground arith)

shift_of-le : (attempt : ℕ) → shift_of attempt ≤ 30
shift_of-le attempt = ground arith

-- The delay is never too short for rand.Int64N, for sane options.
pub capped_delay-ge_four :
    (attempt base limit : ℕ)
    → 4 ≤ base
    → base ≤ 8589934591
    → 4 ≤ limit
    → 4 ≤ capped_delay attempt base limit
unfolding capped_delay
capped_delay-ge_four attempt base limit hb hc hl =
    let (low, high) = shift_range (shift_of attempt) (shift_of-le attempt) in
    let bound = product_bound base (2 ^ shift_of attempt) 8589934591 1073741824 hc high in
    let large = product_bound 4 1 base (2 ^ shift_of attempt) hb low in
    four (base * 2 ^ shift_of attempt) large (omega arith)
  where
    four :
        (p : ℕ)
        → 4 ≤ p
        → p < two_pow_63
        → 4 ≤ (
            if ltb limit (p % two_pow_64) || p % two_pow_64 == 0 || leb two_pow_63 (p % two_pow_64)
            then limit
            else p % two_pow_64)
    four p h k = let e : p % two_pow_64 ≡ p = omega arith in rw e (ground arith)
