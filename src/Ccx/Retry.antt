-- ===== src/Ccx/Retry.antt =====
-- pkg/ccx/retry.go: the retry loop and its delays. Durations are nanoseconds.
pub mod Backoff
pub mod Calls
pub mod Result
use formae_plugin_aws.Prelude.Int.{ℤ, pos, negsuc}
use formae_plugin_aws.Prelude.{
  ℕ, zero, suc, ◌+◌, ◌-◌, ◌*◌, ◌/◌, ◌%◌, ◌^◌, Bool, true, false, ◌&&◌, ◌||◌, not, Option, none,
  some, List, [], ◌∷◌, if◌then◌else◌, ltb, leb, ◌==◌, Io,
}
use formae_plugin_aws.Text.{Text, codes, contains, is_empty}
use formae_plugin_aws.Go.{GoError, Outcome, returned, panicked, after}
use formae_plugin_aws.Sdk
use formae_plugin_aws.Sdk.{ErrorCode, is_no_code, ReadResult}

pub record RetryOpts : Type 0 where
  pub max_attempts : ℤ
  pub base_delay : ℤ
  pub max_delay : ℤ

abbrev default_max_attempts : ℕ
default_max_attempts = 10

abbrev default_base_delay : ℕ
default_base_delay = 1000000000

abbrev default_max_delay : ℕ
default_max_delay = 30000000000

-- `if v <= 0 { v = d }`; the fields are positive afterwards.
abbrev pub or_default : ℤ → ℕ → ℕ
or_default (pos zero) d = d
or_default (pos (suc n)) d = suc n
or_default (negsuc n) d = d

pub record Budget : Type 0 where
  pub attempts : ℕ
  pub base : ℕ
  pub limit : ℕ

unfoldable pub with_defaults : RetryOpts → Budget
with_defaults o = record {
  attempts = or_default o.max_attempts default_max_attempts;
  base = or_default o.base_delay default_base_delay;
  limit = or_default o.max_delay default_max_delay;
}

-- retryOpts{}
abbrev pub default_opts : RetryOpts
default_opts = record { max_attempts = pos 0; base_delay = pos 0; max_delay = pos 0 }

-- The codes of the switch of isRecoverable.
abbrev recoverable_code : ErrorCode → Bool
recoverable_code Sdk.throttling = true
recoverable_code Sdk.not_stabilized = true
recoverable_code Sdk.service_internal_error = true
recoverable_code Sdk.service_timeout = true
recoverable_code Sdk.network_failure = true
recoverable_code Sdk.internal_failure = true
recoverable_code Sdk.general_service_exception = true
recoverable_code _ = false

abbrev markers : List Text
markers =
    codes "ThrottlingException"
    ∷ codes "Throttling"
    ∷ codes "HandlerFailureException"
    ∷ codes "HandlerInternalFailureException"
    ∷ codes "InternalFailure"
    ∷ codes "InternalServerError"
    ∷ codes "ServiceUnavailable"
    ∷ codes "GeneralServiceException"
    ∷ codes "RequestTimeout"
    ∷ codes "exceeded maximum number of attempts"
    ∷ []

unfoldable contains_any : List Text → Text → Bool
contains_any [] msg = false
contains_any (m ∷ ms) msg = contains m msg || contains_any ms msg

unfoldable recoverable_error : Option GoError → Bool
unfolding contains_any
recoverable_error none = false
recoverable_error (some e) = if e.is_context_error then false else contains_any markers e.message

unfoldable is_recoverable : Option GoError → ErrorCode → Bool
unfolding recoverable_error
is_recoverable err code = if recoverable_code code then true else recoverable_error err

abbrev pub two_pow_63 : ℕ
two_pow_63 = 9223372036854775808

abbrev pub two_pow_64 : ℕ
two_pow_64 = 18446744073709551616

-- shift := attempt - 1, at least 0 and at most 30
abbrev pub shift_of : ℕ → ℕ
shift_of attempt = if ltb 30 (attempt - 1) then 30 else attempt - 1

-- base * (1 << shift) in int64: a product of 2^63 or more, modulo 2^64, is negative.
unfoldable pub capped_delay : ℕ → ℕ → ℕ → ℕ
capped_delay attempt base limit =
    let delay = base * 2 ^ shift_of attempt % two_pow_64 in
    if ltb limit delay || delay == 0 || leb two_pow_63 delay then limit else delay

-- What the loop needs of the outside world: rand.Int64N, and waiting for a time or for the end of the
-- context, whose error is then returned.
pub record Clock {ℓ} (W : Type ℓ) : Type ℓ where
  pub int64n : ℕ → Io W ℕ
  pub wait : ℕ → Io W (Option GoError)

-- The two ways to leave retryRead at once, and the three ways to leave the loop of its switch.
unfoldable pub read_settled : Option ReadResult → Option GoError → Bool
unfolding is_recoverable
read_settled res (some e) = not (is_recoverable (some e) Sdk.no_code)
read_settled none none = false
read_settled (some r) none =
    if is_no_code r.error_code
    then not (is_empty r.properties)
    else not (is_recoverable none r.error_code)

unfoldable call_settled {ℓ} : {A : Type ℓ} → Option A → Option GoError → Bool
unfolding is_recoverable
call_settled v none = true
call_settled v (some e) = not (is_recoverable (some e) Sdk.no_code)

module _ {ℓ κ} {W : Type ℓ} {A : Type κ} (clock : Clock W) where
  -- rand.Int64N panics unless its argument is positive.
  unfoldable pub backoff_then : ℕ → ℕ → ℕ → (ℕ → Io W (Outcome A)) → Io W (Outcome A)
  backoff_then attempt base limit k w =
      let delay = capped_delay attempt base limit in
      let drawn = clock.int64n (delay / 4) w in
      if delay / 4 == 0 then (panicked, w) else k (delay + drawn.0) drawn.1

  -- The `select` after a delay: the end of the context, or the next round.
  unfoldable pub wait_then : Option A → ℕ → Io W (Outcome A) → Io W (Outcome A)
  wait_then last delay next w =
      let (ended, w') = clock.wait delay w in
      elim ended [ some e ↦ (returned last (some e), w') | none ↦ next w' ]

  module _ (settled : Option A → Option GoError → Bool) (b : Budget) (fn : Io W (Outcome A)) where
    -- The switch on the result of an attempt, the test for the last attempt, and the pause before
    -- the next one.
    unfoldable pub after_attempt :
        ℕ → ℕ → Io W (Outcome A) → Option A → Option GoError → Io W (Outcome A)
    after_attempt left attempt next res err w =
        let again = backoff_then attempt b.base b.limit (λ delay. wait_then res delay next) w in
        if settled res err || left == 0 then (returned res err, w) else again

    -- `for attempt := 1; attempt <= b.attempts; attempt++`, by the attempts that are left
    unfoldable pub retry_from : ℕ → ℕ → Io W (Outcome A)
    retry_from zero attempt w = (returned none none, w)
    retry_from (suc left) attempt w =
        after (fn w).0 (after_attempt left attempt (retry_from left (suc attempt))) (fn w).1

  unfoldable pub retry :
      (Option A → Option GoError → Bool) → RetryOpts → Io W (Outcome A) → Io W (Outcome A)
  unfolding retry_from with_defaults
  retry settled o fn = let b = with_defaults o in retry_from settled b fn b.attempts 1

module _ {ℓ} {W : Type ℓ} (clock : Clock W) where
  unfoldable pub retry_read : RetryOpts → Io W (Outcome ReadResult) → Io W (Outcome ReadResult)
  unfolding retry read_settled
  retry_read = retry clock read_settled

  unfoldable pub retry_callable {κ} : {A : Type κ} → RetryOpts → Io W (Outcome A) → Io W (Outcome A)
  unfolding retry call_settled
  retry_callable = retry clock call_settled
