-- ===== src/Ecs/Endpoints/Retries.antt =====
-- isTransient and withRetries of endpoints.go.
pub mod Laws
pub mod Answers
use formae_plugin_aws.Prelude.{
  ℕ, zero, suc, Bool, true, false, not, ◌||◌, Option, none, some, List, [], ◌∷◌, if◌then◌else◌, ltb,
  Io,
}
use formae_plugin_aws.Text.{Text, codes, ◌===◌}
use formae_plugin_aws.Go.{GoError, ApiError, Outcome, returned, panicked, after}

unfoldable pub one_of : List Text → Text → Bool
one_of [] s = false
one_of (t ∷ ts) s = t === s || one_of ts s

abbrev pub transient_codes : List Text
transient_codes =
    codes "Throttling"
    ∷ codes "ThrottlingException"
    ∷ codes "RequestLimitExceeded"
    ∷ codes "TooManyRequests"
    ∷ codes "InternalFailure"
    ∷ codes "ServiceUnavailable"
    ∷ []

abbrev pub permanent_codes : List Text
permanent_codes =
    codes "AccessDenied"
    ∷ codes "AccessDeniedException"
    ∷ codes "UnauthorizedOperation"
    ∷ codes "InvalidParameter"
    ∷ codes "InvalidParameterValue"
    ∷ codes "ValidationException"
    ∷ codes "TargetGroupNotFound"
    ∷ codes "LoadBalancerNotFound"
    ∷ codes "ListenerNotFound"
    ∷ []

-- The test of the fault and the fall through to the end of the function give the same answer.
unfoldable pub api_transient : ApiError → Bool
api_transient ae =
    if one_of transient_codes ae.code
    then true
    else if one_of permanent_codes ae.code
    then false
    else if ae.fault_server
    then true
    else true

unfoldable pub is_transient : GoError → Bool
is_transient err = elim err.api_error [ none ↦ true | some ae ↦ api_transient ae ]

-- backoffs[attempt], in nanoseconds
abbrev pub backoff : ℕ → ℕ
backoff zero = 500000000
backoff (suc zero) = 1000000000
backoff (suc (suc n)) = 2000000000

-- The error of a context that ended in a pause, or the next attempt.
abbrev pub unless_ended {ℓ κ} :
    {W : Type ℓ} {A : Type κ} → Option GoError → Io W (Outcome A) → Io W (Outcome A)
unless_ended (some e) k w = (returned none (some e), w)
unless_ended none k w = k w

module _ {ℓ κ} {W : Type ℓ} {A : Type κ} (pause : ℕ → Io W (Option GoError))
    (fn : Io W (Outcome A)) where
  -- After an attempt: its result, an error that is not worth another try, the last error, or a pause.
  unfoldable pub after_try : ℕ → Io W (Outcome A) → Option A → Option GoError → Io W (Outcome A)
  after_try attempt next out none w = (returned out none, w)
  after_try attempt next out (some e) w =
      let paused = pause (backoff attempt) w in
      let continued = unless_ended paused.0 next paused.1 in
      if not (is_transient e)
      then (returned none (some e), w)
      else if ltb attempt 2
      then continued
      else next w

  -- `for attempt := 0; attempt < 3; attempt++`, by the attempts that are left; `last` is lastErr.
  unfoldable pub try_from : ℕ → ℕ → Option GoError → Io W (Outcome A)
  try_from zero attempt last w = (returned none last, w)
  try_from (suc left) attempt last w =
      after (fn w).0 (λ out err. after_try attempt (try_from left (suc attempt) err) out err)
        (fn w).1

  unfoldable pub with_retries : Io W (Outcome A)
  unfolding try_from
  with_retries = try_from 3 0 none
