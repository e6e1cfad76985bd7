-- ===== src/Ecs/PhaseA.antt =====
-- checkPhaseA of pkg/cfres/ecs/phase.go: the poll of Cloud Control's own token, before the service
-- itself is looked at.
pub mod Laws
use formae_plugin_aws.Prelude.Int.{ℤ}
use formae_plugin_aws.Prelude.{
  Bool, true, false, ◌&&◌, Option, none, some, ◌++◌, if◌then◌else◌, Io, pure,
}
use formae_plugin_aws.Text.{Text, codes}
use formae_plugin_aws.Go.{GoError, Outcome, succeed, after, deref}
use formae_plugin_aws.Sdk.{
  general_service_exception, is_not_found, Operation, is_update, OperationStatus, success, failure,
  in_progress, ProgressResult, StatusRequest, ReadRequest, ReadResult,
}
use formae_plugin_aws.Ecs.Classify.{terminal_failure}
use formae_plugin_aws.Ecs.Timeout.{CcxClient, Service, in_progress_or_timeout, classify_for_status}

-- if err != nil, with a handler that reads the clock
abbrev pub handle {ℓ κ} :
    {W : Type ℓ} {B : Type κ} → Option GoError → (GoError → Io W B) → Io W B → Io W B
handle (some e) f k = f e
handle none f k = k

-- Cloud Control's failure, with the composite identity, but not NotFound on an update.
abbrev pub phase_a_failure : Operation → StatusRequest → ProgressResult → ProgressResult
phase_a_failure op request pr =
    if is_update op && is_not_found pr.error_code
    then terminal_failure op request.native_id request.request_id general_service_exception (
        codes "ECS service deleted out-of-band during Update (CCAPI reported NotFound): "
        ++ pr.status_message)
    else record pr { request_id = request.request_id; operation = op }

module _ {ℓ} {W : Type ℓ} (s : Service W) (read : ReadRequest → Io W (Outcome ReadResult)) where
  -- A result that is given back at once.
  abbrev pub stop : Io W ProgressResult → Io W (Outcome (Option ProgressResult))
  stop m w = (succeed (some (m w).0), (m w).1)

  unfoldable pub phase_a_result :
      Operation
      → StatusRequest
      → ℤ
      → ProgressResult
      → OperationStatus
      → Io W (Outcome (Option ProgressResult))
  phase_a_result op request start pr success = pure (succeed none)
  phase_a_result op request start pr in_progress =
      stop (in_progress_or_timeout s op request start pr.status_message)
  phase_a_result op request start pr failure = stop (pure (phase_a_failure op request pr))
  phase_a_result op request start pr status = stop (
      in_progress_or_timeout s op request start
        (codes "unexpected CCAPI status: " ++ s.status_text status))

  unfoldable pub phase_a_progress :
      Operation → StatusRequest → ℤ → Option ProgressResult → Io W (Outcome (Option ProgressResult))
  phase_a_progress op request start none =
      stop (in_progress_or_timeout s op request start (codes "CCAPI status returned no progress"))
  phase_a_progress op request start (some pr) =
      phase_a_result op request start pr pr.operation_status

  unfoldable pub ask_phase_a :
      StatusRequest → Operation → ℤ → Text → CcxClient W → Io W (Outcome (Option ProgressResult))
  ask_phase_a request op start token client w =
      let asked = client.status_resource (record request { request_id = token }) read w in
      after asked.0
        (λ res err.
          handle err
            (λ e. stop (classify_for_status s e op request start (codes "ccx.StatusResource")))
            (deref res (phase_a_progress op request start)))
        asked.1

  -- `some none` is the pair of nil and true: Cloud Control is done with the operation.
  unfoldable pub check_phase_a :
      StatusRequest → Operation → ℤ → Text → Io W (Outcome (Option ProgressResult))
  check_phase_a request op start token w =
      let built = s.ccx_client w in
      after built.0
        (λ client err.
          handle err
            (λ e. stop (classify_for_status s e op request start (codes "build CCAPI client")))
            (deref client (ask_phase_a request op start token)))
        built.1
