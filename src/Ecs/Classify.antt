-- ===== src/Ecs/Classify.antt =====
-- pkg/cfres/ecs/classify.go: the verdict on an error, at the entry of an operation and on a poll.
pub mod Laws
use formae_plugin_aws.Prelude.{
  Bool, true, false, Option, none, some, List, [], ◌∷◌, ◌++◌, if◌then◌else◌,
}
use formae_plugin_aws.Text.{Text, codes, ◌===◌, is_empty}
use formae_plugin_aws.Go.{GoError, ApiError}
use formae_plugin_aws.Sdk.{
  ErrorCode, no_code, access_denied, general_service_exception, internal_failure,
  invalid_credentials, invalid_request, network_failure, not_found, service_internal_error,
  service_timeout, throttling, Operation, failure, ProgressResult, ReadResult,
}

-- An error code, and whether the call may be tried again.
abbrev pub Verdict : Type 0
Verdict = ErrorCode × Bool

abbrev pub verdict_table : List (Text × Verdict)
verdict_table =
    (codes "Throttling", (throttling, true))
    ∷ (codes "ThrottlingException", (throttling, true))
    ∷ (codes "RequestLimitExceeded", (throttling, true))
    ∷ (codes "TooManyRequestsException", (throttling, true))
    ∷ (codes "ServiceUnavailable", (service_internal_error, true))
    ∷ (codes "ServiceUnavailableException", (service_internal_error, true))
    ∷ (codes "InternalFailure", (service_internal_error, true))
    ∷ (codes "InternalServerError", (service_internal_error, true))
    ∷ (codes "AccessDenied", (access_denied, false))
    ∷ (codes "AccessDeniedException", (access_denied, false))
    ∷ (codes "UnauthorizedOperation", (access_denied, false))
    ∷ (codes "ExpiredToken", (invalid_credentials, false))
    ∷ (codes "InvalidClientTokenId", (invalid_credentials, false))
    ∷ (codes "InvalidSignatureException", (invalid_credentials, false))
    ∷ (codes "SignatureDoesNotMatch", (invalid_credentials, false))
    ∷ (codes "ValidationException", (invalid_request, false))
    ∷ (codes "InvalidParameterException", (invalid_request, false))
    ∷ (codes "InvalidParameterValueException", (invalid_request, false))
    ∷ (codes "InvalidInputException", (invalid_request, false))
    ∷ []

-- switch ae.ErrorCode()
unfoldable pub verdict_of : List (Text × Verdict) → Text → Option Verdict
verdict_of [] code = none
verdict_of ((name, v) ∷ table) code =
    let rest = verdict_of table code in if code === name then some v else rest

unfoldable pub api_verdict : Option ApiError → Option Verdict
api_verdict none = none
api_verdict (some ae) = verdict_of verdict_table ae.code

abbrev pub network_verdict : Option Bool → Verdict
network_verdict (some true) = (network_failure, true)
network_verdict _ = (general_service_exception, false)

abbrev or_network : Option Verdict → GoError → Verdict
or_network (some v) err = v
or_network none err = network_verdict err.net_timeout

-- `none` is nil.
unfoldable pub classify_aws_error : Option GoError → Verdict
classify_aws_error none = (no_code, false)
classify_aws_error (some err) = or_network (api_verdict err.api_error) err

unfoldable pub terminal_failure : Operation → Text → Text → ErrorCode → Text → ProgressResult
terminal_failure op native_id request_id code msg = record {
  operation = op;
  operation_status = failure;
  request_id = request_id;
  native_id = native_id;
  status_message = msg;
  error_code = code;
  resource_properties = none;
}

-- A code that may be tried again is replaced by one that the agent tries again.
abbrev pub recoverable_verdict : Verdict → ErrorCode
recoverable_verdict (throttling, true) = throttling
recoverable_verdict (network_failure, true) = network_failure
recoverable_verdict (service_internal_error, true) = service_internal_error
recoverable_verdict (code, true) = throttling
recoverable_verdict (code, false) = code

unfoldable pub classify_for_entry : GoError → Operation → Text → Text → ProgressResult
unfolding terminal_failure
classify_for_entry err op native_id context =
    terminal_failure op native_id [] (recoverable_verdict (classify_aws_error (some err)))
      (context ++ (codes ": " ++ err.message))

-- The code, whether to try again, and whether the read was good.
abbrev pub final_verdict : ErrorCode → Text → ErrorCode × Bool × Bool
final_verdict no_code properties =
    if is_empty properties then (no_code, true, false) else (no_code, false, true)
final_verdict not_found properties = (not_found, true, false)
final_verdict throttling properties = (throttling, true, false)
final_verdict service_internal_error properties = (service_internal_error, true, false)
final_verdict service_timeout properties = (service_timeout, true, false)
final_verdict network_failure properties = (network_failure, true, false)
final_verdict internal_failure properties = (internal_failure, true, false)
final_verdict access_denied properties = (access_denied, false, false)
final_verdict invalid_credentials properties = (invalid_credentials, false, false)
final_verdict invalid_request properties = (invalid_request, false, false)
final_verdict code properties = (general_service_exception, false, false)

unfoldable pub classify_read_result_for_final :
    Option ReadResult → Option GoError → ErrorCode × Bool × Bool
classify_read_result_for_final rr (some err) =
    let v = classify_aws_error (some err) in (v.0, v.1, false)
classify_read_result_for_final none none = (general_service_exception, false, false)
classify_read_result_for_final (some rr) none = final_verdict rr.error_code rr.properties
