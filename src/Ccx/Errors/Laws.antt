-- ===== src/Ccx/Errors/Laws.antt =====
-- What the classification of errors guarantees.
use formae_plugin_aws.Prelude.{
  ◌≢◌, ◌≡◌, refl, Bool, true, false, some, List, [], ◌∷◌, arith, Member, ◌⊎◌,
}
use formae_plugin_aws.Text.{Text}
use formae_plugin_aws.Go.{
  CcException, already_exists, client_token_conflict, concurrent_modification, concurrent_operation,
  general_service, handler_failure, handler_internal_failure, invalid_credentials, network_failure,
  not_stabilized, not_updatable, private_type, request_token_not_found, resource_conflict,
  resource_not_found, service_internal_error, service_limit_exceeded, throttling, type_not_found,
  unsupported_action, GoError,
}
use formae_plugin_aws.Sdk
use formae_plugin_aws.Sdk.{ErrorCode, Operation, failure, ProgressResult}
use formae_plugin_aws.Ccx.Errors.{
  errors_as, first_code, classify_of_code, operation_code, exception_codes,
  handle_cloud_control_error, classify_cloud_control_error,
}

pub errors_as-Member :
    (x : CcException) (chain : List CcException) → Member x chain → errors_as x chain ≡ true
unfolding errors_as
errors_as-Member x [] h = absurd h
errors_as-Member x (e ∷ chain) h = ground (arith, errors_as-Member x chain)

-- The code that the plugin means for each exception, without the order of the switch.
abbrev code_of : CcException → ErrorCode
code_of already_exists = Sdk.already_exists
code_of general_service = Sdk.general_service_exception
code_of handler_failure = Sdk.internal_failure
code_of handler_internal_failure = Sdk.internal_failure
code_of invalid_credentials = Sdk.invalid_credentials
code_of network_failure = Sdk.network_failure
code_of not_stabilized = Sdk.not_stabilized
code_of not_updatable = Sdk.not_updatable
code_of private_type = Sdk.access_denied
code_of service_internal_error = Sdk.service_internal_error
code_of service_limit_exceeded = Sdk.service_limit_exceeded
code_of throttling = Sdk.throttling
code_of resource_not_found = Sdk.not_found
code_of request_token_not_found = Sdk.not_found
code_of type_not_found = Sdk.not_found
code_of CcException.invalid_request = Sdk.invalid_request
code_of unsupported_action = Sdk.invalid_request
code_of client_token_conflict = Sdk.resource_conflict
code_of concurrent_modification = Sdk.resource_conflict
code_of concurrent_operation = Sdk.resource_conflict
code_of resource_conflict = Sdk.resource_conflict

first_code-single : (x : CcException) → first_code exception_codes (x ∷ []) ≡ some (code_of x)
unfolding first_code errors_as
first_code-single resource_not_found = refl
first_code-single _ = refl

-- An operation error that wraps one Cloud Control exception gets that exception's code, whichever of
-- the 21 exceptions it is.
pub handle_cloud_control_error_table :
    (err : GoError) (x : CcException)
    → err.operation_error ≡ some (some (x ∷ []))
    → handle_cloud_control_error err ≡ some (code_of x)
unfolding handle_cloud_control_error
handle_cloud_control_error_table err x e = rw e (first_code-single x)

module _ (matches : Text → Bool) where
  classify-of_code :
      (err : GoError) (op : Operation) (code : ErrorCode)
      → handle_cloud_control_error err ≡ some code
      → classify_cloud_control_error matches err op ≡ classify_of_code matches err op (some code)
  unfolding classify_cloud_control_error
  classify-of_code err op code h = rw h

  -- A classified error is a failure of the operation at hand that carries the message of the error;
  -- its code is that of the exception, but for an invalid request whose message shows eventual
  -- consistency, which is turned into a resource conflict.
  classify_cloud_control_error_lem :
      (err : GoError) (op : Operation) (code : ErrorCode) (pr : ProgressResult)
      → handle_cloud_control_error err ≡ some code
      → classify_cloud_control_error matches err op ≡ some pr
      → (pr.operation ≡ op)
        × (pr.operation_status ≡ failure)
        × (pr.status_message ≡ err.message)
        × (((code ≡ Sdk.invalid_request)
              × (matches err.message ≡ true)
              × (pr.error_code ≡ Sdk.resource_conflict))
            ⊎ ((pr.error_code ≡ code)
                × ((code ≢ Sdk.invalid_request) ⊎ (matches err.message ≡ false))))
  unfolding classify_of_code operation_code
  classify_cloud_control_error_lem err op code pr h e =
      ground (arith, classify-of_code err op code h)
