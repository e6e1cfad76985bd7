-- ===== src/Ccx/Errors.antt =====
-- pkg/helper/helper.go and pkg/ccx/errors.go: the classification of Cloud Control errors.
pub mod Laws
use formae_plugin_aws.Prelude.{
  Bool, true, false, ◌&&◌, Option, none, some, List, [], ◌∷◌, if◌then◌else◌,
}
use formae_plugin_aws.Text.{Text}
use formae_plugin_aws.Go.{
  CcException, already_exists, client_token_conflict, concurrent_modification, concurrent_operation,
  general_service, handler_failure, handler_internal_failure, invalid_credentials, network_failure,
  not_stabilized, not_updatable, private_type, request_token_not_found, resource_conflict,
  resource_not_found, service_internal_error, service_limit_exceeded, throttling, type_not_found,
  unsupported_action, GoError,
}
use formae_plugin_aws.Sdk
use formae_plugin_aws.Sdk.{ErrorCode, Operation, failure, ProgressResult}

pub CcException-discrete : Discrete CcException
CcException-discrete = hlevel

-- errors.As(underlyingErr, &x) for the exception type of x
unfoldable pub errors_as : CcException → List CcException → Bool
unfolding CcException-discrete
errors_as x [] = false
errors_as x (e ∷ chain) =
    let rest = errors_as x chain in elim (CcException-discrete x e) [ yes _ ↦ true | no _ ↦ rest ]

-- The code of each exception, in the order in which the switch asks for them.
abbrev pub exception_codes : List (CcException × ErrorCode)
exception_codes =
    (resource_not_found, Sdk.not_found)
    ∷ (already_exists, Sdk.already_exists)
    ∷ (client_token_conflict, Sdk.resource_conflict)
    ∷ (concurrent_modification, Sdk.resource_conflict)
    ∷ (concurrent_operation, Sdk.resource_conflict)
    ∷ (general_service, Sdk.general_service_exception)
    ∷ (handler_failure, Sdk.internal_failure)
    ∷ (handler_internal_failure, Sdk.internal_failure)
    ∷ (invalid_credentials, Sdk.invalid_credentials)
    ∷ (CcException.invalid_request, Sdk.invalid_request)
    ∷ (network_failure, Sdk.network_failure)
    ∷ (not_stabilized, Sdk.not_stabilized)
    ∷ (not_updatable, Sdk.not_updatable)
    ∷ (private_type, Sdk.access_denied)
    ∷ (request_token_not_found, Sdk.not_found)
    ∷ (resource_conflict, Sdk.resource_conflict)
    ∷ (service_internal_error, Sdk.service_internal_error)
    ∷ (service_limit_exceeded, Sdk.service_limit_exceeded)
    ∷ (throttling, Sdk.throttling)
    ∷ (type_not_found, Sdk.not_found)
    ∷ (unsupported_action, Sdk.invalid_request)
    ∷ []

unfoldable pub first_code : List (CcException × ErrorCode) → List CcException → Option ErrorCode
first_code [] chain = none
first_code ((x, code) ∷ cases) chain =
    let rest = first_code cases chain in if errors_as x chain then some code else rest

-- `none` is the pair of "" and false.
unfoldable pub handle_cloud_control_error : GoError → Option ErrorCode
unfolding first_code
handle_cloud_control_error err = elim err.operation_error [
  | none ↦ none
  | some none ↦ none
  | some (some chain) ↦ first_code exception_codes chain
]

abbrev pub is_invalid_request : ErrorCode → Bool
is_invalid_request Sdk.invalid_request = true
is_invalid_request _ = false

-- `matches` is the test by the regular expressions of awsEventualConsistencyPatterns.
module _ (matches : Text → Bool) where
  unfoldable pub operation_code : ErrorCode → Text → ErrorCode
  operation_code code msg =
      if is_invalid_request code && matches msg then Sdk.resource_conflict else code

  unfoldable pub classify_of_code : GoError → Operation → Option ErrorCode → Option ProgressResult
  unfolding operation_code
  classify_of_code err op none = none
  classify_of_code err op (some code) = some (record {
    operation = op;
    operation_status = failure;
    request_id = [];
    native_id = [];
    status_message = err.message;
    error_code = operation_code code err.message;
    resource_properties = none;
  })

  unfoldable pub classify_cloud_control_error : GoError → Operation → Option ProgressResult
  unfolding classify_of_code
  classify_cloud_control_error err op = classify_of_code err op (handle_cloud_control_error err)
