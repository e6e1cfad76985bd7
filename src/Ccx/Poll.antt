-- ===== src/Ccx/Poll.antt =====
-- StatusResource of pkg/ccx/client.go: what a progress event means for the agent that polls. The
-- lines that only log are left out.
pub mod Laws
use formae_plugin_aws.Prelude.{
  Bool, true, false, ◌&&◌, not, [], Option, none, some, if◌then◌else◌, Io,
}
use formae_plugin_aws.Text.{Text}
use formae_plugin_aws.Go.{GoError, Outcome, panicked, succeed, fail, after, deref, call}
use formae_plugin_aws.Sdk
use formae_plugin_aws.Sdk.{
  ErrorCode, is_not_found, CcOperation, cc_create, cc_delete, OperationStatus, success, in_progress,
  is_success, StatusRequest, ReadRequest, ReadResult, ProgressEvent, ProgressResult,
}
use formae_plugin_aws.Status.{from_operation, from_operation_status}
use formae_plugin_aws.Ccx.Errors.{is_invalid_request}
use formae_plugin_aws.Ccx.Identifier.{normalize_composite_identifier}
use formae_plugin_aws.Ccx.Retry.{default_opts, retry_read}
use formae_plugin_aws.Ccx.Cloud.{Cloud}
use formae_plugin_aws.Ccx.Read.{with_read}
use formae_plugin_aws.Ccx.Write.{to_string}

abbrev pub is_not_stabilized : ErrorCode → Bool
is_not_stabilized Sdk.not_stabilized = true
is_not_stabilized _ = false

abbrev pub is_create : CcOperation → Bool
is_create cc_create = true
is_create _ = false

abbrev pub is_delete : CcOperation → Bool
is_delete cc_delete = true
is_delete _ = false

abbrev pub identifier_of : Option Text → Text
identifier_of none = []
identifier_of (some id) = normalize_composite_identifier id

module _ {ℓ} {W : Type ℓ} (c : Cloud W) where
  -- The three rules that overwrite the status, in their order.
  unfoldable pub remapped_status : ProgressEvent → OperationStatus
  remapped_status event =
      let first = from_operation_status event.operation_status in
      let second = if is_not_stabilized event.error_code then in_progress else first in
      let third =
        if is_create event.operation && is_not_found event.error_code
        then in_progress
        else second in
      if is_create event.operation
        && is_invalid_request event.error_code
        && c.matches_target_group (to_string event.status_message)
      then in_progress
      else third

  unfoldable pub status_result : StatusRequest → OperationStatus → ProgressEvent → ProgressResult
  status_result request status event = record {
    operation = from_operation event.operation;
    operation_status = status;
    request_id = request.request_id;
    native_id = identifier_of event.identifier;
    status_message = to_string event.status_message;
    error_code = event.error_code;
    resource_properties = none;
  }

  module _ (read : ReadRequest → Io W (Outcome ReadResult)) where
    -- The read after a success; a missing type name is a nil pointer.
    unfoldable pub enrich :
        StatusRequest → ProgressEvent → ProgressResult → Io W (Outcome ProgressResult)
    enrich request event pr = deref event.type_name (λ type_name w.
        let read_request : ReadRequest = record {
          resource_type = type_name;
          native_id = identifier_of event.identifier;
          target_config = request.target_config;
        } in
        let got = retry_read c.clock default_opts (read read_request) w in
        after got.0 (with_read pr) got.1)

    unfoldable pub poll : StatusRequest → ProgressEvent → Io W (Outcome ProgressResult)
    unfolding enrich status_result remapped_status
    poll request event w =
        let status = remapped_status event in
        let pr = status_result request status event in
        if is_delete event.operation && is_not_found event.error_code
        then (succeed (status_result request success event), w)
        else if is_success status && not (is_delete event.operation)
        then enrich request event pr w
        else (succeed pr, w)

    unfoldable pub status_resource : StatusRequest → Io W (Outcome ProgressResult)
    unfolding poll
    status_resource request = call (c.request_status request.request_id) fail (poll request)
