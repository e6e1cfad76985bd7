-- ===== src/Status.antt =====
-- pkg/status/status.go. A Cloud Control value that no case names gives the empty string.
use formae_plugin_aws.Sdk.{
  Operation, no_operation, create, update, delete, OperationStatus, no_status, success, failure,
  in_progress, pending, CcOperation, cc_create, cc_update, cc_delete, cc_other, CcStatus,
  cc_success, cc_failed, cc_in_progress, cc_pending, ProgressEvent,
}

abbrev pub from_operation : CcOperation → Operation
from_operation cc_create = create
from_operation cc_update = update
from_operation cc_delete = delete
from_operation cc_other = no_operation

abbrev pub from_operation_status : CcStatus → OperationStatus
from_operation_status cc_success = success
from_operation_status cc_failed = failure
from_operation_status cc_in_progress = in_progress
from_operation_status cc_pending = pending
from_operation_status _ = no_status

abbrev from_progress : ProgressEvent → Operation × OperationStatus
from_progress event = (from_operation event.operation, from_operation_status event.operation_status)
