-- ===== src/Sdk.antt =====
-- The data that the plugin exchanges with the formae SDK (resource.*) and with Cloud Control
-- (cctypes.*): the fields that the plugin reads or writes. Error codes are strings in both SDKs and
-- the plugin casts one to the other, so they are one type here, with a constructor for each code
-- that the plugin names, one for the empty string and one for every other string.
use formae_plugin_aws.Prelude.Int.{ℤ}
use formae_plugin_aws.Prelude.{Bool, true, false, Option, List, []}
use formae_plugin_aws.Text.{Text}

pub data ErrorCode : Type 0 where
  no_code access_denied already_exists general_service_exception : ErrorCode
  internal_failure invalid_credentials invalid_request : ErrorCode
  network_failure not_found not_stabilized not_updatable : ErrorCode
  resource_conflict service_internal_error service_limit_exceeded : ErrorCode
  service_timeout throttling : ErrorCode
  other_code : Text → ErrorCode

-- resource.Operation; `no_operation` is the empty string.
pub data Operation : Type 0 where
  no_operation create update delete check_status read list : Operation

-- resource.OperationStatus; `no_status` is the empty string.
pub data OperationStatus : Type 0 where
  no_status success failure in_progress pending : OperationStatus

-- cctypes.Operation, and cctypes.OperationStatus with its two cancelled states
pub data CcOperation : Type 0 where
  cc_create cc_update cc_delete cc_other : CcOperation

pub data CcStatus : Type 0 where
  cc_success cc_failed cc_in_progress cc_pending cc_cancel_in_progress cc_cancel_complete : CcStatus

-- resource.ProgressResult; ResourceProperties is nil or a JSON text.
pub record ProgressResult : Type 0 where
  pub operation : Operation
  pub operation_status : OperationStatus
  pub request_id : Text
  pub native_id : Text
  pub status_message : Text
  pub error_code : ErrorCode
  pub resource_properties : Option Text

pub record ReadResult : Type 0 where
  pub resource_type : Text
  pub properties : Text
  pub error_code : ErrorCode

-- cctypes.ProgressEvent; the optional fields are pointers in the SDK.
pub record ProgressEvent : Type 0 where
  pub operation : CcOperation
  pub operation_status : CcStatus
  pub identifier : Option Text
  pub request_token : Option Text
  pub status_message : Option Text
  pub type_name : Option Text
  pub error_code : ErrorCode

-- The requests of the formae SDK.
pub record CreateRequest : Type 0 where
  pub resource_type : Text
  pub properties : Text
  pub target_config : Option Text

pub record UpdateRequest : Type 0 where
  pub resource_type : Text
  pub native_id : Text
  pub prior_properties : Text
  pub desired_properties : Text
  pub patch_document : Option Text
  pub target_config : Option Text

pub record DeleteRequest : Type 0 where
  pub resource_type : Text
  pub native_id : Text
  pub target_config : Option Text

pub record ReadRequest : Type 0 where
  pub resource_type : Text
  pub native_id : Text
  pub target_config : Option Text

pub record StatusRequest : Type 0 where
  pub resource_type : Text
  pub request_id : Text
  pub native_id : Text
  pub target_config : Option Text

-- resource.ListRequest and resource.ListResult; the additional properties are a map of strings.
pub record ListRequest : Type 0 where
  pub resource_type : Text
  pub page_size : ℤ
  pub page_token : Option Text
  pub additional_properties : List (Text × Text)
  pub target_config : Option Text

pub record ListResult : Type 0 where
  pub native_ids : List Text
  pub next_page_token : Option Text

-- The Boolean tests that the code makes by `==`.
abbrev pub is_no_code : ErrorCode → Bool
is_no_code no_code = true
is_no_code _ = false

abbrev pub is_not_found : ErrorCode → Bool
is_not_found not_found = true
is_not_found _ = false

abbrev pub is_success : OperationStatus → Bool
is_success success = true
is_success _ = false

abbrev pub is_failure : OperationStatus → Bool
is_failure failure = true
is_failure _ = false

abbrev pub is_update : Operation → Bool
is_update update = true
is_update _ = false

abbrev pub is_cc_success : CcStatus → Bool
is_cc_success cc_success = true
is_cc_success _ = false

pub Operation-discrete : Discrete Operation
Operation-discrete = hlevel

-- A result with the fields that a synchronous operation sets.
abbrev pub done_result : Operation → Text → Option Text → ProgressResult
done_result op native_id properties = record {
  operation = op;
  operation_status = success;
  request_id = [];
  native_id = native_id;
  status_message = [];
  error_code = no_code;
  resource_properties = properties;
}
