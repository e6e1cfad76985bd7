-- ===== src/Ecs/Steps.antt =====
-- Create, Update and Status of pkg/cfres/ecs/service.go, with the shape gate and the names of
-- parse.go. The fields of the decoded structs are looked up by their exact names.
pub mod Laws
use formae_plugin_aws.Prelude.{
  Bool, true, false, ◌&&◌, ◌||◌, Option, none, some, [], ◌++◌, if◌then◌else◌, Io, ◌⊎◌, inl, inr,
}
use formae_plugin_aws.Text.{Text, codes, ◌===◌, is_empty, has_prefix, cut_last}
use formae_plugin_aws.Go.{
  GoError, new_error, wrap_error, Outcome, returned, panicked, succeed, fail, after, deref,
  unless_error,
}
use formae_plugin_aws.Sdk.{
  invalid_request, general_service_exception, is_not_found, is_failure, Operation, create, update,
  ProgressResult, CreateRequest, UpdateRequest, StatusRequest,
}
use formae_plugin_aws.Json.{Json, Fields, null, string, object, end, get, Codec}
use formae_plugin_aws.Ecs.Names.{Names, Composite, parse_composite, parse_cluster_and_service}
use formae_plugin_aws.Ecs.Classify.{terminal_failure, classify_for_entry}
use formae_plugin_aws.Ecs.Timeout.{CcxClient, Service}
use formae_plugin_aws.Ecs.Wrap.{wrap_for_create, wrap_for_update}
use formae_plugin_aws.Ecs.PhaseA.{check_phase_a, handle}
use formae_plugin_aws.Ecs.Reading.{service_read}
use formae_plugin_aws.Ecs.PhaseB.{status_phase_b}

-- A string field of a struct: missing or null leaves it empty, another type is an error.
abbrev string_field : Option Json → Option Text
string_field none = some []
string_field (some null) = some []
string_field (some (string s)) = some s
string_field (some _) = none

-- A struct: null leaves it as it is, another type than an object is an error.
abbrev struct_of : Option Json → Option Fields
struct_of (some null) = some end
struct_of (some (object m)) = some m
struct_of _ = none

-- A pointer to a struct with the field Type, by that field; nil is as an empty one.
abbrev controller_type : Option Json → Option Text
controller_type none = some []
controller_type (some null) = some []
controller_type (some (object m)) = string_field (get (codes "Type") m)
controller_type (some _) = none

-- Empty, or the one value that is supported.
abbrev supported : Text → Option Text → Bool
supported value none = false
supported value (some s) = is_empty s || (s === value)

unfoldable shape_supports_phase_b : Codec → Text → Bool
shape_supports_phase_b c props =
    if is_empty props then false else elim (struct_of (c.unmarshal props)) [
      | none ↦ false
      | some m ↦
          supported (codes "ECS") (controller_type (get (codes "DeploymentController") m))
          && supported (codes "REPLICA") (string_field (get (codes "SchedulingStrategy") m))
    ]

-- The name behind the last slash of an ARN, and "default" for none.
abbrev short_cluster : Text → Text
short_cluster cluster =
    let short : Text = elim (cut_last b'/' cluster) [ none ↦ cluster | some (_, name) ↦ name ] in
    let name = if has_prefix (codes "arn:") cluster then short else cluster in
    if is_empty name then codes "default" else name

abbrev create_names : Text → Option Text → Option Text → Names ⊎ GoError → Names ⊎ GoError
create_names missing (some cluster) (some service) bad =
    if is_empty service
    then inr (new_error missing)
    else inl (record { cluster = short_cluster cluster; service = service })
create_names missing _ _ bad = bad

unfoldable parse_create_cluster_and_service : Codec → Text → Names ⊎ GoError
parse_create_cluster_and_service c props =
    let bad = inr (wrap_error (codes "parse Create properties: ") (c.error_of props)) in
    elim (struct_of (c.unmarshal props)) as (λ _. Names ⊎ GoError) [
      | none ↦ bad
      | some m ↦
          create_names
            (codes
              "AWS::ECS::Service.ServiceName is required for Phase B tracking (REPLICA + ECS controller); auto-generated names are not supported in v1")
            (string_field (get (codes "Cluster") m)) (string_field (get (codes "ServiceName") m))
            bad
    ]

module _ {ℓ} {W : Type ℓ} (s : Service W) where
  abbrev result : Io W ProgressResult → Io W (Outcome (Option ProgressResult))
  result m w = (succeed (some (m w).0), (m w).1)

  abbrev entry_error : Operation → Text → Text → GoError → Io W (Outcome (Option ProgressResult))
  entry_error op native_id context e w =
      (succeed (some (classify_for_entry e op native_id context)), w)

  -- The rest of Create, for the names if phase B is used.
  unfoldable send_create :
      CreateRequest → Option Names → CcxClient W → Io W (Outcome (Option ProgressResult))
  send_create request names client w =
      let sent = client.create_resource request w in
      after sent.0
        (λ res err. handle err (entry_error create [] (codes "ccx.CreateResource")) (
          deref res (λ pr. elim names [
            | none ↦ λ w'. (succeed pr, w')
            | some n ↦ λ w'.
                let wrapped = wrap_for_create s n.cluster n.service pr w' in
                (succeed wrapped.0, wrapped.1)
          ])))
        sent.1

  unfoldable build_create : CreateRequest → Option Names → Io W (Outcome (Option ProgressResult))
  build_create request names w =
      let built = s.ccx_client w in
      after built.0
        (λ client err.
          handle err (entry_error create [] (codes "build CCAPI client"))
            (deref client (send_create request names)))
        built.1

  unfoldable service_create : CreateRequest → Io W (Outcome (Option ProgressResult))
  service_create request w =
      if shape_supports_phase_b s.codec request.properties
      then elim (parse_create_cluster_and_service s.codec request.properties) [
        | inr e ↦ (succeed (some (terminal_failure create [] [] invalid_request e.message)), w)
        | inl names ↦ build_create request (some names) w
      ]
      else build_create request none w

  -- A NotFound of the lookup before an update is swapped for a code that is not tried again.
  unfoldable pub updated_result :
      UpdateRequest → Bool → Option ProgressResult → Io W (Outcome (Option ProgressResult))
  updated_result request uses_phase_b none w = (succeed none, w)
  updated_result request uses_phase_b (some pr) w =
      let wrapped = wrap_for_update s request.native_id (some pr) w in
      if is_failure pr.operation_status && is_not_found pr.error_code
      then (
        succeed (
            some (
              terminal_failure update request.native_id [] general_service_exception (
                codes
                  "ECS service deleted out-of-band before Update could fire (CCAPI preflight NotFound): "
                ++ pr.status_message))),
        w,
      )
      else if uses_phase_b
      then (succeed wrapped.0, wrapped.1)
      else (succeed (some pr), w)

  unfoldable pub send_update :
      UpdateRequest → Bool → CcxClient W → Io W (Outcome (Option ProgressResult))
  send_update request uses_phase_b client w =
      let sent = client.update_resource request w in
      after sent.0
        (λ res err.
          handle err (entry_error update request.native_id (codes "ccx.UpdateResource"))
            (deref res (updated_result request uses_phase_b)))
        sent.1

  unfoldable build_update : UpdateRequest → Bool → Io W (Outcome (Option ProgressResult))
  build_update request uses_phase_b w =
      let built = s.ccx_client w in
      after built.0
        (λ client err.
          handle err (entry_error update request.native_id (codes "build CCAPI client"))
            (deref client (send_update request uses_phase_b)))
        built.1

  unfoldable service_update : UpdateRequest → Io W (Outcome (Option ProgressResult))
  service_update request w =
      if shape_supports_phase_b s.codec request.prior_properties
      then elim (parse_cluster_and_service request.native_id) [
        | none ↦ (
          succeed (
              some (
                terminal_failure update request.native_id [] invalid_request
                  (codes "malformed Update NativeID: " ++ s.quote request.native_id))),
          w,
        )
        | some _ ↦ build_update request true w
      ]
      else build_update request false w

  unfoldable pub delegate_raw_status : StatusRequest → Io W (Outcome (Option ProgressResult))
  delegate_raw_status request w =
      let built = s.ccx_client w in
      after built.0
        (λ client err.
          unless_error err fail (deref client (λ c. c.status_resource request (service_read s))))
        built.1

  abbrev some_result : Outcome ProgressResult → Outcome (Option ProgressResult)
  some_result (returned none e) = returned none e
  some_result (returned (some pr) e) = returned (some (some pr)) e
  some_result panicked = panicked

  abbrev next_phase :
      Option ProgressResult → Io W (Outcome ProgressResult) → Io W (Outcome (Option ProgressResult))
  next_phase (some pr) phase_b w = (succeed (some pr), w)
  next_phase none phase_b w = (some_result (phase_b w).0, (phase_b w).1)

  unfoldable pub track : StatusRequest → Composite → Names → Io W (Outcome (Option ProgressResult))
  track request composite names w =
      let op = composite.op in
      let start = composite.unix_start in
      let first = check_phase_a s (service_read s) request op start composite.ccapi_token w in
      after first.0
        (λ out err.
          deref out
            (λ pr. next_phase pr (status_phase_b s request op start names.cluster names.service)))
        first.1

  unfoldable pub service_status : StatusRequest → Io W (Outcome (Option ProgressResult))
  service_status request w = elim (parse_composite request.request_id) [
    | none ↦ delegate_raw_status request w
    | some composite ↦ elim (parse_cluster_and_service request.native_id) [
      | none ↦ (
        succeed (
            some (
              terminal_failure composite.op request.native_id request.request_id invalid_request
                (codes "malformed NativeID: " ++ request.native_id))),
        w,
      )
      | some names ↦ track request composite names w
    ]
  ]
