-- ===== src/Ccx/Write.antt =====
-- CreateResource, UpdateResource and DeleteResource of pkg/ccx/client.go.
pub mod Laws
use formae_plugin_aws.Prelude.{
  Bool, true, false, ◌&&◌, Option, none, some, [], ◌++◌, if◌then◌else◌, is_some, Io, ◌⊎◌, inl, inr,
}
use formae_plugin_aws.Text.{Text, codes, ◌===◌}
use formae_plugin_aws.Go.{
  GoError, new_error, wrap_error, Outcome, returned, panicked, succeed, fail, after, deref,
  unless_error, call,
}
use formae_plugin_aws.Sdk.{
  ErrorCode, no_code, internal_failure, is_not_found, Operation, create, update, delete,
  OperationStatus, success, failure, is_cc_success, CreateRequest, UpdateRequest, DeleteRequest,
  ProgressEvent, ProgressResult,
}
use formae_plugin_aws.Status.{from_operation_status}
use formae_plugin_aws.Json.{Codec}
use formae_plugin_aws.Props.{requires_map_tags, transform_tags_to_map}
use formae_plugin_aws.Ccx.Errors.{classify_cloud_control_error}
use formae_plugin_aws.Ccx.Strip.{strip_empty_collections}
use formae_plugin_aws.Ccx.Patch.{filter_empty_add_ops, transform_secret_string_patch}
use formae_plugin_aws.Ccx.Identifier.{normalize_composite_identifier}
use formae_plugin_aws.Ccx.Cloud.{Cloud}
use formae_plugin_aws.Ccx.Read.{decode_map, map_of, with_map, populate_resource_properties}

-- aws.ToString
abbrev pub to_string : Option Text → Text
to_string none = []
to_string (some s) = s

-- The desired state that is sent: tags as a map where AWS wants it, and no empty collections.
unfoldable pub create_body : Codec → Text → Text → Text ⊎ GoError
create_body c resource_type body =
    if requires_map_tags resource_type
    then elim (decode_map c body) [
      | none ↦ inr (c.error_of body)
      | some v ↦
          inl
            (strip_empty_collections c (c.marshal (with_map v (transform_tags_to_map (map_of v)))))
    ]
    else inl (strip_empty_collections c body)

-- The result of a mutation from its progress event; a missing request token is a nil pointer.
abbrev pub event_result : Operation → Text → Text → ProgressEvent → ProgressResult
event_result op identifier token event = record {
  operation = op;
  operation_status = from_operation_status event.operation_status;
  request_id = token;
  native_id = identifier;
  status_message = to_string event.status_message;
  error_code = event.error_code;
  resource_properties = none;
}

abbrev not_supported : Text
not_supported = codes "update operations for resources with map tags are not supported"

abbrev no_identifier : Text → GoError
no_identifier resource_type =
    new_error
      (codes "create succeeded but CloudControl returned no identifier for " ++ resource_type)

abbrev unsupported_result : ProgressResult
unsupported_result = record {
  operation = update;
  operation_status = failure;
  request_id = [];
  native_id = [];
  status_message = not_supported;
  error_code = internal_failure;
  resource_properties = none;
}

module _ {ℓ} {W : Type ℓ} (c : Cloud W) where
  -- A classified error is a result, any other is returned as it is.
  unfoldable pub api_error : Operation → GoError → Outcome ProgressResult
  api_error op e = elim (classify_cloud_control_error c.matches_consistency e op) [
    | some pr ↦ succeed pr
    | none ↦ fail e
  ]

  -- The result of a create or an update; after a synchronous success the properties are read.
  unfoldable finish_mutation :
      Operation → Text → Text → ProgressEvent → Io W (Outcome ProgressResult)
  finish_mutation op identifier resource_type event = deref event.request_token (λ token w.
      let pr = event_result op identifier token event in
      let populated = populate_resource_properties c pr identifier resource_type w in
      if is_cc_success event.operation_status then populated else (succeed pr, w))

  unfoldable pub created : CreateRequest → ProgressEvent → Io W (Outcome ProgressResult)
  unfolding finish_mutation
  created request event = elim event.identifier [
    | some id ↦
        finish_mutation create (normalize_composite_identifier id) request.resource_type event
    | none ↦
        if is_cc_success event.operation_status
        then (λ w. (fail (no_identifier request.resource_type), w))
        else finish_mutation create [] request.resource_type event
  ]

  unfoldable pub create_resource : CreateRequest → Io W (Outcome ProgressResult)
  unfolding created api_error
  create_resource request w = elim (create_body c.codec request.resource_type request.properties) [
    | inr e ↦ (fail e, w)
    | inl body ↦
        call (c.create_resource request.resource_type body) (api_error create) (created request) w
  ]

  -- The patch document as it is sent: an error of the filter leaves the document as it was.
  unfoldable filtered_patch : Option Text → Option Text
  filtered_patch none = none
  filtered_patch (some doc) = elim (filter_empty_add_ops c.codec doc) [
    | none ↦ some doc
    | some filtered ↦ some filtered
  ]

  unfoldable secret_patch : Text → Option Text → Option Text ⊎ GoError
  secret_patch resource_type none = inl none
  secret_patch resource_type (some doc) =
      if resource_type === codes "AWS::SecretsManager::Secret"
      then elim (transform_secret_string_patch c.codec doc) [
        | none ↦
            inr
              (wrap_error (codes "failed to transform SecretString patch: ") (c.codec.error_of doc))
        | some transformed ↦ inl (some transformed)
      ]
      else inl (some doc)

  unfoldable updated : UpdateRequest → ProgressEvent → Io W (Outcome ProgressResult)
  unfolding finish_mutation
  updated request event =
      let identifier = elim event.identifier as (λ _. Text) [
        | none ↦ request.native_id
        | some id ↦ normalize_composite_identifier id
      ] in
      finish_mutation update identifier request.resource_type event

  -- The update itself, once the resource is known to exist.
  unfoldable pub send_update : UpdateRequest → Io W (Outcome ProgressResult)
  unfolding updated api_error filtered_patch secret_patch
  send_update request w =
      elim (secret_patch request.resource_type (filtered_patch request.patch_document)) [
        | inr e ↦ (fail e, w)
        | inl patch ↦
            call (c.update_resource request.resource_type request.native_id patch)
              (api_error update) (updated request) w
      ]

  unfoldable pub update_resource : UpdateRequest → Io W (Outcome ProgressResult)
  unfolding send_update api_error
  update_resource request w =
      let found = c.get_resource request.resource_type request.native_id w in
      after found.0
        (λ out err. unless_error err (api_error update) (
          if requires_map_tags request.resource_type && is_some request.patch_document
          then (λ w'. (returned (some unsupported_result) (some (new_error not_supported)), w'))
          else send_update request))
        found.1

  -- A resource that is already gone is deleted.
  unfoldable pub deleted : ProgressEvent → Io W (Outcome ProgressResult)
  deleted event = deref event.request_token (λ token w.
      let pr = event_result delete [] token event in
      if is_not_found event.error_code
      then (succeed (record pr { operation_status = success }), w)
      else (succeed pr, w))

  unfoldable pub delete_resource : DeleteRequest → Io W (Outcome ProgressResult)
  unfolding deleted api_error
  delete_resource request w =
      call (c.delete_resource request.resource_type request.native_id) (api_error delete) deleted w
