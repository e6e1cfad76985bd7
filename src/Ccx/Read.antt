-- ===== src/Ccx/Read.antt =====
-- ReadResource, populateResourceProperties and ListResources of pkg/ccx/client.go.
pub mod Laws
use formae_plugin_aws.Prelude.{Bool, Option, none, some, List, [], if◌then◌else◌, Io, ◌⊎◌, inl, inr}
use formae_plugin_aws.Text.{Text, codes, ◌===◌, is_empty}
use formae_plugin_aws.Go.{
  GoError, wrap_error, Outcome, returned, panicked, succeed, fail, after, deref, call,
}
use formae_plugin_aws.Sdk.{ErrorCode, no_code, is_no_code, ReadRequest, ReadResult, ProgressResult}
use formae_plugin_aws.Json.{Json, Fields, null, object, end, Codec}
use formae_plugin_aws.Props.{requires_map_tags, transform_tags_to_array}
use formae_plugin_aws.Ccx.Errors.{handle_cloud_control_error}
use formae_plugin_aws.Ccx.Strip.{strip_fields}
use formae_plugin_aws.Ccx.Ignored.{ignored_table, ignored_of, strip_ignored_fields}
use formae_plugin_aws.Ccx.Retry.{default_opts, retry_read, retry_callable}
use formae_plugin_aws.Ccx.Cloud.{Cloud, Description, ListInput, ListOutput}

-- json.Unmarshal into map[string]any keeps JSON null apart, as the nil map: it reads as an empty map,
-- and it is marshalled as null again.
unfoldable pub decode_map : Codec → Text → Option Json
decode_map c body = elim (c.unmarshal body) [
  | some (object m) ↦ some (object m)
  | some null ↦ some null
  | _ ↦ none
]

abbrev pub map_of : Json → Fields
map_of (object m) = m
map_of _ = end

abbrev pub with_map : Json → Fields → Json
with_map (object _) m = object m
with_map v m = v

-- TransformTagsToArray for the types that need it
unfoldable pub tags_for_state : Text → Fields → Fields
tags_for_state resource_type m =
    if requires_map_tags resource_type then transform_tags_to_array m else m

unfoldable pub strip_for_state : Text → Fields → Fields
strip_for_state resource_type m =
    if resource_type === codes "AWS::Lambda::EventInvokeConfig" then strip_fields m else m

-- From the properties as AWS returns them to the properties as formae stores them.
unfoldable pub state_properties : Codec → Text → Text → Text ⊎ GoError
unfolding decode_map
state_properties c resource_type body = elim (decode_map c body) [
  | none ↦ inr (wrap_error (codes "failed to unmarshal resource properties: ") (c.error_of body))
  | some v ↦
      let stripped =
        strip_ignored_fields (ignored_of ignored_table resource_type)
          (tags_for_state resource_type (map_of v)) in
      elim stripped.1 [
        | some e ↦ inr (wrap_error (codes "failed to strip ignored fields: ") e)
        | none ↦ inl (c.marshal (with_map v (strip_for_state resource_type stripped.0)))
      ]
]

abbrev error_result : ReadRequest → ErrorCode → ReadResult
error_result request code = record {
  resource_type = request.resource_type;
  properties = [];
  error_code = code;
}

unfoldable read_error : ReadRequest → GoError → Outcome ReadResult
read_error request e = elim (handle_cloud_control_error e) [
  | some code ↦ succeed (error_result request code)
  | none ↦ fail e
]

-- Only a read without an error and with properties is taken over.
unfoldable pub take_properties :
    ProgressResult → Option ReadResult → Option GoError → ProgressResult
take_properties pr res (some e) = pr
take_properties pr none none = pr
take_properties pr (some r) none =
    if is_no_code r.error_code
    then (if is_empty r.properties
        then pr
        else record pr { resource_properties = some r.properties })
    else pr

-- The result with what the read adds to it; errors of the read are logged and dropped.
unfoldable pub with_read {ℓ} :
    {W : Type ℓ}
    → ProgressResult
    → Option ReadResult
    → Option GoError
    → Io W (Outcome ProgressResult)
unfolding take_properties
with_read pr res err w = (succeed (take_properties pr res err), w)

module _ {ℓ} {W : Type ℓ} (c : Cloud W) where
  unfoldable read_description : ReadRequest → Description → Io W (Outcome ReadResult)
  read_description request d = deref d.properties (λ body.
      elim (state_properties c.codec request.resource_type body) [
        | inr e ↦ λ w. (fail e, w)
        | inl properties ↦ deref d.type_name (λ type_name w. (
          succeed
              (record { resource_type = type_name; properties = properties; error_code = no_code }),
          w,
        ))
      ])

  unfoldable pub read_resource : ReadRequest → Io W (Outcome ReadResult)
  unfolding read_error read_description
  read_resource request =
      call (c.get_resource request.resource_type request.native_id) (read_error request)
        (read_description request)

  unfoldable pub populate_resource_properties :
      ProgressResult → Text → Text → Io W (Outcome ProgressResult)
  unfolding with_read
  populate_resource_properties pr identifier resource_type w =
      let request : ReadRequest = record {
        resource_type = resource_type;
        native_id = identifier;
        target_config = none;
      } in
      let read = retry_read c.clock default_opts (read_resource request) w in
      after read.0 (with_read pr) read.1

  unfoldable pub list_resources : ListInput → Io W (Outcome ListOutput)
  list_resources input = retry_callable c.clock default_opts (c.list_resources input)
