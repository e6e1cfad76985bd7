-- ===== src/Plugin.antt =====
-- aws.go: the plugin gives an operation to the provisioner that is registered for its resource type,
-- or to Cloud Control. Building a client, and with it the reading of the target configuration, is a
-- parameter.
pub mod Filter
pub mod Laws
use formae_plugin_aws.Prelude.{
  Bool, true, false, ◌&&◌, not, Option, none, some, List, [], ◌∷◌, if◌then◌else◌, is_some, Io, pure,
}
use formae_plugin_aws.Text.{Text, ◌===◌, is_empty}
use formae_plugin_aws.Go.{GoError, Outcome, returned, panicked, succeed, fail, after, deref, call}
use formae_plugin_aws.Sdk.{
  ErrorCode, not_found, is_not_found, Operation, create, update, delete, check_status, read, list,
  ProgressResult, ReadResult, CreateRequest, UpdateRequest, DeleteRequest, ReadRequest,
  StatusRequest, ListRequest, ListResult,
}
use formae_plugin_aws.Json
use formae_plugin_aws.Json.{Json, Fields, end, field, object, null, string, Codec}
use formae_plugin_aws.Registry.{Registry, get, has_provisioner}
use formae_plugin_aws.Ccx.Errors.{handle_cloud_control_error}
use formae_plugin_aws.Ccx.Cloud.{Cloud, Listed, ListInput, ListOutput}
use formae_plugin_aws.Ccx.Read.{decode_map, map_of, read_resource, list_resources}
use formae_plugin_aws.Ccx.Write.{create_resource, update_resource, delete_resource}
use formae_plugin_aws.Ccx.Poll.{status_resource}

-- prov.Provisioner
pub record Provisioner {ℓ} (W : Type ℓ) : Type ℓ where
  pub create : CreateRequest → Io W (Outcome ProgressResult)
  pub update : UpdateRequest → Io W (Outcome ProgressResult)
  pub delete : DeleteRequest → Io W (Outcome ProgressResult)
  pub status : StatusRequest → Io W (Outcome ProgressResult)
  pub read : ReadRequest → Io W (Outcome ReadResult)
  pub list : ListRequest → Io W (Outcome ListResult)

-- A property as a string: JSON null leaves the Go string empty, any other type is an error.
abbrev as_filter_value : Json → Option Text
as_filter_value (string s) = some s
as_filter_value null = some []
as_filter_value _ = none

-- Whether a value that is there, as a string, is another one.
abbrev pub differs : Option Json → Text → Bool
differs none value = false
differs (some v) value = elim (as_filter_value v) [ none ↦ false | some s ↦ not (s === value) ]

unfoldable pub matches_fields : Fields → List (Text × Text) → Bool
matches_fields props [] = true
matches_fields props ((key, value) ∷ filter) =
    let rest = matches_fields props filter in
    if differs (Json.get key props) value then false else rest

unfoldable pub matches_filter : Codec → Text → List (Text × Text) → Bool
matches_filter c properties filter = elim (decode_map c properties) [
  | none ↦ true
  | some v ↦ matches_fields (map_of v) filter
]

-- The test by which the loop of List skips a description.
unfoldable pub skipped : Codec → List (Text × Text) → Listed → Bool
skipped c [] d = false
skipped c (entry ∷ filter) d = elim d.properties [
  | none ↦ false
  | some properties ↦ not (matches_filter c properties (entry ∷ filter))
]

-- `none` is the panic on a missing identifier.
unfoldable pub native_ids : Codec → List (Text × Text) → List Listed → Option (List Text)
native_ids c filter [] = some []
native_ids c filter (d ∷ ds) =
    let rest = native_ids c filter ds in
    if skipped c filter d then rest else elim d.identifier [
      | none ↦ none
      | some id ↦ elim rest [ none ↦ none | some ids ↦ some (id ∷ ids) ]
    ]

abbrev filter_fields : List (Text × Text) → Fields
filter_fields [] = end
filter_fields ((key, value) ∷ filter) = field key (string value) (filter_fields filter)

abbrev pub resource_model : Codec → List (Text × Text) → Option Text
resource_model c [] = none
resource_model c (entry ∷ filter) = some (c.marshal (object (filter_fields (entry ∷ filter))))

abbrev no_resources : ListResult
no_resources = record { native_ids = []; next_page_token = none }

-- A parent that does not exist has no resources.
unfoldable list_error : GoError → Outcome ListResult
list_error e = elim (handle_cloud_control_error e) [
  | some code ↦ if is_not_found code then succeed no_resources else fail e
  | none ↦ fail e
]

unfoldable list_result : Codec → List (Text × Text) → ListOutput → Outcome ListResult
list_result c filter out = elim (native_ids c filter out.descriptions) [
  | none ↦ panicked
  | some ids ↦ succeed (record { native_ids = ids; next_page_token = out.next_token })
]

abbrev list_input : Codec → ListRequest → ListInput
list_input c request = record {
  type_name = some request.resource_type;
  max_results = some request.page_size;
  next_token = request.page_token;
  resource_model = resource_model c request.additional_properties;
}

abbrev pub Factory {ℓ} : Type ℓ → Type ℓ
Factory W = Option Text → Provisioner W

module _ {ℓ} {W : Type ℓ} (registry : Registry (Factory W))
    (new_client : Option Text → Io W (Outcome (Cloud W))) where
  -- The provisioner of the type and the operation, if there is one, else a new client.
  unfoldable pub dispatch :
      {B : Type 0}
      → Text
      → Operation
      → Option Text
      → (Provisioner W → Io W (Outcome B))
      → (Cloud W → Io W (Outcome B))
      → Io W (Outcome B)
  dispatch resource_type op config run generic =
      if has_provisioner resource_type op registry
      then deref (get resource_type op registry) (λ factory. run (factory config))
      else call (new_client config) fail generic

  unfoldable plugin_create : CreateRequest → Io W (Outcome ProgressResult)
  plugin_create request =
      dispatch request.resource_type create request.target_config (λ p. p.create request)
        (λ c. create_resource c request)

  unfoldable plugin_update : UpdateRequest → Io W (Outcome ProgressResult)
  plugin_update request =
      dispatch request.resource_type update request.target_config (λ p. p.update request)
        (λ c. update_resource c request)

  unfoldable plugin_delete : DeleteRequest → Io W (Outcome ProgressResult)
  plugin_delete request =
      dispatch request.resource_type delete request.target_config (λ p. p.delete request)
        (λ c. delete_resource c request)

  unfoldable plugin_read : ReadRequest → Io W (Outcome ReadResult)
  plugin_read request =
      dispatch request.resource_type read request.target_config (λ p. p.read request)
        (λ c. read_resource c request)

  -- A request without a resource type goes to Cloud Control.
  unfoldable plugin_status : StatusRequest → Io W (Outcome ProgressResult)
  unfolding plugin_read
  plugin_status request =
      if is_empty request.resource_type
      then call (new_client request.target_config) fail (λ c. status_resource c plugin_read request)
      else dispatch request.resource_type check_status request.target_config (λ p. p.status request)
          (λ c. status_resource c plugin_read request)

  unfoldable generic_list : ListRequest → Cloud W → Io W (Outcome ListResult)
  generic_list request c =
      call (list_resources c (list_input c.codec request)) list_error
        (λ out. pure (list_result c.codec request.additional_properties out))

  unfoldable plugin_list : ListRequest → Io W (Outcome ListResult)
  unfolding generic_list
  plugin_list request =
      dispatch request.resource_type list request.target_config (λ p. p.list request)
        (generic_list request)
