-- ===== src/Route53/Steps.antt =====
-- Create, Update, Delete and Status of record_set.go, by change batches.
pub mod Laws
pub mod Stored
pub mod Deletion
use formae_plugin_aws.Prelude.Int.{ℤ, pos}
use formae_plugin_aws.Prelude.{
  Bool, true, false, not, Option, none, some, List, [], ◌∷◌, ◌++◌, if◌then◌else◌, Io, ◌⊎◌, inl, inr,
  map,
}
use formae_plugin_aws.Text.{Text, codes, ◌===◌, is_empty}
use formae_plugin_aws.Go.{
  GoError, new_error, wrap_error, Outcome, returned, panicked, succeed, fail, after, unless_error,
  deref, call,
}
use formae_plugin_aws.Sdk.{
  no_code, is_not_found, Operation, no_operation, create, update, delete, OperationStatus, success,
  in_progress, ProgressResult, done_result, CreateRequest, UpdateRequest, DeleteRequest,
  StatusRequest, ReadRequest, ReadResult,
}
use formae_plugin_aws.Json.{Json, Items, Fields, bool, string, object, end, field, get, as_object}
use formae_plugin_aws.Properties.{
  items_of, nonempty_strings, get_string_property, get_int64_property, unless_bad, decode_or,
}
use formae_plugin_aws.Route53.Client.{
  AliasTarget, RecordSet, Change, create_change, delete_change, ChangeInfo, Client, RawAlias,
  Route53,
}
use formae_plugin_aws.Route53.Names.{with_dot, native_id}
use formae_plugin_aws.Route53.Metadata.{Metadata, parse_metadata_record_set, metadata_native_id}
use formae_plugin_aws.Route53.Reading.{record_set_read}

abbrev bad : Text → {A : Type 0} → GoError → A ⊎ GoError
bad context e = inr (wrap_error context e)

-- The bool of a field, or false.
abbrev flag_of : Option Json → Bool
flag_of (some (bool b)) = b
flag_of _ = false

abbrev alias_of : Fields → Text → Text → AliasTarget
alias_of raw dns_name zone = record {
  dns_name = some (with_dot dns_name);
  hosted_zone_id = some zone;
  evaluate_target_health = flag_of (get (codes "EvaluateTargetHealth") raw);
}

abbrev alias_or_error : Fields → Text ⊎ GoError → Text ⊎ GoError → AliasTarget ⊎ GoError
alias_or_error raw (inr e) zone = bad (codes "invalid AliasTarget DNSName: ") e
alias_or_error raw (inl dns_name) (inr e) = bad (codes "invalid AliasTarget HostedZoneId: ") e
alias_or_error raw (inl dns_name) (inl zone) = inl (alias_of raw dns_name zone)

unfoldable pub build_alias_target : Fields → AliasTarget ⊎ GoError
unfolding with_dot
build_alias_target raw =
    alias_or_error raw (get_string_property raw (codes "DNSName"))
      (get_string_property raw (codes "HostedZoneId"))

abbrev some_alias : (GoError → GoError) → AliasTarget ⊎ GoError → Option AliasTarget ⊎ GoError
some_alias f (inl a) = inl (some a)
some_alias f (inr e) = inr (f e)

-- The alias target of properties that have one, which must be a map.
unfoldable alias_target_of : (GoError → GoError) → Fields → Option AliasTarget ⊎ GoError
unfolding build_alias_target
alias_target_of f properties = elim (as_object (get (codes "AliasTarget") properties)) [
  | none ↦ inl none
  | some raw ↦ some_alias f (build_alias_target raw)
]

abbrev values_or_error : Text → List Text → List Text ⊎ GoError
values_or_error msg [] = inr (new_error msg)
values_or_error msg (v ∷ vs) = inl (v ∷ vs)

-- The values, of which there must be one unless there is an alias target.
unfoldable values_of : Text → Fields → Option AliasTarget → List Text ⊎ GoError
values_of msg properties (some target) = inl []
values_of msg properties none =
    values_or_error msg (nonempty_strings (items_of (get (codes "ResourceRecords") properties)))

abbrev record_set_of : Text → Text → ℤ → Option AliasTarget → List Text → RecordSet
record_set_of name record_type ttl (some target) values = record {
  name = some name;
  record_type = record_type;
  alias_target = some target;
  resource_records = [];
  ttl = none;
}
record_set_of name record_type ttl none values = record {
  name = some name;
  record_type = record_type;
  alias_target = none;
  resource_records = map some values;
  ttl = some ttl;
}

abbrev pub progress : Operation → Text → Text → Option Text → ProgressResult
progress op request_id native_id properties = record {
  operation = op;
  operation_status = in_progress;
  request_id = request_id;
  native_id = native_id;
  status_message = [];
  error_code = no_code;
  resource_properties = properties;
}

module _ {ℓ} {W : Type ℓ} where
  -- The change is sent, and its id becomes the request id.
  unfoldable pub send_changes :
      Client W → Text → Text → List Change → (Text → ProgressResult) → Io W (Outcome ProgressResult)
  send_changes client context zone changes result =
      call (client.change_record_sets zone changes) (λ e. fail (wrap_error context e))
        (λ info. deref info (λ i. deref i.id (λ id w. (succeed (result id), w))))

abbrev config_error : {A : Type 0} → GoError → Outcome A
config_error e = fail (wrap_error (codes "unable to load AWS config: ") e)

abbrev failed : Text → {A : Type 0} → GoError → Outcome A
failed context e = fail (wrap_error context e)

abbrev same : GoError → GoError
same e = e

abbrev one_record : Text
one_record = codes "at least one valid ResourceRecord is required"

abbrev no_alias : Text → Text
no_alias which =
    one_record ++ (codes " for " ++ (which ++ codes " record when not using AliasTarget"))

-- The record set without a name and a type, of a metadata.
abbrev raw_fields : RawAlias → Fields
raw_fields a = field (codes "DNSName") (string a.dns_name) (
    field (codes "HostedZoneId") (string a.hosted_zone_id)
      (field (codes "EvaluateTargetHealth") (bool a.evaluate_target_health) end))

abbrev pub nonempty_values : List Text → List (Option Text)
nonempty_values [] = []
nonempty_values ([] ∷ vs) = nonempty_values vs
nonempty_values ((c ∷ s) ∷ vs) = some (c ∷ s) ∷ nonempty_values vs

abbrev aliased : Metadata → AliasTarget ⊎ GoError → RecordSet ⊎ GoError
aliased meta (inr e) = inr e
aliased meta (inl target) = inl (record {
  name = some (with_dot meta.name);
  record_type = meta.record_type;
  alias_target = some target;
  resource_records = [];
  ttl = none;
})

-- The record set that a delete names, of what was read.
unfoldable pub deleted_record_set : Metadata → RecordSet ⊎ GoError
deleted_record_set meta = elim meta.alias_target [
  | some a ↦ aliased meta (build_alias_target (raw_fields a))
  | none ↦ inl (record {
    name = some (with_dot meta.name);
    record_type = meta.record_type;
    alias_target = none;
    resource_records = nonempty_values meta.resource_records;
    ttl = some meta.ttl;
  })
]

-- A success, with what a read gives, once the change is in sync.
abbrev pub read_back : Option ReadResult → Option GoError → Option Text
read_back (some r) none = some r.properties
read_back _ _ = none

abbrev pub status_result :
    StatusRequest → ChangeInfo → OperationStatus → Option Text → Outcome ProgressResult
status_result request info status properties = elim info.id [
  | none ↦ panicked
  | some id ↦
      succeed (record (progress no_operation id request.native_id properties) {
        operation_status = status;
      })
]

module _ {ℓ} {W : Type ℓ} (r : Route53 W) where
  unfoldable create_in : Client W → Fields → Text → Text → Text → Io W (Outcome ProgressResult)
  unfolding alias_target_of values_of
  create_in client properties zone name record_type =
      let ttl = get_int64_property r.int64_of properties (codes "TTL") (pos 300) in
      unless_bad (alias_target_of same properties) fail (λ target.
        unless_bad (values_of one_record properties target) fail (λ values.
          send_changes client (codes "failed to create record set: ") zone
            (create_change (record_set_of name record_type ttl target values) ∷ [])
            (λ id. progress create id (native_id zone name record_type) none)))

  unfoldable record_set_create : CreateRequest → Io W (Outcome ProgressResult)
  record_set_create request = call r.client config_error (λ client.
      decode_or r.codec (codes "failed to parse properties: ") request.properties (λ properties.
        unless_bad (get_string_property properties (codes "HostedZoneId"))
          (failed (codes "invalid HostedZoneId: "))
          (λ zone.
            unless_bad (get_string_property properties (codes "Name"))
              (failed (codes "invalid Name: "))
              (λ name.
                unless_bad (get_string_property properties (codes "Type"))
                  (failed (codes "invalid Type: ")) (create_in client properties zone name)))))

  -- Both record sets, once their names and types are there.
  unfoldable replace_in :
      Client W → Fields → Fields → Text → Text → Text → Text → Text → Io W (Outcome ProgressResult)
  unfolding alias_target_of values_of
  replace_in client prior desired zone prior_name prior_type desired_name desired_type =
      let prior_ttl = get_int64_property r.int64_of prior (codes "TTL") (pos 300) in
      let desired_ttl = get_int64_property r.int64_of desired (codes "TTL") (pos 300) in
      unless_bad (alias_target_of (wrap_error (codes "prior ")) prior) fail (λ prior_target.
        unless_bad (alias_target_of (wrap_error (codes "desired ")) desired) fail (λ desired_target.
          unless_bad (values_of (no_alias (codes "prior")) prior prior_target) fail (λ prior_values.
            unless_bad (values_of (no_alias (codes "desired")) desired desired_target) fail
              (λ desired_values.
                send_changes client (codes "failed to update record set: ") zone
                  (delete_change
                      (record_set_of prior_name prior_type prior_ttl prior_target prior_values)
                    ∷ create_change (
                        record_set_of desired_name desired_type desired_ttl desired_target
                          desired_values)
                    ∷ [])
                  (λ id. progress update id (native_id zone desired_name desired_type) none)))))

  unfoldable update_in : Client W → Fields → Fields → Text → Io W (Outcome ProgressResult)
  update_in client prior desired zone =
      unless_bad (get_string_property prior (codes "Name")) (failed (codes "invalid prior Name: "))
        (λ prior_name.
          unless_bad (get_string_property prior (codes "Type"))
            (failed (codes "invalid prior Type: "))
            (λ prior_type.
              unless_bad (get_string_property desired (codes "Name"))
                (failed (codes "invalid desired Name: "))
                (λ desired_name.
                  unless_bad (get_string_property desired (codes "Type"))
                    (failed (codes "invalid desired Type: "))
                    (replace_in client prior desired zone prior_name prior_type desired_name))))

  -- A record set stays in its zone.
  unfoldable update_between :
      Client W → Fields → Fields → Text → Text → Io W (Outcome ProgressResult)
  update_between client prior desired prior_zone desired_zone w =
      if prior_zone === desired_zone
      then update_in client prior desired desired_zone w
      else (fail (new_error (codes "cannot update record between different hosted zones")), w)

  unfoldable record_set_update : UpdateRequest → Io W (Outcome ProgressResult)
  record_set_update request = call r.client config_error (λ client.
      decode_or r.codec (codes "failed to parse prior state properties: ") request.prior_properties
        (λ prior.
          decode_or r.codec (codes "failed to parse desired state properties: ")
            request.desired_properties
            (λ desired.
              unless_bad (get_string_property prior (codes "HostedZoneId"))
                (failed (codes "invalid prior HostedZoneId: "))
                (λ prior_zone.
                  unless_bad (get_string_property desired (codes "HostedZoneId"))
                    (failed (codes "invalid desired HostedZoneId: "))
                    (update_between client prior desired prior_zone)))))

  -- What was read is deleted by value; a record set that is not there is a success.
  unfoldable pub delete_read : DeleteRequest → Client W → ReadResult → Io W (Outcome ProgressResult)
  unfolding deleted_record_set
  delete_read request client read w =
      if is_not_found read.error_code
      then (succeed (done_result delete request.native_id none), w)
      else unless_bad (parse_metadata_record_set r read.properties)
          (failed (codes "failed to parse metadata: "))
          (λ meta. unless_bad (deleted_record_set meta) fail (λ rrs.
            send_changes client (codes "failed to delete record set: ") meta.hosted_zone_id
              (delete_change rrs ∷ [])
              (λ id. progress delete id (metadata_native_id meta) (some []))))
          w

  unfoldable pub record_set_delete : DeleteRequest → Io W (Outcome ProgressResult)
  record_set_delete request = call r.client config_error (λ client.
      call
        (record_set_read r
          (record { resource_type = []; native_id = request.native_id; target_config = none }))
        (failed (codes "failed to read record before delete: ")) (delete_read request client))

  unfoldable status_of_change : StatusRequest → ChangeInfo → Io W (Outcome ProgressResult)
  status_of_change request info w =
      let read =
        record_set_read r
          (record {
            resource_type = request.resource_type;
            native_id = request.native_id;
            target_config = request.target_config;
          })
          w in
      if not info.is_insync
      then (status_result request info in_progress none, w)
      else if is_empty request.native_id
      then (status_result request info success none, w)
      else after read.0 (λ res err w'. (status_result request info success (read_back res err), w'))
          read.1

  unfoldable record_set_status : StatusRequest → Io W (Outcome ProgressResult)
  record_set_status request = call r.client config_error (λ client.
      call (client.get_change request.request_id) (failed (codes "failed to get change status: "))
        (λ info. deref info (status_of_change request)))
