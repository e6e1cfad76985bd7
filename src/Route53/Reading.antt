-- ===== src/Route53/Reading.antt =====
-- Read and List of record_set.go, with the properties of a record set: names and hostnames lose their
-- trailing dot.
pub mod Laws
use formae_plugin_aws.Prelude.Int.{ℤ}
use formae_plugin_aws.Prelude.{
  Bool, ◌&&◌, ◌||◌, Option, none, some, List, [], ◌∷◌, ◌++◌, if◌then◌else◌, Io,
}
use formae_plugin_aws.Text.{Text, codes, ◌===◌, is_empty, trim_suffix}
use formae_plugin_aws.Text.Decimal.{format_int}
use formae_plugin_aws.Go.{
  GoError, new_error, wrap_error, Outcome, panicked, succeed, fail, after, unless_error, deref,
  call,
}
use formae_plugin_aws.Sdk.{no_code, not_found, ReadRequest, ReadResult, ListRequest, ListResult}
use formae_plugin_aws.Json.{
  Json, Items, Fields, bool, number, string, array, object, nil, cons, end, field, put,
}
use formae_plugin_aws.Maps.{lookup}
use formae_plugin_aws.Properties.{or_empty}
use formae_plugin_aws.Route53.Client.{
  AliasTarget, RecordSet, RecordSetsInput, RecordSetsOutput, Client, Route53,
}
use formae_plugin_aws.Route53.Names.{Target, native_id, parse_native_id}

unfoldable pub is_hostname_valued_record_type : Text → Bool
is_hostname_valued_record_type t =
    t === codes "CNAME"
    || (t === codes "DNAME"
        || (t === codes "NS" || (t === codes "PTR" || (t === codes "MX" || t === codes "SRV"))))

abbrev pub record_value : Bool → Option Text → Text
record_value strip_dot value =
    if strip_dot then trim_suffix (codes ".") (or_empty value) else or_empty value

abbrev pub record_items : Bool → List (Option Text) → Items
record_items strip_dot [] = nil
record_items strip_dot (v ∷ vs) =
    cons (string (record_value strip_dot v)) (record_items strip_dot vs)

abbrev alias_fields : AliasTarget → Fields
alias_fields target =
    field (codes "DNSName") (string (trim_suffix (codes ".") (or_empty target.dns_name))) (
      field (codes "HostedZoneId") (string (or_empty target.hosted_zone_id))
        (field (codes "EvaluateTargetHealth") (bool target.evaluate_target_health) end))

abbrev put_ttl : Option ℤ → Fields → Fields
put_ttl none m = m
put_ttl (some n) m = put (codes "TTL") (number (format_int n)) m

-- The alias target, or else the values and the TTL.
abbrev put_content : Option AliasTarget → Text → RecordSet → Fields → Fields
put_content (some target) record_type found m =
    put (codes "AliasTarget") (object (alias_fields target)) m
put_content none record_type found m = put_ttl found.ttl (
    put (codes "ResourceRecords")
      (array (record_items (is_hostname_valued_record_type record_type) found.resource_records)) m)

unfoldable pub build_read_properties : RecordSet → Text → Text → Text → Fields
build_read_properties found zone name record_type =
    put_content found.alias_target record_type found (
      field (codes "HostedZoneId") (string zone) (
        field (codes "Name") (string (trim_suffix (codes ".") name))
          (field (codes "Type") (string record_type) end)))

-- The first record set with the name and the type.
unfoldable pub find_record_set : Text → Text → List RecordSet → Option RecordSet
find_record_set name record_type [] = none
find_record_set name record_type (rrs ∷ rest) =
    let later = find_record_set name record_type rest in
    if or_empty rrs.name === name && rrs.record_type === record_type then some rrs else later

abbrev not_found_result : ReadRequest → ReadResult
not_found_result request = record {
  resource_type = request.resource_type;
  properties = [];
  error_code = not_found;
}

abbrev pub target_input : Target → RecordSetsInput
target_input target = record {
  hosted_zone_id = target.zone;
  start_record_name = some target.name;
  start_record_type = some target.record_type;
  max_items = none;
}

-- The native ids of the record sets; `none` is the panic on a missing name.
unfoldable record_set_ids : Text → List RecordSet → Option (List Text)
record_set_ids zone [] = some []
record_set_ids zone (rrs ∷ rest) = elim rrs.name [
  | none ↦ none
  | some name ↦ elim (record_set_ids zone rest) [
    | none ↦ none
    | some ids ↦ some (native_id zone name rrs.record_type ∷ ids)
  ]
]

unfoldable listed_record_sets : Text → RecordSetsOutput → Outcome ListResult
listed_record_sets zone out = elim (record_set_ids zone out.record_sets) [
  | none ↦ panicked
  | some ids ↦ succeed (record { native_ids = ids; next_page_token = out.next_record_name })
]

module _ {ℓ} {W : Type ℓ} (r : Route53 W) where
  unfoldable pub read_result : ReadRequest → Target → Option RecordSet → ReadResult
  read_result request target none = not_found_result request
  read_result request target (some found) = record {
    resource_type = codes "AWS::Route53::RecordSet";
    properties =
        r.codec.marshal
          (object (build_read_properties found target.zone target.name target.record_type));
    error_code = no_code;
  }

  -- An error of the listing is answered as a record set that is not there.
  unfoldable pub read_target : ReadRequest → Client W → Target → Io W (Outcome ReadResult)
  unfolding find_record_set
  read_target request client target =
      call (client.list_record_sets (target_input target)) (λ e. succeed (not_found_result request))
        (λ out w. (
          succeed (
              read_result request target
                (find_record_set target.name target.record_type out.record_sets)),
          w,
        ))

  unfoldable pub record_set_read : ReadRequest → Io W (Outcome ReadResult)
  record_set_read request =
      call r.client (λ e. fail (wrap_error (codes "unable to load AWS config: ") e))
        (λ client. elim (parse_native_id request.native_id) [
          | none ↦ λ w. (
            fail (
                new_error (
                  codes "invalid NativeID format: expected 'zoneId|name|type', got: "
                  ++ request.native_id)),
            w,
          )
          | some target ↦ read_target request client target
        ])

  unfoldable list_zone : ListRequest → Client W → Text → Io W (Outcome ListResult)
  list_zone request client zone =
      call
        (client.list_record_sets (record {
          hosted_zone_id = zone;
          start_record_name = request.page_token;
          start_record_type = none;
          max_items = some request.page_size;
        }))
        (λ e. fail (wrap_error (codes "failed to list resource record sets: ") e))
        (λ out w. (listed_record_sets zone out, w))

  unfoldable record_set_list : ListRequest → Io W (Outcome ListResult)
  record_set_list request =
      call r.client (λ e. fail (wrap_error (codes "unable to load AWS config: ") e))
        (λ client w.
          let zone = or_empty (lookup (codes "HostedZoneId") request.additional_properties) in
          if is_empty zone
          then (
            fail (
                new_error (
                  codes
                    "hostedZoneId must be provided in AdditionalProperties for listing record sets")),
            w,
          )
          else list_zone request client zone w)
