-- ===== src/Examples/Records.antt =====
-- A hosted zone with one record set, an alias, whose changes are counted.
use formae_plugin_aws.Prelude.Int.{pos}
use formae_plugin_aws.Prelude.{
  ℕ, suc, ◌≡◌, refl, inl, inr, ◌⊎◌, Option, List, arith, none, some, ◌∷◌, [], true,
}
use formae_plugin_aws.Text.{Text, codes, ◌===◌, strip_suffix, split_n3, join}
use formae_plugin_aws.Go.{GoError, succeed, fail, new_error}
use formae_plugin_aws.Sdk.{delete, done_result, DeleteRequest, ReadRequest, no_code}
use formae_plugin_aws.Json.{Json, Fields, null, end, object, nil, cons, get, put}
use formae_plugin_aws.Properties.{text_at}
use formae_plugin_aws.CodeBuild.Ids.{split_n}
use formae_plugin_aws.Acm.Client.{DomainValidation}
use formae_plugin_aws.Acm.Reading.{validation_records}
use formae_plugin_aws.Route53.Client.{
  RecordSet, RecordSetsOutput, RawMetadata, ChangeInfo, Client, Route53, delete_change,
}
use formae_plugin_aws.Route53.Names.{Target, with_dot, native_id, parse_native_id}
use formae_plugin_aws.Route53.Reading.{
  build_read_properties, find_record_set, record_set_read, is_hostname_valued_record_type,
}
use formae_plugin_aws.Route53.Reading.Laws.{
  record_set_read-native_id, build_read_properties-validation_records,
}
use formae_plugin_aws.Route53.Steps.{progress, send_changes, record_set_delete}
use formae_plugin_aws.Route53.Steps.Laws.{record_set_delete-Missing}
use formae_plugin_aws.Route53.Steps.Stored.{Stored, alias, kept, named}
use formae_plugin_aws.Route53.Steps.Deletion.{record_set_delete-named}

abbrev a_stored : Stored
a_stored = alias (codes "a.b") (codes "A") (codes "lb.aws") (codes "Z2") true

abbrev a_listing : RecordSetsOutput
a_listing = record { record_sets = kept a_stored ∷ []; next_record_name = none }

abbrev an_info : ChangeInfo
an_info = record { is_insync = true; id = some (codes "c1") }

abbrev a_client : Client ℕ
a_client = record {
  list_record_sets = λ _ w. (succeed a_listing, w);
  change_record_sets = λ _ _ w. (succeed (some an_info), suc w);
  get_change = λ _ w. (succeed (some an_info), w);
}

-- An encoding of the properties of an alias whose target's health is evaluated, and its decoding.
abbrev alias_map : Option Json → Fields
alias_map (some (object m)) = m
alias_map _ = end

abbrev encoded : Json → Text
encoded (object m) =
    let a = alias_map (get (codes "AliasTarget") m) in
    join (codes "|") (
      text_at (codes "HostedZoneId") m
      ∷ text_at (codes "Name") m
      ∷ text_at (codes "Type") m
      ∷ text_at (codes "DNSName") a
      ∷ text_at (codes "HostedZoneId") a
      ∷ [])
encoded _ = codes "null"

abbrev decoded_parts : List Text → RawMetadata ⊎ GoError
decoded_parts (zone ∷ name ∷ t ∷ dns ∷ alias_zone ∷ []) = inl (record {
  hosted_zone_id = zone;
  name = name;
  record_type = t;
  resource_records = [];
  ttl = none;
  alias_target =
      some (record { dns_name = dns; hosted_zone_id = alias_zone; evaluate_target_health = true });
})
decoded_parts _ = inr (new_error (codes "bad"))

abbrev a_route53 : Route53 ℕ
a_route53 = record {
  client = λ w. (succeed a_client, w);
  codec = record {
    unmarshal = λ _. some null;
    marshal = encoded;
    error_of = λ _. new_error (codes "bad");
  };
  decode_metadata = λ t. decoded_parts (split_n b'|' 4 t);
  int64_of = λ _. pos 0;
}

abbrev a_deletion : DeleteRequest
a_deletion = record {
  resource_type = codes "AWS::Route53::RecordSet";
  native_id = codes "Z|a.b.|A";
  target_config = none;
}

abbrev a_target : Target
a_target = record { zone = codes "Z"; name = codes "a.b."; record_type = codes "A" }

-- A native id, and the read of it.
abbrev zone_z : Text
zone_z = codes "Z"

abbrev a_read : ReadRequest
a_read = record { resource_type = []; native_id = codes "Z|a.b.|A"; target_config = none }

record_set_read-native_id_example :
    (found : RecordSet) × ((find_record_set (codes "a.b.") (codes "A") a_listing.record_sets
        ≡ some found)
      × (record_set_read a_route53 a_read 0 ≡ (
        succeed (record {
          resource_type = codes "AWS::Route53::RecordSet";
          properties =
              a_route53.codec.marshal
                (object (build_read_properties found zone_z (codes "a.b.") (codes "A")));
          error_code = no_code;
        }),
        0,
      )))
unfolding native_id with_dot strip_suffix ◌===◌
record_set_read-native_id_example =
    record_set_read-native_id a_route53 a_client a_read (kept a_stored) zone_z (codes "a.b.")
      (codes "A") a_listing 0 0 0 refl (omega arith) (omega arith) refl refl refl (inl refl) refl
      refl

build_read_properties-validation_records_example :
    let published : RecordSet = record {
      name = some (codes "_x.b.");
      record_type = codes "CNAME";
      alias_target = none;
      resource_records = some (codes "_y.acm.") ∷ [];
      ttl = some (pos 300);
    } in
    let props = build_read_properties published zone_z (codes "_x.b.") (codes "CNAME") in
    let validation : DomainValidation = record {
      validation_method = codes "DNS";
      resource_record = some (record {
        record_type = codes "CNAME";
        name = some (codes "_x.b.");
        value = some (codes "_y.acm.");
      });
    } in
    (rec : Fields) × ((validation_records (validation ∷ []) ≡ cons (object rec) nil)
      × ((get (codes "Name") props ≡ get (codes "Name") rec)
          × ((get (codes "Type") props ≡ get (codes "Type") rec)
              × (get (codes "ResourceRecords") props ≡ get (codes "Values") rec))))
unfolding is_hostname_valued_record_type ◌===◌
build_read_properties-validation_records_example =
    build_read_properties-validation_records (codes "DNS") zone_z (codes "_x.b.") (codes "_y.acm.")
      (codes "CNAME") (some (pos 300)) refl

-- A client whose listings are throttled.
abbrev a_throttled_client : Client ℕ
a_throttled_client = record a_client {
  list_record_sets = λ _ w. (fail (new_error (codes "Throttling")), w);
}

abbrev a_throttled_route53 : Route53 ℕ
a_throttled_route53 = record a_route53 { client = λ w. (succeed a_throttled_client, w) }

record_set_delete-Missing_example :
    record_set_delete a_throttled_route53 a_deletion 0
    ≡ (succeed (done_result delete a_deletion.native_id none), 0)
unfolding parse_native_id split_n3
record_set_delete-Missing_example =
    record_set_delete-Missing a_throttled_route53 a_throttled_client a_deletion a_target 0 0 0 0
      refl refl refl (inl (none, (new_error (codes "Throttling"), refl)))

record_set_delete-named_example :
    record_set_delete a_route53 a_deletion 0
    ≡ send_changes a_client
        (codes "failed to delete record set: ")
        zone_z
        (delete_change (named a_stored) ∷ [])
        (λ id. progress delete id (native_id zone_z (codes "a.b") (codes "A")) (some []))
        0
unfolding parse_native_id find_record_set strip_suffix ◌===◌ split_n3 split_n join get
    build_read_properties put
record_set_delete-named_example =
    record_set_delete-named a_route53 a_client a_deletion a_stored zone_z a_listing 0 0 0 0
      (refl, refl) tt refl refl refl refl refl refl
