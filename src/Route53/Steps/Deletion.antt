-- ===== src/Route53/Steps/Deletion.antt =====
-- What a delete sends to Route 53.
use formae_plugin_aws.Prelude.{◌≡◌, inl, some, [], ◌∷◌, ◌++◌, ◌∙◌, ap}
use formae_plugin_aws.Text.{Text, codes}
use formae_plugin_aws.Go.{succeed, fail, wrap_error}
use formae_plugin_aws.Go.Laws.{call_ok}
use formae_plugin_aws.Sdk.{delete, DeleteRequest}
use formae_plugin_aws.Json.{object}
use formae_plugin_aws.Properties.{unless_bad}
use formae_plugin_aws.Route53.Client.{RecordSetsOutput, delete_change, Client, Route53}
use formae_plugin_aws.Route53.Names.{Target, native_id, parse_native_id}
use formae_plugin_aws.Route53.Metadata.{metadata_or_error, with_ttl, parse_metadata_record_set}
use formae_plugin_aws.Route53.Reading.{
  build_read_properties, find_record_set, target_input, read_result, read_target,
}
use formae_plugin_aws.Route53.Steps.{
  progress, deleted_record_set, send_changes, delete_read, record_set_delete,
}
use formae_plugin_aws.Route53.Steps.Laws.{read_before, delete_after-read}
use formae_plugin_aws.Route53.Steps.Stored.{
  named, kept, raw_in, raw_in-read_properties_of, raw_of, stored_name, stored_type, IsCanonical,
  ReadsTtl, ttl_in, metadata_of-raw_of, deleted_record_set-raw_of, parse_metadata_record_set-raw,
  deletion, deletion-raw_of, Stored,
}

module _ {ℓ} {W : Type ℓ} (r : Route53 W) (client : Client W) (request : DeleteRequest) (s : Stored)
    (zone : Text) (out : RecordSetsOutput) (w w₁ w₂ w₃ : W) where
  -- A delete of a record set that Route 53 keeps, in the form that it keeps, sends one change: the
  -- deletion of just that record set, with its alias target as it is kept, and of its values those
  -- of hostname types without their trailing dot. Its answer is that of the change, in progress. Of
  -- encoding/json it takes that the properties that the read gives are decoded field by field.
  pub record_set_delete-named :
      let target : Target = record {
        zone = zone;
        name = stored_name s ++ codes ".";
        record_type = stored_type s;
      } in
      let props =
        build_read_properties (kept s) zone (stored_name s ++ codes ".") (stored_type s) in
      IsCanonical s
      → ReadsTtl r.int64_of s
      → r.client w ≡ (succeed client, w₁)
      → r.client w₁ ≡ (succeed client, w₂)
      → parse_native_id request.native_id ≡ some target
      → client.list_record_sets (target_input target) w₂ ≡ (succeed out, w₃)
      → find_record_set target.name target.record_type out.record_sets ≡ some (kept s)
      → r.decode_metadata (r.codec.marshal (object props)) ≡ inl (raw_in props)
      → record_set_delete r request w
        ≡ send_changes client
            (codes "failed to delete record set: ")
            zone
            (delete_change (named s) ∷ [])
            (λ id. progress delete id (native_id zone (stored_name s) (stored_type s)) (some []))
            w₃
  unfolding read_target read_result delete_read
  record_set_delete-named canonical ttl built again parsed listed found decoded =
      let target : Target = record {
        zone = zone;
        name = stored_name s ++ codes ".";
        record_type = stored_type s;
      } in
      let before = read_before request in
      let body = (read_result r before target (some (kept s))).properties in
      let read : read_target r before client target w₂
          ≡ (succeed (read_result r before target (some (kept s))), w₃) =
        call_ok (client.list_record_sets (target_input target)) _ _ w₂ w₃ out listed
        ∙ ap (λ o. (succeed (read_result r before target o), w₃)) found in
      let meta = with_ttl (raw_of s zone) (ttl_in s) in
      let metadata : parse_metadata_record_set r body ≡ inl meta =
        parse_metadata_record_set-raw r body (raw_of s zone)
          (decoded ∙ ap (λ x. inl x) (raw_in-read_properties_of s zone))
        ∙ ap (metadata_or_error body) (metadata_of-raw_of r.int64_of s zone ttl) in
      delete_after-read r client request target w w₁ w₂ w₃ built again parsed (some (kept s)) read
      ∙ (ap
            (λ o.
              unless_bad o (λ e. fail (wrap_error (codes "failed to parse metadata: ") e))
                (λ m. unless_bad (deleted_record_set m) fail (deletion client m)) w₃)
            metadata
          ∙ (ap (λ o. unless_bad o fail (deletion client meta) w₃)
                (deleted_record_set-raw_of s zone canonical)
              ∙ deletion-raw_of client s zone w₃))
