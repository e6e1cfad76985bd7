-- ===== src/Route53/Metadata.antt =====
-- MetaDataRecordSet of record_set.go: the decoding of its TTL, which may be a string or a number, and
-- its native id. The other fields are encoding/json's.
use formae_plugin_aws.Prelude.Int.{ℤ, pos}
use formae_plugin_aws.Prelude.{Option, none, some, List, [], ◌∷◌, ◌++◌, ◌⊎◌, inl, inr}
use formae_plugin_aws.Text.{Text, codes}
use formae_plugin_aws.Text.Decimal.{parse_int}
use formae_plugin_aws.Go.{GoError, new_error, wrap_error}
use formae_plugin_aws.Json.{Json, null, bool, number, string, array, object}
use formae_plugin_aws.Route53.Client.{RawAlias, RawMetadata, Route53}
use formae_plugin_aws.Route53.Names.{native_id}

pub record Metadata : Type 0 where
  pub hosted_zone_id : Text
  pub name : Text
  pub record_type : Text
  pub resource_records : List Text
  pub ttl : ℤ
  pub alias_target : Option RawAlias

abbrev invalid_type : Text → ℤ ⊎ GoError
invalid_type type_name = inr (new_error (codes "invalid TTL type: " ++ type_name))

abbrev parsed_ttl : Text → Option ℤ → ℤ ⊎ GoError
parsed_ttl s none = inr (new_error (codes "invalid TTL string value: " ++ s))
parsed_ttl s (some n) = inl n

-- A missing TTL, JSON null and the empty string leave it 0.
unfoldable pub ttl_of : (Text → ℤ) → Option Json → ℤ ⊎ GoError
ttl_of int64_of none = inl (pos 0)
ttl_of int64_of (some null) = inl (pos 0)
ttl_of int64_of (some (string [])) = inl (pos 0)
ttl_of int64_of (some (string (c ∷ s))) = parsed_ttl (c ∷ s) (parse_int (c ∷ s))
ttl_of int64_of (some (number n)) = inl (int64_of n)
ttl_of int64_of (some (bool b)) = invalid_type (codes "bool")
ttl_of int64_of (some (array xs)) = invalid_type (codes "[]interface {}")
ttl_of int64_of (some (object m)) = invalid_type (codes "map[string]interface {}")

abbrev pub with_ttl : RawMetadata → ℤ → Metadata
with_ttl raw ttl = record {
  hosted_zone_id = raw.hosted_zone_id;
  name = raw.name;
  record_type = raw.record_type;
  resource_records = raw.resource_records;
  ttl = ttl;
  alias_target = raw.alias_target;
}

abbrev pub unmarshal_metadata : (Text → ℤ) → RawMetadata → Metadata ⊎ GoError
unmarshal_metadata int64_of raw = elim (ttl_of int64_of raw.ttl) [
  | inl ttl ↦ inl (with_ttl raw ttl)
  | inr e ↦ inr e
]

abbrev metadata_error : Text → GoError → GoError
metadata_error meta e = wrap_error (codes "failed to parse metadata: " ++ (meta ++ codes " ")) e

abbrev pub metadata_or_error : Text → Metadata ⊎ GoError → Metadata ⊎ GoError
metadata_or_error meta (inl m) = inl m
metadata_or_error meta (inr e) = inr (metadata_error meta e)

module _ {ℓ} {W : Type ℓ} (r : Route53 W) where
  unfoldable pub parse_metadata_record_set : Text → Metadata ⊎ GoError
  unfolding ttl_of
  parse_metadata_record_set meta = metadata_or_error meta (elim (r.decode_metadata meta) [
    | inl raw ↦ unmarshal_metadata r.int64_of raw
    | inr e ↦ inr e
  ])

-- MetaDataRecordSet.NativeID
abbrev pub metadata_native_id : Metadata → Text
metadata_native_id m = native_id m.hosted_zone_id m.name m.record_type
