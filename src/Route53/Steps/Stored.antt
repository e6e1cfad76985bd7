-- ===== src/Route53/Steps/Stored.antt =====
-- Record sets as Route 53 keeps them, what is read of them, and what a delete makes of that.
use formae_plugin_aws.Prelude.Int.{ℤ, pos}
use formae_plugin_aws.Prelude.{
  ◌≡◌, refl, inl, ◌≢◌, Bool, false, Option, none, some, List, [], ◌∷◌, ◌++◌, All, map, ◌∙◌, ap, Io,
}
use formae_plugin_aws.Text.{Text, codes, ◌===◌, trim_suffix, has_suffix}
use formae_plugin_aws.Text.Decimal.{format_int}
use formae_plugin_aws.Go.{Outcome}
use formae_plugin_aws.Sdk.{delete, ProgressResult}
use formae_plugin_aws.Json.{Json, Items, Fields, bool, number, string, object, nil, cons, get, put}
use formae_plugin_aws.Properties.{text_at, items_of}
use formae_plugin_aws.Route53.Client.{
  RecordSet, delete_change, Client, RawAlias, RawMetadata, Route53,
}
use formae_plugin_aws.Route53.Names.{with_dot, native_id}
use formae_plugin_aws.Route53.Names.Laws.{with_dot-trim_suffix, trim_suffix-append}
use formae_plugin_aws.Route53.Metadata.{
  Metadata, metadata_or_error, metadata_native_id, with_ttl, ttl_of, unmarshal_metadata,
  parse_metadata_record_set,
}
use formae_plugin_aws.Route53.Reading.{
  is_hostname_valued_record_type, record_value, record_items, build_read_properties,
}
use formae_plugin_aws.Route53.Steps.{
  build_alias_target, progress, nonempty_values, deleted_record_set, send_changes,
}

-- A record set as Route 53 keeps it: an alias, or values and a TTL. Names are without the last dot.
pub data Stored : Type 0 where
  alias : Text → Text → Text → Text → Bool → Stored
  values : Text → Text → List Text → ℤ → Stored

abbrev pub stored_name : Stored → Text
stored_name (alias name t dns zone flag) = name
stored_name (values name t vs ttl) = name

abbrev pub stored_type : Stored → Text
stored_type (alias name t dns zone flag) = t
stored_type (values name t vs ttl) = t

abbrev alias_record : Text → Text → Text → Text → Bool → RecordSet
alias_record name t dns zone flag = record {
  name = some (name ++ codes ".");
  record_type = t;
  alias_target = some (record {
    dns_name = some (dns ++ codes ".");
    hosted_zone_id = some zone;
    evaluate_target_health = flag;
  });
  resource_records = [];
  ttl = none;
}

abbrev value_record : Text → Text → List Text → ℤ → RecordSet
value_record name t vs ttl = record {
  name = some (name ++ codes ".");
  record_type = t;
  alias_target = none;
  resource_records = map some vs;
  ttl = some ttl;
}

abbrev pub kept : Stored → RecordSet
kept (alias name t dns zone flag) = alias_record name t dns zone flag
kept (values name t vs ttl) = value_record name t vs ttl

-- A value as it is read.
abbrev read_value : Text → Text → Text
read_value t v = record_value (is_hostname_valued_record_type t) (some v)

-- The record set that a delete names: hostnames among the values have no trailing dot.
abbrev pub named : Stored → RecordSet
named (alias name t dns zone flag) = alias_record name t dns zone flag
named (values name t vs ttl) = value_record name t (map (read_value t) vs) ttl

-- Names with one dot at their end, and values that are not empty.
abbrev pub IsCanonical : Stored → Type 0
IsCanonical (alias name t dns zone flag) =
    (has_suffix (codes ".") name ≡ false) × (has_suffix (codes ".") dns ≡ false)
IsCanonical (values name t vs ttl) =
    (has_suffix (codes ".") name ≡ false) × All (λ v. read_value t v ≢ []) vs

-- What encoding/json decodes of a map whose fields have the types of the struct MetaDataRecordSet, by
-- the names in its tags.
abbrev texts_in : Items → List Text
texts_in nil = []
texts_in (cons (string t) items) = t ∷ texts_in items
texts_in (cons _ items) = texts_in items

abbrev flag_in : Option Json → Bool
flag_in (some (bool b)) = b
flag_in _ = false

abbrev alias_in : Option Json → Option RawAlias
alias_in (some (object m)) = some (record {
  dns_name = text_at (codes "DNSName") m;
  hosted_zone_id = text_at (codes "HostedZoneId") m;
  evaluate_target_health = flag_in (get (codes "EvaluateTargetHealth") m);
})
alias_in _ = none

abbrev pub raw_in : Fields → RawMetadata
raw_in m = record {
  hosted_zone_id = text_at (codes "HostedZoneId") m;
  name = text_at (codes "Name") m;
  record_type = text_at (codes "Type") m;
  resource_records = texts_in (items_of (get (codes "ResourceRecords") m));
  ttl = get (codes "TTL") m;
  alias_target = alias_in (get (codes "AliasTarget") m);
}

-- What a delete works on of a record set that is read.
abbrev pub raw_of : Stored → Text → RawMetadata
raw_of (alias name t dns zone flag) hosted_zone = record {
  hosted_zone_id = hosted_zone;
  name = trim_suffix (codes ".") (name ++ codes ".");
  record_type = t;
  resource_records = [];
  ttl = none;
  alias_target = some (record {
    dns_name = trim_suffix (codes ".") (dns ++ codes ".");
    hosted_zone_id = zone;
    evaluate_target_health = flag;
  });
}
raw_of (values name t vs ttl) hosted_zone = record {
  hosted_zone_id = hosted_zone;
  name = trim_suffix (codes ".") (name ++ codes ".");
  record_type = t;
  resource_records = map (read_value t) vs;
  ttl = some (number (format_int ttl));
  alias_target = none;
}

record_items-texts :
    (t : Text) (vs : List Text)
    → texts_in (record_items (is_hostname_valued_record_type t) (map some vs))
      ≡ map (read_value t) vs
record_items-texts t [] = refl
record_items-texts t (v ∷ vs) = ap (λ us. read_value t v ∷ us) (record_items-texts t vs)

abbrev pub read_properties_of : Stored → Text → Fields
read_properties_of s zone =
    build_read_properties (kept s) zone (stored_name s ++ codes ".") (stored_type s)

-- A read gives just that, under the names that the struct has.
pub raw_in-read_properties_of :
    (s : Stored) (zone : Text) → raw_in (read_properties_of s zone) ≡ raw_of s zone
unfolding build_read_properties put get ◌===◌
raw_in-read_properties_of (alias name t dns z flag) zone = refl
raw_in-read_properties_of (values name t vs ttl) zone =
    ap (λ us. record (raw_of (values name t vs ttl) zone) { resource_records = us })
      (record_items-texts t vs)

pub nonempty_values-cons :
    (u : Text) (us : List Text) → u ≢ [] → nonempty_values (u ∷ us) ≡ some u ∷ nonempty_values us
nonempty_values-cons [] us h = absurd (h refl)
nonempty_values-cons (c ∷ u) us h = refl

pub nonempty_values-map :
    (f : Text → Text) (vs : List Text)
    → All (λ v. f v ≢ []) vs
    → nonempty_values (map f vs) ≡ map some (map f vs)
nonempty_values-map f [] h = refl
nonempty_values-map f (v ∷ vs) (ne, h) =
    nonempty_values-cons (f v) (map f vs) ne
    ∙ ap (λ us. some (f v) ∷ us) (nonempty_values-map f vs h)

-- The number that is read of a TTL is the TTL.
abbrev pub ReadsTtl : (Text → ℤ) → Stored → Type 0
ReadsTtl int64_of (alias name t dns zone flag) = Unit
ReadsTtl int64_of (values name t vs ttl) = int64_of (format_int ttl) ≡ ttl

abbrev pub ttl_in : Stored → ℤ
ttl_in (alias name t dns zone flag) = pos 0
ttl_in (values name t vs ttl) = ttl

pub metadata_of-raw_of :
    (int64_of : Text → ℤ) (s : Stored) (zone : Text)
    → ReadsTtl int64_of s
    → unmarshal_metadata int64_of (raw_of s zone) ≡ inl (with_ttl (raw_of s zone) (ttl_in s))
unfolding ttl_of
metadata_of-raw_of int64_of (alias name t dns z flag) zone h = refl
metadata_of-raw_of int64_of (values name t vs ttl) zone h =
    ap (λ n. inl (with_ttl (raw_of (values name t vs ttl) zone) n)) h

abbrev named_alias : Text → Text → Text → Text → Bool → RecordSet
named_alias name dns t zone flag = record {
  name = some name;
  record_type = t;
  alias_target =
      some
        (record { dns_name = some dns; hosted_zone_id = some zone; evaluate_target_health = flag });
  resource_records = [];
  ttl = none;
}

abbrev named_values : Text → List (Option Text) → Text → ℤ → RecordSet
named_values name vs t ttl = record {
  name = some name;
  record_type = t;
  alias_target = none;
  resource_records = vs;
  ttl = some ttl;
}

pub deleted_record_set-raw_of :
    (s : Stored) (zone : Text)
    → IsCanonical s
    → deleted_record_set (with_ttl (raw_of s zone) (ttl_in s)) ≡ inl (named s)
unfolding deleted_record_set build_alias_target get ◌===◌
deleted_record_set-raw_of (alias name t dns z flag) zone (hn, hd) =
    ap (λ n. inl (named_alias n (with_dot (trim_suffix (codes ".") (dns ++ codes "."))) t z flag))
      (with_dot-trim_suffix name hn)
    ∙ ap (λ d. inl (named_alias (name ++ codes ".") d t z flag)) (with_dot-trim_suffix dns hd)
deleted_record_set-raw_of (values name t vs ttl) zone (hn, hv) =
    ap (λ n. inl (named_values n (nonempty_values (map (read_value t) vs)) t ttl))
      (with_dot-trim_suffix name hn)
    ∙ ap (λ us. inl (named_values (name ++ codes ".") us t ttl))
        (nonempty_values-map (read_value t) vs hv)

pub parse_metadata_record_set-raw {ℓ} :
    {W : Type ℓ} (r : Route53 W) (body : Text) (raw : RawMetadata)
    → r.decode_metadata body ≡ inl raw
    → parse_metadata_record_set r body ≡ metadata_or_error body (unmarshal_metadata r.int64_of raw)
unfolding parse_metadata_record_set
parse_metadata_record_set-raw r body raw e = rw (parse_metadata_record_set, e) refl

abbrev pub deletion {ℓ} :
    {W : Type ℓ} → Client W → Metadata → RecordSet → Io W (Outcome ProgressResult)
deletion client meta rrs =
    send_changes client (codes "failed to delete record set: ") meta.hosted_zone_id
      (delete_change rrs ∷ []) (λ id. progress delete id (metadata_native_id meta) (some []))

pub deletion-raw_of {ℓ} :
    {W : Type ℓ} (client : Client W) (s : Stored) (zone : Text) (w : W)
    → deletion client (with_ttl (raw_of s zone) (ttl_in s)) (named s) w
      ≡ send_changes client
          (codes "failed to delete record set: ")
          zone
          (delete_change (named s) ∷ [])
          (λ id. progress delete id (native_id zone (stored_name s) (stored_type s)) (some []))
          w
deletion-raw_of client (alias name t dns z flag) zone w =
    ap
      (λ n.
        send_changes client (codes "failed to delete record set: ") zone
          (delete_change (alias_record name t dns z flag) ∷ [])
          (λ id. progress delete id (native_id zone n t) (some [])) w)
      (trim_suffix-append name)
deletion-raw_of client (values name t vs ttl) zone w =
    ap
      (λ n.
        send_changes client (codes "failed to delete record set: ") zone
          (delete_change (named (values name t vs ttl)) ∷ [])
          (λ id. progress delete id (native_id zone n t) (some [])) w)
      (trim_suffix-append name)
