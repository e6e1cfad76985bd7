-- ===== src/Route53/Client.antt =====
-- The data of the Route 53 SDK that record_set.go touches, and the calls that it makes. An enumeration
-- of the SDK is a string type there, and a text here.
use formae_plugin_aws.Prelude.Int.{ℤ}
use formae_plugin_aws.Prelude.{Bool, Option, List, Io}
use formae_plugin_aws.Text.{Text}
use formae_plugin_aws.Go.{GoError, Outcome}
use formae_plugin_aws.Json.{Json, Codec}
use formae_plugin_aws.Prelude.{◌⊎◌}

-- types.AliasTarget
pub record AliasTarget : Type 0 where
  pub dns_name : Option Text
  pub hosted_zone_id : Option Text
  pub evaluate_target_health : Bool

-- types.ResourceRecordSet; a resource record is its value.
pub record RecordSet : Type 0 where
  pub name : Option Text
  pub record_type : Text
  pub alias_target : Option AliasTarget
  pub resource_records : List (Option Text)
  pub ttl : Option ℤ

-- types.Change, by its action
pub data Change : Type 0 where
  create_change delete_change : RecordSet → Change

pub record RecordSetsInput : Type 0 where
  pub hosted_zone_id : Text
  pub start_record_name : Option Text
  pub start_record_type : Option Text
  pub max_items : Option ℤ

pub record RecordSetsOutput : Type 0 where
  pub record_sets : List RecordSet
  pub next_record_name : Option Text

-- types.ChangeInfo: whether its status is INSYNC, and its id.
pub record ChangeInfo : Type 0 where
  pub is_insync : Bool
  pub id : Option Text

-- The change info of an output is a pointer.
pub record Client {ℓ} (W : Type ℓ) : Type ℓ where
  pub list_record_sets : RecordSetsInput → Io W (Outcome RecordSetsOutput)
  pub change_record_sets : Text → List Change → Io W (Outcome (Option ChangeInfo))
  pub get_change : Text → Io W (Outcome (Option ChangeInfo))

-- The fields that encoding/json fills of a MetaDataRecordSet, before its own UnmarshalJSON looks at
-- the TTL.
pub record RawAlias : Type 0 where
  pub dns_name : Text
  pub hosted_zone_id : Text
  pub evaluate_target_health : Bool

pub record RawMetadata : Type 0 where
  pub hosted_zone_id : Text
  pub name : Text
  pub record_type : Text
  pub resource_records : List Text
  pub ttl : Option Json
  pub alias_target : Option RawAlias

-- What the provisioner uses: a client for its configuration, encoding/json, and the conversion of a
-- float64 to int64, with the print of an int64 as a JSON number.
pub record Route53 {ℓ} (W : Type ℓ) : Type ℓ where
  pub client : Io W (Outcome (Client W))
  pub codec : Codec
  pub decode_metadata : Text → RawMetadata ⊎ GoError
  pub int64_of : Text → ℤ
