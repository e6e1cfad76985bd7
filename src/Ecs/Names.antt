-- ===== src/Ecs/Names.antt =====
-- pkg/cfres/ecs/parse.go: the composite request id and the native id; parseEcsArn of service.go.
pub mod RoundTrip
use formae_plugin_aws.Prelude.Int.{ℤ}
use formae_plugin_aws.Prelude.{
  Bool, true, false, ◌&&◌, ◌||◌, not, Option, none, some, List, [], ◌∷◌, ◌++◌, if◌then◌else◌,
}
use formae_plugin_aws.Text.{
  Text, codes, ◌===◌, is_empty, strip_prefix, has_prefix, split, split_n3, cut_last,
}
use formae_plugin_aws.Text.Decimal.{parse_int, format_int}
use formae_plugin_aws.Sdk.{Operation, create, update}

abbrev pub phase_b_prefix : Text
phase_b_prefix = codes "formae-ecs/"

abbrev pub op_seg_create : Text
op_seg_create = codes "create"

abbrev pub op_seg_update : Text
op_seg_update = codes "update"

-- The result of parseComposite where it is ok.
pub record Composite : Type 0 where
  pub op : Operation
  pub unix_start : ℤ
  pub ccapi_token : Text

unfoldable pub segment_operation : Text → Option Operation
segment_operation seg =
    if seg === op_seg_create
    then some create
    else if seg === op_seg_update
    then some update
    else none

abbrev with_start : Operation → Text → Option ℤ → Option Composite
with_start op token none = none
with_start op token (some t) = some (record { op = op; unix_start = t; ccapi_token = token })

abbrev with_operation : Text → Text → Option Operation → Option Composite
with_operation unix token none = none
with_operation unix token (some op) = with_start op token (parse_int unix)

abbrev composite_of_parts : List Text → Option Composite
composite_of_parts (seg ∷ unix ∷ token ∷ []) = with_operation unix token (segment_operation seg)
composite_of_parts _ = none

unfoldable pub parse_composite : Text → Option Composite
parse_composite s = elim (strip_prefix phase_b_prefix s) [
  | none ↦ none
  | some rest ↦ composite_of_parts (split_n3 b'/' rest)
]

unfoldable pub compose_request_id : Text → ℤ → Text → Text
compose_request_id op_seg unix_start ccapi_token =
    phase_b_prefix ++ (op_seg ++ b'/' ∷ (format_int unix_start ++ b'/' ∷ ccapi_token))

-- The cluster and the service of a native id.
pub record Names : Type 0 where
  pub cluster : Text
  pub service : Text

unfoldable pub nonempty_names : Text → Text → Option Names
nonempty_names cluster service =
    if is_empty cluster || is_empty service
    then none
    else some (record { cluster = cluster; service = service })

abbrev pending_names : List Text → Option Names
pending_names (_ ∷ cluster ∷ service ∷ []) = nonempty_names cluster service
pending_names _ = none

-- The text behind the last separator must not be empty.
unfoldable pub canonical_names : Text → Option Names
canonical_names native_id = elim (cut_last b'|' native_id) [
  | none ↦ none
  | some (service_arn, cluster) ↦ elim (cut_last b'/' service_arn) [
    | none ↦ none
    | some (_, service) ↦ nonempty_names cluster service
  ]
]

unfoldable pub parse_cluster_and_service : Text → Option Names
unfolding nonempty_names canonical_names
parse_cluster_and_service native_id =
    if is_empty native_id
    then none
    else if has_prefix (codes "pending|") native_id
    then pending_names (split_n3 b'|' native_id)
    else canonical_names native_id

unfoldable pub pending_native_id : Text → Text → Text
pending_native_id cluster service = codes "pending|" ++ (cluster ++ b'|' ∷ service)

unfoldable pub build_canonical_native_id : Text → Text → Text
build_canonical_native_id service_arn cluster_short_name = service_arn ++ b'|' ∷ cluster_short_name

-- The result of parseEcsArn where it is ok.
pub record ArnParts : Type 0 where
  pub partition : Text
  pub region : Text
  pub account : Text

abbrev arn_parts : List Text → Option ArnParts
arn_parts (_ ∷ partition ∷ service ∷ region ∷ account ∷ _ ∷ _) =
    if service === codes "ecs"
    then some (record { partition = partition; region = region; account = account })
    else none
arn_parts _ = none

unfoldable pub parse_ecs_arn : Text → Option ArnParts
parse_ecs_arn arn = if has_prefix (codes "arn:") arn then arn_parts (split b':' arn) else none
