-- ===== src/Examples/Codecs.antt =====
-- Texts, patches and properties.
use formae_plugin_aws.Prelude.{
  ◌≡◌, refl, none, some, [], ◌∷◌, arith, if◌then◌else◌, ltb, ◌*◌, ◌^◌, ◌-◌,
}
use formae_plugin_aws.Text.{Text, codes, ◌===◌}
use formae_plugin_aws.Prelude.Int.{negsuc}
use formae_plugin_aws.Text.Decimal.{parse_int, format_int}
use formae_plugin_aws.Go.{GoError, throttling, new_error}
use formae_plugin_aws.Sdk
use formae_plugin_aws.Sdk.{ProgressResult, create, update, failure, Operation, list, delete, read}
use formae_plugin_aws.Json.{
  Json, Items, Fields, null, string, array, object, nil, cons, end, field, Codec, get,
}
use formae_plugin_aws.Props.{transform_tags_to_array, transform_tags_to_map}
use formae_plugin_aws.Props.Laws.{transform_tags_round_trip, or_else, string_at}
use formae_plugin_aws.Ccx.Errors.{handle_cloud_control_error}
use formae_plugin_aws.Ccx.Errors.Laws.{handle_cloud_control_error_table}
use formae_plugin_aws.Ccx.Strip.{strip_fields}
use formae_plugin_aws.Ccx.Strip.Clean.{CleanFields, strip_fields-IsClean}
use formae_plugin_aws.Ccx.Patch.{filter_ops}
use formae_plugin_aws.Ccx.Patch.Laws.{filter_ops-RealOps, RealOps}
use formae_plugin_aws.Ccx.Retry.{capped_delay}
use formae_plugin_aws.Ccx.Retry.Backoff.{capped_delay_exact}

-- A property map with an array and a map that are empty, the map only after stripping.
abbrev hollow : Fields
hollow = field (codes "Tags") (array nil) (
    field (codes "Inner") (object (field (codes "List") (array nil) end))
      (field (codes "Name") (string (codes "n")) end))

strip_fields-IsClean_example : CleanFields (strip_fields hollow)
strip_fields-IsClean_example = strip_fields-IsClean hollow

-- A patch that adds the hollow map, and one that replaces a secret.
abbrev patch : Json → Text → Text → Fields
patch v op path =
    field (codes "op") (string op)
      (field (codes "path") (string path) (field (codes "value") v end))

abbrev two_ops : Items
two_ops =
    cons (object (patch (object hollow) (codes "add") (codes "/A")))
      (cons (object (patch (string (codes "s")) (codes "replace") (codes "/SecretString"))) nil)

filter_ops-RealOps_example : RealOps (filter_ops two_ops)
filter_ops-RealOps_example = filter_ops-RealOps two_ops

capped_delay_exact_example :
    capped_delay 3 1000000000 30000000000
    ≡ (if ltb 30000000000 (1000000000 * 2 ^ (3 - 1)) then 30000000000 else 1000000000 * 2 ^ (3 - 1))
capped_delay_exact_example =
    capped_delay_exact 3 1000000000 30000000000 (omega arith) (omega arith) (omega arith)

-- An error that Cloud Control answers with when it is throttled.
abbrev throttled : GoError
throttled = record (new_error (codes "slow down")) {
  operation_error = some (some (throttling ∷ []));
}

handle_cloud_control_error_table_example :
    handle_cloud_control_error throttled ≡ some Sdk.throttling
handle_cloud_control_error_table_example =
    handle_cloud_control_error_table throttled throttling refl

-- Tags as a read turns them into an array.
abbrev tag_map : Fields
tag_map = field (codes "team") (string (codes "x")) end

abbrev tagged : Fields
tagged = field (codes "Tags") (object tag_map) (field (codes "Name") (string (codes "n")) end)

transform_tags_round_trip_example :
    (result : Fields) × ((get
          (codes "Tags")
          (transform_tags_to_map (transform_tags_to_array tagged))
        ≡ some (object result))
      × ((get (codes "team") result ≡ or_else (string_at (codes "team") tag_map) none)
          × (get (codes "Name") (transform_tags_to_map (transform_tags_to_array tagged))
              ≡ get (codes "Name") tagged)))
unfolding get ◌===◌
transform_tags_round_trip_example =
    transform_tags_round_trip tagged tag_map (codes "team") (codes "Name") refl (refl, tt)
      (λ e. ground arith)

-- A registry with one entry, whose factories are texts.
-- A codec that decodes everything to JSON null.
abbrev null_codec : Codec
null_codec = record {
  unmarshal = λ _. some null;
  marshal = λ _. codes "null";
  error_of = λ _. new_error (codes "bad");
}

minus_one : parse_int (codes "-1") ≡ some (negsuc 0)
unfolding parse_int
minus_one = refl

too_large : parse_int (codes "9223372036854775808") ≡ none
unfolding parse_int
too_large = refl

prints : format_int (negsuc 1234) ≡ codes "-1235"
unfolding format_int
prints = refl
