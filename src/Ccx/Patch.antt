-- ===== src/Ccx/Patch.antt =====
-- filterEmptyAddOps and transformSecretStringPatch of pkg/ccx/client.go: JSON Patch documents.
pub mod Laws
use formae_plugin_aws.Prelude.{Bool, true, false, ◌&&◌, ◌||◌, Option, none, some, if◌then◌else◌}
use formae_plugin_aws.Text.{Text, codes, is_empty}
use formae_plugin_aws.Json.{
  Json, Items, Fields, null, string, array, object, nil, cons, end, field, get, put, as_object,
  is_text, Codec,
}
use formae_plugin_aws.Ccx.Strip.{strip_fields}

abbrev all_maps : Items → Bool
all_maps nil = true
all_maps (cons (object _) ops) = all_maps ops
all_maps (cons null ops) = all_maps ops
all_maps (cons _ ops) = false

-- json.Unmarshal into []map[string]any; a null among the operations is a nil map.
unfoldable unmarshal_patch : Codec → Text → Option Items
unmarshal_patch c doc = elim (c.unmarshal doc) [
  | some (array ops) ↦ if all_maps ops then some ops else none
  | some null ↦ some nil
  | _ ↦ none
]

unfoldable pub strip_op : Fields → Fields
strip_op op = elim (as_object (get (codes "value") op)) [
  | none ↦ op
  | some value ↦ put (codes "value") (object (strip_fields value)) op
]

unfoldable pub is_add_or_replace : Fields → Bool
is_add_or_replace op =
    is_text (codes "add") (get (codes "op") op) || is_text (codes "replace") (get (codes "op") op)

abbrev pub is_empty_collection : Option Json → Bool
is_empty_collection (some (array nil)) = true
is_empty_collection (some (object end)) = true
is_empty_collection _ = false

-- an operation that the loop skips
unfoldable pub is_phantom : Fields → Bool
unfolding is_add_or_replace
is_phantom op = is_add_or_replace op && is_empty_collection (get (codes "value") op)

unfoldable pub filter_op : Json → Option Json
unfolding strip_op is_phantom
filter_op (object op) = let op' = strip_op op in if is_phantom op' then none else some (object op')
filter_op v = some v

abbrev pub keep_op : Option Json → Items → Items
keep_op none ops = ops
keep_op (some op) ops = cons op ops

unfoldable pub filter_ops : Items → Items
unfolding filter_op
filter_ops nil = nil
filter_ops (cons op ops) = keep_op (filter_op op) (filter_ops ops)

-- `none` is an error of json.Unmarshal.
unfoldable pub filter_empty_add_ops : Codec → Text → Option Text
unfolding filter_ops unmarshal_patch
filter_empty_add_ops c doc = elim (unmarshal_patch c doc) [
  | none ↦ none
  | some ops ↦ some (c.marshal (array (filter_ops ops)))
]

unfoldable pub is_secret_replace : Fields → Bool
is_secret_replace op =
    is_text (codes "replace") (get (codes "op") op)
    && is_text (codes "/SecretString") (get (codes "path") op)

unfoldable secret_op : Json → Json
unfolding is_secret_replace
secret_op (object op) =
    if is_secret_replace op then object (put (codes "op") (string (codes "add")) op) else object op
secret_op v = v

-- the flag `modified` at the end of the loop
unfoldable modifies : Items → Bool
unfolding is_secret_replace
modifies nil = false
modifies (cons (object op) ops) = is_secret_replace op || modifies ops
modifies (cons _ ops) = modifies ops

unfoldable pub secret_ops : Items → Items
unfolding secret_op
secret_ops nil = nil
secret_ops (cons op ops) = cons (secret_op op) (secret_ops ops)

-- `none` is an error of json.Unmarshal.
unfoldable pub transform_secret_string_patch : Codec → Text → Option Text
unfolding secret_ops modifies unmarshal_patch
transform_secret_string_patch c doc =
    if is_empty doc then some doc else elim (unmarshal_patch c doc) [
      | none ↦ none
      | some ops ↦ if modifies ops then some (c.marshal (array (secret_ops ops))) else some doc
    ]
