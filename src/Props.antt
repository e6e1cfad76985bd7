-- ===== src/Props.antt =====
-- pkg/props/props.go: tags as an array of Key and Value, or as a map. The map that the code makes
-- has Go type map[string]string; it is an object whose values are strings here.
pub mod Laws
use formae_plugin_aws.Prelude.{Bool, Option, none, some}
use formae_plugin_aws.Text.{Text, codes, ◌===◌}
use formae_plugin_aws.Json.{
  Json, Items, Fields, string, array, object, nil, cons, end, field, get, put, as_string,
}

unfoldable pub requires_map_tags : Text → Bool
requires_map_tags resource_type = resource_type === codes "AWS::EKS::Nodegroup"

abbrev put_pair : Option Text → Option Text → Fields → Fields
put_pair (some key) (some value) m = put key (string value) m
put_pair _ _ m = m

unfoldable pub put_tag : Json → Fields → Fields
put_tag (object tag) m =
    put_pair (as_string (get (codes "Key") tag)) (as_string (get (codes "Value") tag)) m
put_tag _ m = m

unfoldable pub collect_tags : Items → Fields → Fields
collect_tags nil m = m
collect_tags (cons tag tags) m = collect_tags tags (put_tag tag m)

unfoldable pub transform_tags_to_map : Fields → Fields
unfolding collect_tags
transform_tags_to_map properties = elim (get (codes "Tags") properties) [
  | some (array tags) ↦ put (codes "Tags") (object (collect_tags tags end)) properties
  | _ ↦ properties
]

abbrev pub tag_of : Text → Text → Json
tag_of key value =
    object (field (codes "Key") (string key) (field (codes "Value") (string value) end))

abbrev pub tag_items : Fields → Items
tag_items end = nil
tag_items (field key (string value) m) = cons (tag_of key value) (tag_items m)
tag_items (field key _ m) = tag_items m

unfoldable pub transform_tags_to_array : Fields → Fields
transform_tags_to_array properties = elim (get (codes "Tags") properties) [
  | some (object tags) ↦ put (codes "Tags") (array (tag_items tags)) properties
  | _ ↦ properties
]
