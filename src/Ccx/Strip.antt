-- ===== src/Ccx/Strip.antt =====
-- stripEmptyCollectionsFromMap and stripEmptyCollections of pkg/ccx/client.go, and the older
-- StripEmptyCollections of pkg/cfres/utils/utils.go.
pub mod Clean
use formae_plugin_aws.Prelude.{Option, none, some, if◌then◌else◌}
use formae_plugin_aws.Text.{Text}
use formae_plugin_aws.Json.{
  Json, Items, Fields, null, bool, number, string, array, object, nil, cons, end, field, is_nil,
  is_end, Codec,
}

abbrev pub keep_field : Text → Option Json → Fields → Fields
keep_field k none rest = rest
keep_field k (some v) rest = field k v rest

-- `strip_value` is the body of the loop: `none` deletes the key. `strip_element` is the loop over an
-- array, which enters the maps among the elements and nothing else.
unfoldable mutual
  pub strip_value : Json → Option Json
  strip_value (array xs) =
      let stripped = array (strip_elements xs) in if is_nil xs then none else some stripped
  strip_value (object m) =
      let stripped = strip_fields m in
      if is_end m then none else if is_end stripped then none else some (object stripped)
  strip_value v = some v

  pub strip_element : Json → Json
  strip_element (object m) = object (strip_fields m)
  strip_element v = v

  pub strip_elements : Items → Items
  strip_elements nil = nil
  strip_elements (cons v xs) = cons (strip_element v) (strip_elements xs)

  pub strip_fields : Fields → Fields
  strip_fields end = end
  strip_fields (field k v m) = keep_field k (strip_value v) (strip_fields m)

-- The same without the second test of a map after the recursive call.
unfoldable mutual
  pub strip_value_once : Json → Option Json
  strip_value_once (array xs) =
      let stripped = array (strip_elements_once xs) in if is_nil xs then none else some stripped
  strip_value_once (object m) =
      let stripped = strip_fields_once m in if is_end m then none else some (object stripped)
  strip_value_once v = some v

  pub strip_element_once : Json → Json
  strip_element_once (object m) = object (strip_fields_once m)
  strip_element_once v = v

  pub strip_elements_once : Items → Items
  strip_elements_once nil = nil
  strip_elements_once (cons v xs) = cons (strip_element_once v) (strip_elements_once xs)

  pub strip_fields_once : Fields → Fields
  strip_fields_once end = end
  strip_fields_once (field k v m) = keep_field k (strip_value_once v) (strip_fields_once m)

-- A text that is no JSON object is returned as it is; JSON null is a nil map, and stays null.
unfoldable pub strip_empty_collections : Codec → Text → Text
strip_empty_collections c body = elim (c.unmarshal body) [
  | some (object m) ↦ c.marshal (object (strip_fields m))
  | some null ↦ c.marshal null
  | _ ↦ body
]
