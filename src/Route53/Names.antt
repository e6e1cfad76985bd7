-- ===== src/Route53/Names.antt =====
-- The native id of a record set and its trailing dot, from record_set.go.
pub mod Laws
use formae_plugin_aws.Prelude.{Option, none, some, List, [], ◌∷◌, ◌++◌, if◌then◌else◌}
use formae_plugin_aws.Text.{Text, codes, has_suffix, split_n3}

-- if !strings.HasSuffix(name, ".") { name = name + "." }
unfoldable pub with_dot : Text → Text
with_dot name = if has_suffix (codes ".") name then name else name ++ codes "."

unfoldable pub native_id : Text → Text → Text → Text
native_id zone name record_type = zone ++ b'|' ∷ (with_dot name ++ b'|' ∷ record_type)

pub record Target : Type 0 where
  pub zone : Text
  pub name : Text
  pub record_type : Text

abbrev pub target_of_parts : List Text → Option Target
target_of_parts (zone ∷ name ∷ record_type ∷ []) =
    some (record { zone = zone; name = name; record_type = record_type })
target_of_parts _ = none

-- The three parts of a native id, or none where there are not three.
unfoldable pub parse_native_id : Text → Option Target
parse_native_id id = target_of_parts (split_n3 b'|' id)
