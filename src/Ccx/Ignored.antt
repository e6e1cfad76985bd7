-- ===== src/Ccx/Ignored.antt =====
-- IgnoredFields, stripIgnoredFields and findParentAndKey of pkg/ccx/client.go.
pub mod Laws
use formae_plugin_aws.Prelude.{ℕ, Option, none, some, List, [], ◌∷◌, ◌++◌, if◌then◌else◌}
use formae_plugin_aws.Text.{Text, codes, ◌===◌, has_prefix, trim_prefix, split}
use formae_plugin_aws.Go.{GoError, new_error}
use formae_plugin_aws.Json.{Json, Fields, object, get, remove, put, as_object}

abbrev IgnoredFields : Type 0
IgnoredFields = List (Text × List Text)

abbrev pub ignored_table : IgnoredFields
ignored_table =
    (
      codes "AWS::EC2::SecurityGroup",
      codes "$.SecurityGroupEgress" ∷ codes "$.SecurityGroupIngress" ∷ [],
    )
    ∷ (codes "AWS::IAM::Role", codes "$.Policies" ∷ [])
    ∷ (codes "AWS::ElasticBeanstalk::ConfigurationTemplate", codes "$.OptionSettings" ∷ [])
    ∷ (
      codes "AWS::ElasticLoadBalancingV2::TargetGroup",
      codes "$.Targets" ∷ codes "$.LoadBalancerArns" ∷ [],
    )
    ∷ []

-- IgnoredFields[resourceType], nil for a type that is not in the table
unfoldable pub ignored_of : IgnoredFields → Text → List Text
ignored_of [] resource_type = []
ignored_of ((t, fields) ∷ table) resource_type =
    let rest = ignored_of table resource_type in if t === resource_type then fields else rest

-- The result of walking to the parent of a path's last key and deleting that key there. Go changes
-- the parent in place; here the changed maps are put back on the way.
pub data Removal : Type 0 where
  removed : Fields → Removal
  path_not_found : Text → Removal

abbrev put_back : Text → Fields → Removal → Removal
put_back k m (removed inner) = removed (put k (object inner) m)
put_back k m (path_not_found j) = path_not_found j

unfoldable remove_at : Text → List Text → Fields → Removal
remove_at k [] m = removed (remove k m)
remove_at k (next ∷ rest) m = elim (as_object (get k m)) [
  | none ↦ path_not_found k
  | some inner ↦ put_back k m (remove_at next rest inner)
]

unfoldable pub field_path : Text → List Text
field_path f =
    split b'.'
      (if has_prefix (codes "$") f then trim_prefix (codes ".") (trim_prefix (codes "$") f) else f)

unfoldable pub remove_path : List Text → Fields → Removal
unfolding remove_at
remove_path [] m = removed m
remove_path (k ∷ ks) m = remove_at k ks m

-- The map as the loop leaves it, and the error at which it stopped.
unfoldable pub strip_ignored_fields : List Text → Fields → Fields × Option GoError
unfolding remove_path
strip_ignored_fields [] m = (m, none)
strip_ignored_fields (f ∷ fs) m = elim (remove_path (field_path f) m) [
  | removed m' ↦ strip_ignored_fields fs m'
  | path_not_found k ↦ (m, some (new_error (codes "path not found: '" ++ k ++ codes "'")))
]
