-- ===== src/Props/Laws.antt =====
-- Tags survive the way from a map to an array and back.
use formae_plugin_aws.Prelude.{◌≡◌, refl, Option, none, some, arith, ◌≢◌}
use formae_plugin_aws.Text.{Text, codes, ◌===◌}
use formae_plugin_aws.Text.Equality.{eq_iff}
use formae_plugin_aws.Json.{
  Json, Items, Fields, null, bool, number, string, array, object, end, field, get, put, as_string,
  UniqueKeys,
}
use formae_plugin_aws.Json.Laws.{get-put, get-put_self, get-field}
use formae_plugin_aws.Props.{
  put_tag, collect_tags, transform_tags_to_map, tag_of, tag_items, transform_tags_to_array,
}

put_tag-tag_of : (k v : Text) (m : Fields) → put_tag (tag_of k v) m ≡ put k (string v) m
unfolding put_tag get ◌===◌
put_tag-tag_of k v m = refl

-- The string value of a key, if it has one.
abbrev pub string_at : Text → Fields → Option Text
string_at k m = as_string (get k m)

abbrev pub or_else : Option Text → Option Json → Option Json
or_else none o = o
or_else (some v) o = some (string v)

get-collect_tags :
    (k : Text) (m acc : Fields)
    → UniqueKeys m
    → get k (collect_tags (tag_items m) acc) ≡ or_else (string_at k m) (get k acc)
unfolding collect_tags
get-collect_tags k end acc h = unfold get in refl
get-collect_tags k (field j (string v) m) acc (fresh, h) = ground (
  arith,
  eq_iff j k,
  get-collect_tags k m (put_tag (tag_of j v) acc) h,
  put_tag-tag_of j v acc,
  get-put j k (string v) acc,
  get-field k j (string v) m,
)
get-collect_tags k (field j null m) acc (fresh, h) =
    ground (arith, eq_iff j k, get-collect_tags k m acc h, get-field k j null m)
get-collect_tags k (field j (bool b) m) acc (fresh, h) =
    ground (arith, eq_iff j k, get-collect_tags k m acc h, get-field k j (bool b) m)
get-collect_tags k (field j (number n) m) acc (fresh, h) =
    ground (arith, eq_iff j k, get-collect_tags k m acc h, get-field k j (number n) m)
get-collect_tags k (field j (array xs) m) acc (fresh, h) =
    ground (arith, eq_iff j k, get-collect_tags k m acc h, get-field k j (array xs) m)
get-collect_tags k (field j (object n) m) acc (fresh, h) =
    ground (arith, eq_iff j k, get-collect_tags k m acc h, get-field k j (object n) m)

transform_tags_to_array-some :
    (p tags : Fields)
    → get (codes "Tags") p ≡ some (object tags)
    → transform_tags_to_array p ≡ put (codes "Tags") (array (tag_items tags)) p
unfolding transform_tags_to_array
transform_tags_to_array-some p tags e = rw (transform_tags_to_array, e)

transform_tags_to_map-some :
    (p : Fields) (tags : Items)
    → get (codes "Tags") p ≡ some (array tags)
    → transform_tags_to_map p ≡ put (codes "Tags") (object (collect_tags tags end)) p
unfolding transform_tags_to_map
transform_tags_to_map-some p tags e = rw (transform_tags_to_map, e)

-- A map of tags, with no key twice, that is turned into an array, as a read does, and back into a map, as a create does,
-- has at each key the string that it had, and nothing at the keys of other values; every other
-- property is as before.
pub transform_tags_round_trip :
    (p tags : Fields) (k j : Text)
    → get (codes "Tags") p ≡ some (object tags)
    → UniqueKeys tags
    → j ≢ codes "Tags"
    → (result : Fields) × ((get (codes "Tags") (transform_tags_to_map (transform_tags_to_array p))
          ≡ some (object result))
        × ((get k result ≡ or_else (string_at k tags) none)
            × (get j (transform_tags_to_map (transform_tags_to_array p)) ≡ get j p)))
unfolding get
transform_tags_round_trip p tags k j e h ne =
    let t = codes "Tags" in
    let q = put t (array (tag_items tags)) p in
    let result = collect_tags (tag_items tags) end in
    let there : get t q ≡ some (array (tag_items tags)) = get-put_self t _ p in
    rw (transform_tags_to_array-some p tags e, transform_tags_to_map-some q (tag_items tags) there)
      (
        result,
        (
          get-put_self t (object result) q,
          (
            get-collect_tags k tags end h,
            ground (
              arith,
              eq_iff t j,
              get-put t j (object result) q,
              get-put t j (array (tag_items tags)) p,
            ),
          ),
        ),
      )
