-- ===== src/Acm/Tags.antt =====
-- tagsFromProperties, tagSetFromProperties and diffTags of certificate.go.
pub mod Laws
use formae_plugin_aws.Prelude.{
  ◌&&◌, not, Option, none, some, List, [], ◌∷◌, if◌then◌else◌, Bool, true, false,
}
use formae_plugin_aws.Text.{Text, codes, ◌===◌, is_empty}
use formae_plugin_aws.Json.{Json, Items, Fields, object, array, nil, cons, get, as_string}
use formae_plugin_aws.Properties.{text_at, items_of}
use formae_plugin_aws.Maps.{Map, lookup, insert}
use formae_plugin_aws.Acm.Client.{Tag}

unfoldable pub tags_of : Items → List Tag
tags_of nil = []
tags_of (cons (object m) items) =
    let rest = tags_of items in
    let key = text_at (codes "Key") m in
    if is_empty key
    then rest
    else record { key = some key; value = as_string (get (codes "Value") m) } ∷ rest
tags_of (cons _ items) = tags_of items

abbrev pub tags_from_properties : Fields → List Tag
tags_from_properties properties = tags_of (items_of (get (codes "Tags") properties))

abbrev pub put_entry : Json → Map Text → Map Text
put_entry (object m) out =
    let key = text_at (codes "Key") m in
    if is_empty key then out else insert key (text_at (codes "Value") m) out
put_entry _ out = out

unfoldable pub tag_set_of : Items → Map Text → Map Text
tag_set_of nil out = out
tag_set_of (cons item items) out = tag_set_of items (put_entry item out)

unfoldable pub tag_set_from_properties : Fields → Map Text
unfolding tag_set_of
tag_set_from_properties properties = tag_set_of (items_of (get (codes "Tags") properties)) []

-- present && value == other
abbrev pub agrees : Option Text → Text → Bool
agrees none v = false
agrees (some u) v = u === v

abbrev pub tag_of : Text → Text → Tag
tag_of k v = record { key = some k; value = some v }

-- The entries of the second map that the first does not have with the same value.
unfoldable pub differing : Map Text → Map Text → List Tag
differing other [] = []
differing other ((k, v) ∷ m) =
    let rest = differing other m in if agrees (lookup k other) v then rest else tag_of k v ∷ rest

-- The tags to add, and those to remove.
unfoldable pub diff_tags : Map Text → Map Text → List Tag × List Tag
unfolding differing
diff_tags prior desired = (differing prior desired, differing desired prior)
