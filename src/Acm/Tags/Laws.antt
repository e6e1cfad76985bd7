-- ===== src/Acm/Tags/Laws.antt =====
-- Removing and adding what `diff_tags` gives turns one tag set into the other. The store of tags
-- does what the ACM documentation says of the two calls.
use formae_plugin_aws.Prelude.{
  ◌≡◌, refl, Option, none, some, List, [], ◌∷◌, if◌then◌else◌, arith, ◌∙◌, Bool-cases, inl, inr,
}
use formae_plugin_aws.Text.{Text, codes, ◌===◌, is_empty}
use formae_plugin_aws.Text.Equality.{eq_iff, eq_refl}
use formae_plugin_aws.Json.{
  Json, Items, Fields, null, bool, number, string, array, object, nil, cons, get,
}
use formae_plugin_aws.Properties.{or_empty, text_at, items_of}
use formae_plugin_aws.Maps.{Map, lookup, insert, erase, Distinct}
use formae_plugin_aws.Maps.Laws.{lookup-insert, lookup-erase, lookup-cons, insert-Distinct}
use formae_plugin_aws.Acm.Client.{Tag}
use formae_plugin_aws.Acm.Tags.{
  put_entry, tag_set_of, tag_set_from_properties, agrees, tag_of, differing, diff_tags,
}

-- RemoveTagsFromCertificate: a tag with a value goes only if the value is the same.
abbrev drop_tag : Tag → Map Text → Map Text
drop_tag t m = elim t.key [
  | none ↦ m
  | some k ↦ elim t.value [
    | none ↦ erase k m
    | some v ↦ if agrees (lookup k m) v then erase k m else m
  ]
]

-- AddTagsToCertificate: a tag replaces the one of the same key.
abbrev set_tag : Tag → Map Text → Map Text
set_tag t m = elim t.key [ none ↦ m | some k ↦ insert k (or_empty t.value) m ]

unfoldable pub drop_tags : List Tag → Map Text → Map Text
drop_tags [] m = m
drop_tags (t ∷ ts) m = drop_tags ts (drop_tag t m)

unfoldable pub set_tags : List Tag → Map Text → Map Text
set_tags [] m = m
set_tags (t ∷ ts) m = set_tags ts (set_tag t m)

put_entry-Distinct : (item : Json) (out : Map Text) → Distinct out → Distinct (put_entry item out)
put_entry-Distinct (object m) out h = elim (Bool-cases (is_empty (text_at (codes "Key") m))) [
  | inl e ↦ rw e h
  | inr e ↦ rw e (insert-Distinct (text_at (codes "Key") m) (text_at (codes "Value") m) out h)
]
put_entry-Distinct null out h = h
put_entry-Distinct (bool b) out h = h
put_entry-Distinct (number n) out h = h
put_entry-Distinct (string s) out h = h
put_entry-Distinct (array xs) out h = h

tag_set_of-Distinct :
    (items : Items) (out : Map Text) → Distinct out → Distinct (tag_set_of items out)
unfolding tag_set_of
tag_set_of-Distinct nil out h = h
tag_set_of-Distinct (cons item items) out h =
    tag_set_of-Distinct items (put_entry item out) (put_entry-Distinct item out h)

-- A tag set has no key twice.
pub tag_set_from_properties-Distinct : (p : Fields) → Distinct (tag_set_from_properties p)
unfolding tag_set_from_properties
tag_set_from_properties-Distinct p = tag_set_of-Distinct (items_of (get (codes "Tags") p)) [] tt

-- What a key keeps when the tags that differ from the desired ones are removed.
abbrev left_of : Option Text → Option Text → Option Text → Option Text
left_of none desired stored = stored
left_of (some v) desired stored = if agrees desired v then stored else none

abbrev gained : Option Text → Option Text → Option Text → Option Text
gained none prior stored = stored
gained (some v) prior stored = if agrees prior v then stored else some v

-- The store has the value that a tag set has.
abbrev Holds : Option Text → Option Text → Type 0
Holds none stored = Unit
Holds (some v) stored = stored ≡ some v

lookup-drop_tag :
    (k v : Text) (st : Map Text) (j : Text)
    → lookup j (drop_tag (tag_of k v) st)
      ≡ (if k === j then (if agrees (lookup k st) v then none else lookup j st) else lookup j st)
lookup-drop_tag k v st j = elim (Bool-cases (agrees (lookup k st) v)) [
  | inl e ↦ rw e (lookup-erase k j st)
  | inr e ↦ rw e (ground arith)
]

lookup-drop_tags :
    (desired m st : Map Text) (j : Text)
    → Distinct m
    → Holds (lookup j m) (lookup j st)
    → lookup j (drop_tags (differing desired m) st)
      ≡ left_of (lookup j m) (lookup j desired) (lookup j st)
unfolding drop_tags differing
lookup-drop_tags desired [] st j d h = unfold lookup in refl
lookup-drop_tags desired ((k, v) ∷ m) st j (fresh, d) h = ground (
  arith,
  lookup-cons j k v m,
  lookup-drop_tag k v st j,
  eq_iff k j,
  eq_refl v,
  lookup-drop_tags desired m st j d,
  lookup-drop_tags desired m (drop_tag (tag_of k v) st) j d,
)

lookup-set_tags :
    (prior m st : Map Text) (j : Text)
    → Distinct m
    → lookup j (set_tags (differing prior m) st)
      ≡ gained (lookup j m) (lookup j prior) (lookup j st)
unfolding set_tags differing
lookup-set_tags prior [] st j d = unfold lookup in refl
lookup-set_tags prior ((k, v) ∷ m) st j (fresh, d) = ground (
  arith,
  lookup-cons j k v m,
  lookup-insert k j v st,
  eq_iff k j,
  lookup-set_tags prior m st j d,
  lookup-set_tags prior m (insert k v st) j d,
)

meets : (prior desired : Option Text) → gained desired prior (left_of prior desired prior) ≡ desired
meets none none = refl
meets none (some v) = refl
meets (some u) none = refl
meets (some u) (some v) = ground (arith, eq_iff u v, eq_iff v u)

stored_as_is : (o : Option Text) → Holds o o
stored_as_is none = tt
stored_as_is (some v) = refl

-- A store of tags that has the prior tags at every key and gets the two changes of diffTags, first
-- the removals and then the additions, has the desired tags at every key.
pub diff_tags-reconcile :
    (prior desired st : Map Text) (j : Text)
    → Distinct prior
    → Distinct desired
    → lookup j st ≡ lookup j prior
    → let (to_add, to_remove) = diff_tags prior desired in
      lookup j (set_tags to_add (drop_tags to_remove st)) ≡ lookup j desired
unfolding diff_tags
diff_tags-reconcile prior desired st j dp dd h =
    lookup-set_tags prior desired (drop_tags (differing desired prior) st) j dd
    ∙ rw (lookup-drop_tags desired prior st j dp (rw h (stored_as_is (lookup j prior))), h)
        (meets (lookup j prior) (lookup j desired))
