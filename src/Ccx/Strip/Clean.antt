-- ===== src/Ccx/Strip/Clean.antt =====
-- What is left after stripping: no key of any map holds an empty array or map.
use formae_plugin_aws.Prelude.{◌≡◌, refl, false, Option, none, some, arith}
use formae_plugin_aws.Text.{Text}
use formae_plugin_aws.Json.{
  Json, Items, Fields, null, bool, number, string, array, object, nil, cons, end, field, is_nil,
  is_end,
}
use formae_plugin_aws.Ccx.Strip.{
  keep_field, strip_value, strip_element, strip_elements, strip_fields,
}

-- `CleanValue` is about the value of a key, `CleanElement` about an element of an array, which may
-- be an empty map.
abbrev mutual
  pub CleanValue : Json → Type 0
  CleanValue (array xs) = (is_nil xs ≡ false) × CleanElements xs
  CleanValue (object m) = (is_end m ≡ false) × CleanFields m
  CleanValue v = Unit

  pub CleanElement : Json → Type 0
  CleanElement (object m) = CleanFields m
  CleanElement v = Unit

  pub CleanElements : Items → Type 0
  CleanElements nil = Unit
  CleanElements (cons v xs) = CleanElement v × CleanElements xs

  pub CleanFields : Fields → Type 0
  CleanFields end = Unit
  CleanFields (field k v m) = CleanValue v × CleanFields m

abbrev CleanOption : Option Json → Type 0
CleanOption none = Unit
CleanOption (some v) = CleanValue v

CleanFields-keep_field :
    (k : Text) (o : Option Json) (m : Fields)
    → CleanOption o
    → CleanFields m
    → CleanFields (keep_field k o m)
CleanFields-keep_field k none m h hm = hm
CleanFields-keep_field k (some v) m h hm = (h, hm)

mutual
  unfolding strip_value

  strip_value-Clean : (v : Json) → CleanOption (strip_value v)
  strip_value-Clean null = tt
  strip_value-Clean (bool b) = tt
  strip_value-Clean (number n) = tt
  strip_value-Clean (string s) = tt
  strip_value-Clean (array nil) = tt
  strip_value-Clean (array (cons x xs)) = (refl, (strip_element-Clean x, strip_elements-Clean xs))
  strip_value-Clean (object m) = ground (arith, strip_fields-Clean m)

  strip_element-Clean : (v : Json) → CleanElement (strip_element v)
  strip_element-Clean (object m) = strip_fields-Clean m
  strip_element-Clean _ = tt

  strip_elements-Clean : (xs : Items) → CleanElements (strip_elements xs)
  strip_elements-Clean nil = tt
  strip_elements-Clean (cons v xs) = (strip_element-Clean v, strip_elements-Clean xs)

  strip_fields-Clean : (m : Fields) → CleanFields (strip_fields m)
  strip_fields-Clean end = tt
  strip_fields-Clean (field k v m) =
      CleanFields-keep_field k _ _ (strip_value-Clean v) (strip_fields-Clean m)

-- After stripping, no key of a map, at any depth that the code enters, holds an empty array or map.
pub strip_fields-IsClean : (m : Fields) → CleanFields (strip_fields m)
strip_fields-IsClean m = strip_fields-Clean m

mutual
  unfolding strip_value

  strip_value_of_Clean : (v : Json) → CleanValue v → strip_value v ≡ some v
  strip_value_of_Clean null h = refl
  strip_value_of_Clean (bool b) h = refl
  strip_value_of_Clean (number n) h = refl
  strip_value_of_Clean (string s) h = refl
  strip_value_of_Clean (array xs) (ne, h) = rw (ne, strip_elements_of_Clean xs h)
  strip_value_of_Clean (object m) (ne, h) = rw (ne, strip_fields_of_Clean m h) (rw ne)

  strip_element_of_Clean : (v : Json) → CleanElement v → strip_element v ≡ v
  strip_element_of_Clean (object m) h = rw (strip_fields_of_Clean m h)
  strip_element_of_Clean null h = refl
  strip_element_of_Clean _ h = refl

  strip_elements_of_Clean : (xs : Items) → CleanElements xs → strip_elements xs ≡ xs
  strip_elements_of_Clean nil h = refl
  strip_elements_of_Clean (cons v xs) (h, k) =
      rw (strip_element_of_Clean v h, strip_elements_of_Clean xs k)

  strip_fields_of_Clean : (m : Fields) → CleanFields m → strip_fields m ≡ m
  strip_fields_of_Clean end h = refl
  strip_fields_of_Clean (field k v m) (h, hm) =
      rw (strip_value_of_Clean v h, strip_fields_of_Clean m hm)

-- A map without empty collections is left as it is.
strip_fields_id : (m : Fields) → CleanFields m → strip_fields m ≡ m
strip_fields_id m h = strip_fields_of_Clean m h

-- Stripping twice is stripping once.
pub strip_fields_idem : (m : Fields) → strip_fields (strip_fields m) ≡ strip_fields m
strip_fields_idem m = strip_fields_id (strip_fields m) (strip_fields-IsClean m)
