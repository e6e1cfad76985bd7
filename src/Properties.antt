-- ===== src/Properties.antt =====
-- How the provisioners read properties: GetStringProperty and GetInt64Property of
-- pkg/cfres/utils/utils.go, and the type assertions that fall back on an empty value.
use formae_plugin_aws.Prelude.Int.{ℤ}
use formae_plugin_aws.Prelude.{
  ◌≡◌, refl, Option, none, some, List, [], ◌∷◌, ◌++◌, Io, ◌⊎◌, inl, inr,
}
use formae_plugin_aws.Text.{Text, codes}
use formae_plugin_aws.Go.{GoError, new_error, wrap_error, Outcome, fail}
use formae_plugin_aws.Json.{
  Json, Items, Fields, string, number, array, nil, cons, get, as_string, Codec,
}
use formae_plugin_aws.Ccx.Read.{decode_map, map_of}

abbrev pub string_or_error : Text → Option Json → Text ⊎ GoError
string_or_error key none =
    inr (new_error (codes "required property " ++ (key ++ codes " not found")))
string_or_error key (some (string s)) = inl s
string_or_error key (some v) =
    inr (new_error (codes "property " ++ (key ++ codes " is not a string")))

abbrev pub get_string_property : Fields → Text → Text ⊎ GoError
get_string_property properties key = string_or_error key (get key properties)

-- The conversion of a float64 to int64 is a parameter.
abbrev int64_or : (Text → ℤ) → ℤ → Option Json → ℤ
int64_or int64_of default (some (number n)) = int64_of n
int64_or int64_of default _ = default

abbrev pub get_int64_property : (Text → ℤ) → Fields → Text → ℤ → ℤ
get_int64_property int64_of properties key default = int64_or int64_of default (get key properties)

-- v, err := ...; if err != nil { return f(err) }
abbrev pub unless_bad {ℓ κ μ} :
    {W : Type ℓ} {A : Type κ} {B : Type μ}
    → A ⊎ GoError
    → (GoError → Outcome B)
    → (A → Io W (Outcome B))
    → Io W (Outcome B)
unless_bad (inl a) f k w = k a w
unless_bad (inr e) f k w = (f e, w)

abbrev pub or_empty : Option Text → Text
or_empty none = []
or_empty (some s) = s

-- The string of a field, or the empty string.
abbrev pub text_at : Text → Fields → Text
text_at key m = or_empty (as_string (get key m))

-- v.([]any), with no elements where it fails
abbrev pub items_of : Option Json → Items
items_of (some (array items)) = items
items_of _ = nil

-- The strings of an array that are not empty.
unfoldable pub nonempty_strings : Items → List Text
nonempty_strings nil = []
nonempty_strings (cons (string (c ∷ s)) items) = (c ∷ s) ∷ nonempty_strings items
nonempty_strings (cons _ items) = nonempty_strings items

-- json.Unmarshal into a map
abbrev pub decode_or {ℓ κ} :
    {W : Type ℓ} {B : Type κ} → Codec → Text → Text → (Fields → Io W (Outcome B)) → Io W (Outcome B)
decode_or codec context body k w = elim (decode_map codec body) [
  | none ↦ (fail (wrap_error context (codec.error_of body)), w)
  | some v ↦ k (map_of v) w
]

pub decode_or-some {ℓ κ} :
    {W : Type ℓ} {B : Type κ} (codec : Codec) (context body : Text) (k : Fields → Io W (Outcome B))
    (w : W) (v : Json)
    → decode_map codec body ≡ some v
    → decode_or codec context body k w ≡ k (map_of v) w
decode_or-some codec context body k w v e = rw (decode_or, e) refl
