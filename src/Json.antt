-- ===== src/Json.antt =====
-- Decoded JSON (Go's `any` after json.Unmarshal), and Go maps from strings as lists of fields. A
-- number is kept as its text. The plugin only looks up, sets and deletes fields, so the order of
-- the list stands for any order of iteration.
pub mod Laws
use formae_plugin_aws.Prelude.{
  ◌≡◌, Bool, true, false, Option, none, some, List, [], ◌∷◌, if◌then◌else◌,
}
use formae_plugin_aws.Text.{Text, ◌===◌}
use formae_plugin_aws.Go.{GoError}

mutual
  pub data Json : Type 0 where
    null : Json
    bool : Bool → Json
    number : Text → Json
    string : Text → Json
    array : Items → Json
    object : Fields → Json

  pub data Items : Type 0 where
    nil : Items
    cons : Json → Items → Items

  pub data Fields : Type 0 where
    end : Fields
    field : Text → Json → Fields → Fields

abbrev pub is_nil : Items → Bool
is_nil nil = true
is_nil (cons _ _) = false

abbrev pub is_end : Fields → Bool
is_end end = true
is_end (field _ _ _) = false

-- m[k]
unfoldable pub get : Text → Fields → Option Json
get k end = none
get k (field j v m) = if j === k then some v else get k m

-- delete(m, k)
unfoldable pub remove : Text → Fields → Fields
remove k end = end
remove k (field j v m) = let rest = remove k m in if j === k then rest else field j v rest

-- m[k] = v
unfoldable pub put : Text → Json → Fields → Fields
put k v end = field k v end
put k v (field j u m) = if j === k then field k v m else field j u (put k v m)

-- v.(string) and v.(map[string]any), of a value that may be missing
abbrev pub as_string : Option Json → Option Text
as_string (some (string s)) = some s
as_string _ = none

abbrev pub as_object : Option Json → Option Fields
as_object (some (object m)) = some m
as_object _ = none

-- encoding/json: `unmarshal` gives `none` for a text that is not JSON, and `error_of` is the error
-- of a decoding that fails; `marshal` cannot fail on decoded values.
pub record Codec : Type 0 where
  pub unmarshal : Text → Option Json
  pub marshal : Json → Text
  pub error_of : Text → GoError

-- v == s, of an `any` and a string
abbrev pub is_text : Text → Option Json → Bool
is_text s v = elim (as_string v) [ none ↦ false | some t ↦ t === s ]

-- As in a Go map, no key stands twice.
abbrev pub UniqueKeys : Fields → Type 0
UniqueKeys end = Unit
UniqueKeys (field k v m) = (get k m ≡ none) × UniqueKeys m
