-- ===== src/Maps.antt =====
-- Go maps from strings to values of one type, as lists of entries. The order of the list stands for
-- any order of iteration.
pub mod Laws
use formae_plugin_aws.Prelude.{Option, none, some, List, [], ◌∷◌, if◌then◌else◌, ◌≡◌}
use formae_plugin_aws.Text.{Text, ◌===◌}
use formae_plugin_aws.Json.{Fields, end, field, string}

abbrev pub Map {ℓ} : Type ℓ → Type ℓ
Map V = List (Text × V)

module _ {ℓ} {V : Type ℓ} where
  -- m[k]
  unfoldable pub lookup : Text → Map V → Option V
  lookup k [] = none
  lookup k ((j, v) ∷ m) = if j === k then some v else lookup k m

  -- m[k] = v
  unfoldable pub insert : Text → V → Map V → Map V
  insert k v [] = (k, v) ∷ []
  insert k v ((j, u) ∷ m) = if j === k then (k, v) ∷ m else (j, u) ∷ insert k v m

  -- delete(m, k)
  unfoldable pub erase : Text → Map V → Map V
  erase k [] = []
  erase k ((j, u) ∷ m) = let rest = erase k m in if j === k then rest else (j, u) ∷ rest

  -- No key stands twice.
  abbrev pub Distinct : Map V → Type ℓ
  Distinct [] = Unit
  Distinct ((k, v) ∷ m) = (lookup k m ≡ none) × Distinct m

-- A map of strings, as JSON.
abbrev pub fields_of : Map Text → Fields
fields_of [] = end
fields_of ((k, v) ∷ m) = field k (string v) (fields_of m)
