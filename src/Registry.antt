-- ===== src/Registry.antt =====
-- pkg/cfres/registry/registry.go: the provisioner of each resource type and operation. A map of maps
-- is a list of pairs; a factory is any value of type `F`.
pub mod Laws
use formae_plugin_aws.Prelude.{
  Bool, true, false, Option, none, some, List, [], ◌∷◌, if◌then◌else◌, is_some,
}
use formae_plugin_aws.Text.{Text, ◌===◌}
use formae_plugin_aws.Sdk.{Operation, Operation-discrete}

abbrev pub same_operation : Operation → Operation → Bool
same_operation a b = elim (Operation-discrete a b) [ yes _ ↦ true | no _ ↦ false ]

abbrev pub Operations {ℓ} : Type ℓ → Type ℓ
Operations F = List (Operation × F)

abbrev pub Registry {ℓ} : Type ℓ → Type ℓ
Registry F = List (Text × Operations F)

module _ {ℓ} {F : Type ℓ} where
  unfoldable pub find : Operation → Operations F → Option F
  find op [] = none
  find op ((o, f) ∷ fs) = if same_operation o op then some f else find op fs

  unfoldable pub set : Operation → F → Operations F → Operations F
  set op f [] = (op, f) ∷ []
  set op f ((o, g) ∷ fs) = if same_operation o op then (o, f) ∷ fs else (o, g) ∷ set op f fs

  unfoldable pub set_all : List Operation → F → Operations F → Operations F
  unfolding set
  set_all [] f fs = fs
  set_all (op ∷ ops) f fs = set_all ops f (set op f fs)

  -- registry[name], the empty map for a name that is not there
  unfoldable pub operations_of : Text → Registry F → Operations F
  operations_of name [] = []
  operations_of name ((n, fs) ∷ r) = if n === name then fs else operations_of name r

  -- Makes the inner map where there is none yet, and sets each of the operations in it.
  unfoldable pub register : Text → List Operation → F → Registry F → Registry F
  unfolding set_all
  register name ops f [] = (name, set_all ops f []) ∷ []
  register name ops f ((n, fs) ∷ r) =
      if n === name then (n, set_all ops f fs) ∷ r else (n, fs) ∷ register name ops f r

  unfoldable pub get : Text → Operation → Registry F → Option F
  unfolding find operations_of
  get name op r = find op (operations_of name r)

  unfoldable pub has_provisioner : Text → Operation → Registry F → Bool
  unfolding get
  has_provisioner name op r = is_some (get name op r)
