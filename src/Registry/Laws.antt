-- ===== src/Registry/Laws.antt =====
-- What a registration changes.
use formae_plugin_aws.Prelude.{
  ◌≡◌, refl, Bool, false, ◌&&◌, ◌||◌, some, List, [], ◌∷◌, arith, if◌then◌else◌,
}
use formae_plugin_aws.Text.{Text, ◌===◌}
use formae_plugin_aws.Text.Equality.{eq_iff}
use formae_plugin_aws.Sdk.{Operation}
use formae_plugin_aws.Registry.{
  same_operation, Operations, Registry, find, set, set_all, operations_of, register, get,
}

abbrev pub among : Operation → List Operation → Bool
among op [] = false
among op (o ∷ ops) = same_operation o op || among op ops

module _ {ℓ} {F : Type ℓ} where
  find-set :
      (o op : Operation) (f : F) (fs : Operations F)
      → find op (set o f fs) ≡ (if same_operation o op then some f else find op fs)
  unfolding find set
  find-set o op f [] = refl
  find-set o op f ((p, g) ∷ fs) = ground (arith, find-set o op f fs)

  find-set_all :
      (ops : List Operation) (op : Operation) (f : F) (fs : Operations F)
      → find op (set_all ops f fs) ≡ (if among op ops then some f else find op fs)
  unfolding set_all
  find-set_all [] op f fs = refl
  find-set_all (o ∷ ops) op f fs =
      ground (arith, find-set_all ops op f (set o f fs), find-set o op f fs)

  operations_of-register :
      (name n : Text) (ops : List Operation) (f : F) (r : Registry F)
      → operations_of n (register name ops f r)
        ≡ (if name === n then set_all ops f (operations_of n r) else operations_of n r)
  unfolding operations_of register
  operations_of-register name n ops f [] = refl
  operations_of-register name n ops f ((m, fs) ∷ r) =
      ground
        (arith, operations_of-register name n ops f r, eq_iff name n, eq_iff m name, eq_iff m n)

  -- A registration is found under its name for each of its operations; every other pair of a name
  -- and an operation has the factory that it had.
  pub get-register :
      (name n : Text) (ops : List Operation) (op : Operation) (f : F) (r : Registry F)
      → get n op (register name ops f r)
        ≡ (if name === n && among op ops then some f else get n op r)
  unfolding get
  get-register name n ops op f r =
      ground
        (arith, operations_of-register name n ops f r, find-set_all ops op f (operations_of n r))
