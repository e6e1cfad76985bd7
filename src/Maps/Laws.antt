-- ===== src/Maps/Laws.antt =====
-- Go maps: reading after a write or a deletion.
use formae_plugin_aws.Prelude.{
  ◌≡◌, refl, none, some, [], ◌∷◌, arith, if◌then◌else◌, All, Bool-cases, inl, inr,
}
use formae_plugin_aws.Text.{Text, ◌===◌}
use formae_plugin_aws.Text.Equality.{eq_iff, eq_refl}
use formae_plugin_aws.Maps.{Map, lookup, insert, erase, Distinct}

module _ {ℓ} {V : Type ℓ} where
  pub lookup-insert :
      (k j : Text) (v : V) (m : Map V)
      → lookup j (insert k v m) ≡ (if k === j then some v else lookup j m)
  unfolding lookup insert
  lookup-insert k j v [] = refl
  lookup-insert k j v ((i, u) ∷ m) =
      ground (arith, lookup-insert k j v m, eq_iff k j, eq_iff i k, eq_iff i j)

  pub lookup-erase :
      (k j : Text) (m : Map V) → lookup j (erase k m) ≡ (if k === j then none else lookup j m)
  unfolding lookup erase
  lookup-erase k j [] = ground arith
  lookup-erase k j ((i, u) ∷ m) =
      ground (arith, lookup-erase k j m, eq_iff k j, eq_iff i k, eq_iff i j)

  pub lookup-cons :
      (k j : Text) (v : V) (m : Map V)
      → lookup k ((j, v) ∷ m) ≡ (if j === k then some v else lookup k m)
  unfolding lookup
  lookup-cons k j v m = refl

  pub lookup-insert_self : (k : Text) (v : V) (m : Map V) → lookup k (insert k v m) ≡ some v
  lookup-insert_self k v m = ground (arith, lookup-insert k k v m, eq_refl k)

  -- A write keeps the keys apart.
  pub insert-Distinct : (k : Text) (v : V) (m : Map V) → Distinct m → Distinct (insert k v m)
  unfolding insert lookup
  insert-Distinct k v [] h = (refl, tt)
  insert-Distinct k v ((j, u) ∷ m) (fresh, h) =
      ground (arith, insert-Distinct k v m h, lookup-insert k j v m, eq_iff j k, eq_iff k j)

  -- What holds of every entry holds of every entry after a write that it holds of.
  pub insert-All {κ} :
      (P : Text × V → Type κ) (k : Text) (v : V) (m : Map V)
      → P (k, v)
      → All P m
      → All P (insert k v m)
  unfolding insert
  insert-All P k v [] p h = (p, tt)
  insert-All P k v ((j, u) ∷ m) p (q, h) = elim (Bool-cases (j === k)) [
    | inl same ↦ rw (insert, same) (p, h)
    | inr other ↦ rw (insert, other) (q, insert-All P k v m p h)
  ]
