-- ===== src/Text/Equality.antt =====
-- The test for equal texts decides equality.
use formae_plugin_aws.Prelude.{◌≡◌, refl, ◌↔◌, true, [], ◌∷◌, ◌++◌, some, arith}
use formae_plugin_aws.Text.{Text, ◌===◌, strip_prefix}

pub eq_refl : (s : Text) → (s === s) ≡ true
unfolding ◌===◌
eq_refl [] = refl
eq_refl (c ∷ s) = ground (arith, eq_refl s)

pub eq_sound : (s t : Text) → (s === t) ≡ true → s ≡ t
unfolding ◌===◌
eq_sound [] [] h = refl
eq_sound [] (d ∷ t) h = cc
eq_sound (c ∷ s) [] h = cc
eq_sound (c ∷ s) (d ∷ t) h = ground (arith, eq_sound s t)

pub eq_iff : (s t : Text) → ((s === t) ≡ true) ↔ (s ≡ t)
eq_iff s t = (eq_sound s t, λ p. subst_eq p)
  where
    subst_eq : s ≡ t → (s === t) ≡ true
    subst_eq p = rw p (eq_refl t)

pub strip_prefix-append : (p s : Text) → strip_prefix p (p ++ s) ≡ some s
unfolding strip_prefix
strip_prefix-append [] s = refl
strip_prefix-append (c ∷ p) s = ground (arith, strip_prefix-append p s)

pub strip_prefix_sound : (p s r : Text) → strip_prefix p s ≡ some r → s ≡ p ++ r
unfolding strip_prefix
strip_prefix_sound [] s r h = ground arith
strip_prefix_sound (d ∷ p) [] r h = cc
strip_prefix_sound (d ∷ p) (c ∷ s) r h = ground (arith, strip_prefix_sound p s r)
