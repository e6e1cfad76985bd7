-- ===== src/Text/LastIndex.antt =====
-- Cutting a text at its last separator.
use formae_plugin_aws.Prelude.{
  ℕ, ◌≡◌, refl, [], ◌∷◌, ◌++◌, none, some, arith, Option-cases, inl, inr,
}
use formae_plugin_aws.Text.{Text, cut_last}
use formae_plugin_aws.Text.Split.{Lacks}

pub cut_last-none : (sep : ℕ) (s : Text) → Lacks sep s → cut_last sep s ≡ none
unfolding cut_last
cut_last-none sep [] h = refl
cut_last-none sep (c ∷ s) (ne, h) = ground (arith, cut_last-none sep s h)

-- What follows the last separator holds none.
pub cut_last-append :
    (sep : ℕ) (p r : Text) → Lacks sep r → cut_last sep (p ++ sep ∷ r) ≡ some (p, r)
unfolding cut_last
cut_last-append sep [] r h = ground (arith, cut_last-none sep r h)
cut_last-append sep (c ∷ p) r h = ground (arith, cut_last-append sep p r h)

pub cut_last_sound : (sep : ℕ) (s p r : Text) → cut_last sep s ≡ some (p, r) → s ≡ p ++ sep ∷ r
unfolding cut_last
cut_last_sound sep [] p r h = cc
cut_last_sound sep (c ∷ s) p r h = elim (Option-cases (cut_last sep s)) [
  | inl e ↦ ground arith
  | inr ((q, t), e) ↦ ground (arith, cut_last_sound sep s q t e)
]

-- Without a cut there is no separator.
cut_last_complete : (sep : ℕ) (s : Text) → cut_last sep s ≡ none → Lacks sep s
unfolding cut_last
cut_last_complete sep [] h = tt
cut_last_complete sep (c ∷ s) h = ground (arith, cut_last_complete sep s)

pub cut_last-Lacks : (sep : ℕ) (s p r : Text) → cut_last sep s ≡ some (p, r) → Lacks sep r
unfolding cut_last
cut_last-Lacks sep [] p r h = cc
cut_last-Lacks sep (c ∷ s) p r h = elim (Option-cases (cut_last sep s)) [
  | inl e ↦ ground (arith, cut_last_complete sep s e)
  | inr ((q, t), e) ↦ ground (arith, cut_last-Lacks sep s q t e)
]
