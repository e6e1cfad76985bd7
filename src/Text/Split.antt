-- ===== src/Text/Split.antt =====
-- Cutting and joining texts at a separator.
use formae_plugin_aws.Prelude.{ℕ, ◌≡◌, refl, ◌≢◌, List, [], ◌∷◌, ◌++◌, some, arith, All, append-nil}
use formae_plugin_aws.Text.{Text, cut, split, split_n3, join, join_rest, push_part}

abbrev pub Lacks : ℕ → Text → Type 0
Lacks sep = All (λ c. c ≢ sep)

-- A part without the separator is what `cut` finds before it.
pub cut-append : (sep : ℕ) (p r : Text) → Lacks sep p → cut sep (p ++ sep ∷ r) ≡ (p, some r)
unfolding cut
cut-append sep [] r h = ground arith
cut-append sep (c ∷ p) r (ne, h) = ground (arith, cut-append sep p r h)

pub split_n3-join :
    (sep : ℕ) (a b c : Text)
    → Lacks sep a
    → Lacks sep b
    → split_n3 sep (a ++ sep ∷ (b ++ sep ∷ c)) ≡ a ∷ b ∷ c ∷ []
unfolding split_n3
split_n3-join sep a b c ha hb =
    ground (arith, cut-append sep a (b ++ sep ∷ c) ha, cut-append sep b c hb)

push_part-ne-nil : (c : ℕ) (ps : List Text) → push_part c ps ≢ []
push_part-ne-nil c [] h = cc
push_part-ne-nil c (p ∷ ps) h = cc

split-ne-nil : (sep : ℕ) (s : Text) → split sep s ≢ []
unfolding split
split-ne-nil sep [] h = cc
split-ne-nil sep (c ∷ s) h = ground (arith, push_part-ne-nil c (split sep s))

join-push_part :
    (sep c : ℕ) (ps : List Text) → join (sep ∷ []) (push_part c ps) ≡ c ∷ join (sep ∷ []) ps
unfolding join
join-push_part sep c [] = refl
join-push_part sep c (p ∷ ps) = refl

join_rest-ne_nil :
    (sep : ℕ) (ps : List Text) → ps ≢ [] → join_rest (sep ∷ []) ps ≡ sep ∷ join (sep ∷ []) ps
unfolding join
join_rest-ne_nil sep [] h = absurd (h refl)
join_rest-ne_nil sep (p ∷ ps) h = refl

join-empty : (sep : Text) (ps : List Text) → join sep ([] ∷ ps) ≡ join_rest sep ps
unfolding join
join-empty sep ps = refl

-- Joining what a split gives spells the text again.
join-split : (sep : ℕ) (s : Text) → join (sep ∷ []) (split sep s) ≡ s
unfolding split
join-split sep [] = unfold join in refl
join-split sep (c ∷ s) = ground (
  arith,
  join-split sep s,
  join-push_part sep c (split sep s),
  join_rest-ne_nil sep (split sep s) (split-ne-nil sep s),
  join-empty (sep ∷ []) (split sep s),
)

pub split_plain : (sep : ℕ) (p : Text) → Lacks sep p → split sep p ≡ p ∷ []
unfolding split
split_plain sep [] h = refl
split_plain sep (c ∷ p) (ne, h) = ground (arith, split_plain sep p h)

pub split-append : (sep : ℕ) (p r : Text) → Lacks sep p → split sep (p ++ sep ∷ r) ≡ p ∷ split sep r
unfolding split
split-append sep [] r h = ground arith
split-append sep (c ∷ p) r (ne, h) = ground (arith, split-append sep p r h)

-- Splitting a join gives the parts back.
pub split-join :
    (sep : ℕ) (p : Text) (ps : List Text)
    → Lacks sep p
    → All (Lacks sep) ps
    → split sep (join (sep ∷ []) (p ∷ ps)) ≡ p ∷ ps
unfolding join
split-join sep p [] h hs = rw append-nil (split_plain sep p h)
split-join sep p (q ∷ ps) h (hq, hs) =
    cc (split-append sep p (q ++ join_rest (sep ∷ []) ps) h, split-join sep q ps hq hs)

pub split-Lacks : (sep : ℕ) (s : Text) → All (Lacks sep) (split sep s)
unfolding split
split-Lacks sep [] = (tt, tt)
split-Lacks sep (c ∷ s) = ground (arith, split-Lacks sep s)
