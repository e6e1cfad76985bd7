-- ===== src/Ccx/Identifier/Laws.antt =====
-- Identifiers after normalisation.
use formae_plugin_aws.Prelude.{
  ℕ, ◌≡◌, refl, some, List, [], ◌∷◌, ◌++◌, map, arith, All, Bool-cases, inl, inr, Option-cases,
  append-nil, ◌⊎◌, subst, ◌∙◌, ap, sym, All-append, ◌≤◌, length,
}
use formae_plugin_aws.Text.{
  Text, codes, has_prefix, strip_prefix, cut_last, split, join, last_part, push_part,
}
use formae_plugin_aws.Text.Split.{Lacks, split-join, split-Lacks, split_plain, split-append}
use formae_plugin_aws.Text.LastIndex.{
  cut_last-append, cut_last-none, cut_last-Lacks, cut_last_sound,
}
use formae_plugin_aws.Ccx.Identifier.{
  shorten_part, normalize_parts, normalize_composite_identifier, id_from,
}

shorten_part_plain : (p : Text) → Lacks b'/' p → shorten_part p ≡ p
unfolding shorten_part
shorten_part_plain p h = ground (arith, cut_last-none b'/' p h)

shorten_part-cases :
    (p : Text)
    → (shorten_part p ≡ p) ⊎ ((q r : Text) × (cut_last b'/' p ≡ some (q, r)) × (shorten_part p ≡ r))
unfolding shorten_part
shorten_part-cases p = elim (Option-cases (cut_last b'/' p)) [
  | inl e ↦ inl (ground arith)
  | inr ((q, r), e) ↦ elim (Bool-cases (has_prefix (codes "arn:aws:") p)) [
    | inl arn ↦ inr (q, r, e, ground arith)
    | inr other ↦ inl (ground arith)
  ]
]

shorten_part_idem : (p : Text) → shorten_part (shorten_part p) ≡ shorten_part p
shorten_part_idem p = elim (shorten_part-cases p) [
  | inl same ↦ rw same same
  | inr (q, r, e, short) ↦ rw short (shorten_part_plain r (cut_last-Lacks b'/' p q r e))
]

Lacks-suffix : (c : ℕ) (p r : Text) → Lacks c (p ++ r) → Lacks c r
Lacks-suffix c [] r h = h
Lacks-suffix c (d ∷ p) r (ne, h) = Lacks-suffix c p r h

shorten_part-Lacks : (p : Text) → Lacks b'|' p → Lacks b'|' (shorten_part p)
shorten_part-Lacks p h = elim (shorten_part-cases p) [
  | inl same ↦ rw same h
  | inr (q, r, e, short) ↦
      rw short
        (Lacks-suffix b'|' q (b'/' ∷ r) (subst (Lacks b'|') (cut_last_sound b'/' p q r e) h)).1
]

map-shorten_part-Lacks :
    (ps : List Text) → All (Lacks b'|') ps → All (Lacks b'|') (map shorten_part ps)
map-shorten_part-Lacks [] h = tt
map-shorten_part-Lacks (p ∷ ps) (h, hs) = (shorten_part-Lacks p h, map-shorten_part-Lacks ps hs)

map-shorten_part_idem :
    (ps : List Text) → map shorten_part (map shorten_part ps) ≡ map shorten_part ps
map-shorten_part_idem [] = refl
map-shorten_part_idem (p ∷ ps) = rw (shorten_part_idem p, map-shorten_part_idem ps)

normalize-join :
    (p q : Text) (ps : List Text)
    → Lacks b'|' p
    → All (Lacks b'|') (q ∷ ps)
    → normalize_composite_identifier (join (codes "|") (p ∷ q ∷ ps))
      ≡ join (codes "|") (p ∷ map shorten_part (q ∷ ps))
unfolding normalize_composite_identifier
normalize-join p q ps h hs = rw (split-join b'|' p (q ∷ ps) h hs)

normalize_of_split :
    (s : Text) (ps : List Text)
    → split b'|' s ≡ ps
    → normalize_composite_identifier s ≡ normalize_parts s ps
unfolding normalize_composite_identifier
normalize_of_split s ps e = rw e

normalize-split :
    (s : Text) (ps : List Text)
    → split b'|' s ≡ ps
    → All (Lacks b'|') ps
    → normalize_composite_identifier (normalize_composite_identifier s)
      ≡ normalize_composite_identifier s
unfolding normalize_parts
normalize-split s [] e h = rw (normalize_of_split s [] e) (normalize_of_split s [] e)
normalize-split s (p ∷ []) e h =
    rw (normalize_of_split s (p ∷ []) e) (normalize_of_split s (p ∷ []) e)
normalize-split s (p ∷ q ∷ ps) e (h, hs) = rw (normalize_of_split s (p ∷ q ∷ ps) e) (
    normalize-join p (shorten_part q) (map shorten_part ps) h (map-shorten_part-Lacks (q ∷ ps) hs)
    ∙ ap (λ qs. join (codes "|") (p ∷ qs)) (map-shorten_part_idem (q ∷ ps)))

-- Normalising an identifier a second time changes nothing, whatever the identifier.
normalize_composite_identifier_idem :
    (s : Text)
    → normalize_composite_identifier (normalize_composite_identifier s)
      ≡ normalize_composite_identifier s
normalize_composite_identifier_idem s = normalize-split s _ refl (split-Lacks b'|' s)

shorten_part-arn :
    (path name : Text)
    → Lacks b'/' name
    → shorten_part (codes "arn:aws:" ++ (path ++ b'/' ∷ name)) ≡ name
unfolding shorten_part strip_prefix
shorten_part-arn path name h =
    ground (arith, cut_last-append b'/' (codes "arn:aws:" ++ path) name h)

join-pair : (p q : Text) → join (codes "|") (p ∷ q ∷ []) ≡ p ++ b'|' ∷ q
unfolding join
join-pair p q = rw append-nil

-- An ARN of the partition `aws` in the second part becomes the name behind its last "/"; the first
-- part stays as it is.
normalize_composite_identifier_arn :
    (first path name : Text)
    → Lacks b'|' first
    → Lacks b'|' (path ++ b'/' ∷ name)
    → Lacks b'/' name
    → normalize_composite_identifier (first ++ b'|' ∷ (codes "arn:aws:" ++ (path ++ b'/' ∷ name)))
      ≡ first ++ b'|' ∷ name
normalize_composite_identifier_arn first path name hf hp hs =
    let arn : Text = codes "arn:aws:" ++ (path ++ b'/' ∷ name) in
    ap normalize_composite_identifier (sym (join-pair first arn))
    ∙ normalize-join first arn [] hf (All-append _ (codes "arn:aws:") _ (omega arith) hp, tt)
    ∙ join-pair first (shorten_part arn)
    ∙ ap (λ n. first ++ b'|' ∷ n) (shorten_part-arn path name hs)

last_part-push_part :
    (c : ℕ) (d : Text) (ps : List Text)
    → 2 ≤ length ps
    → last_part d (push_part c ps) ≡ last_part d ps
unfolding last_part
last_part-push_part c d [] h = absurd (omega arith)
last_part-push_part c d (p ∷ []) h = absurd (omega arith)
last_part-push_part c d (p ∷ q ∷ ps) h = refl

length-push_part : (c : ℕ) (ps : List Text) → length ps ≤ length (push_part c ps)
length-push_part c [] = omega arith
length-push_part c (p ∷ ps) = omega arith

length-split-pos : (sep : ℕ) (s : Text) → 1 ≤ length (split sep s)
unfolding split
length-split-pos sep [] = omega arith
length-split-pos sep (c ∷ s) =
    ground (arith, length-push_part c (split sep s), length-split-pos sep s)

length-split : (sep : ℕ) (p r : Text) → 2 ≤ length (split sep (p ++ sep ∷ r))
unfolding split
length-split sep [] r = ground (arith, length-split-pos sep r)
length-split sep (c ∷ p) r =
    ground (arith, length-split sep p r, length-push_part c (split sep (p ++ sep ∷ r)))

last_part-split :
    (sep : ℕ) (p r d : Text) → Lacks sep r → last_part d (split sep (p ++ sep ∷ r)) ≡ r
unfolding split last_part
last_part-split sep [] r d h = ground (arith, split_plain sep r h)
last_part-split sep (c ∷ p) r d h = ground (
  arith,
  last_part-split sep p r [] h,
  last_part-split sep p r d h,
  last_part-push_part c d (split sep (p ++ sep ∷ r)) (length-split sep p r),
)

-- The id of an ARN is what follows its only "/", or, if it has none, what follows its last ":"; here
-- of names without either.
id_from_lem :
    (before name : Text)
    → Lacks b'/' before
    → Lacks b'/' name
    → Lacks b':' name
    → (id_from (before ++ b'/' ∷ name) ≡ name) × (id_from (before ++ b':' ∷ name) ≡ name)
unfolding id_from
id_from_lem before name hb hn hc = (
  rw (split-append b'/' before name hb, split_plain b'/' name hn),
  rw (split_plain b'/' (before ++ b':' ∷ name) (All-append _ before _ hb (cc, hn)))
      (last_part-split b':' before name [] hc),
)
