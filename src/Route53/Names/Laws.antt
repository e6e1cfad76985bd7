-- ===== src/Route53/Names/Laws.antt =====
-- Native ids are parsed back, and a dot is put where it was taken.
use formae_plugin_aws.Prelude.{
  ◌≡◌, refl, inl, inr, arith, false, some, [], ◌∷◌, ◌++◌, Bool-cases, Option-cases, All-append, ◌∙◌,
  ap,
}
use formae_plugin_aws.Text.{Text, codes, ◌===◌, strip_suffix, has_suffix, trim_suffix}
use formae_plugin_aws.Text.Equality.{eq_iff}
use formae_plugin_aws.Text.Split.{Lacks, split_n3-join}
use formae_plugin_aws.Route53.Names.{with_dot, native_id, target_of_parts, parse_native_id}

with_dot-Lacks : (name : Text) → Lacks b'|' name → Lacks b'|' (with_dot name)
unfolding with_dot
with_dot-Lacks name h = elim (Bool-cases (has_suffix (codes ".") name)) [
  | inl e ↦ rw (with_dot, e) h
  | inr e ↦ rw (with_dot, e) (All-append _ name (codes ".") h (λ x. ground arith, tt))
]

-- A native id that is made of a zone, a name and a type is parsed back into them, the name with its
-- trailing dot, where zone and name have no bar.
pub parse_native_id-native_id :
    (zone name record_type : Text)
    → Lacks b'|' zone
    → Lacks b'|' name
    → parse_native_id (native_id zone name record_type)
      ≡ some (record { zone = zone; name = with_dot name; record_type = record_type })
unfolding parse_native_id native_id
parse_native_id-native_id zone name record_type hz hn =
    ap target_of_parts
      (split_n3-join b'|' zone (with_dot name) record_type hz (with_dot-Lacks name hn))

strip_suffix-append : (s : Text) → strip_suffix (codes ".") (s ++ codes ".") ≡ some s
unfolding strip_suffix ◌===◌
strip_suffix-append [] = refl
strip_suffix-append (c ∷ s) =
    ground (arith, strip_suffix-append s, eq_iff (c ∷ (s ++ codes ".")) (codes "."))

pub strip_suffix_sound : (s r : Text) → strip_suffix (codes ".") s ≡ some r → s ≡ r ++ codes "."
unfolding strip_suffix ◌===◌
strip_suffix_sound [] r h = ground arith
strip_suffix_sound (c ∷ s) r h = elim (Option-cases (strip_suffix (codes ".") s)) [
  | inl e ↦ ground (arith, eq_iff (c ∷ s) (codes "."))
  | inr (t, e) ↦ ground (arith, eq_iff (c ∷ s) (codes "."), strip_suffix_sound s t e)
]

pub trim_suffix-append : (s : Text) → trim_suffix (codes ".") (s ++ codes ".") ≡ s
trim_suffix-append s = rw (trim_suffix, strip_suffix-append s) refl

-- A name that ends in one dot, and is cut before it and dotted again, is the same name.
pub with_dot-trim_suffix :
    (r : Text)
    → has_suffix (codes ".") r ≡ false
    → with_dot (trim_suffix (codes ".") (r ++ codes ".")) ≡ r ++ codes "."
unfolding with_dot
with_dot-trim_suffix r h = ap with_dot (trim_suffix-append r) ∙ rw (with_dot, h) refl
