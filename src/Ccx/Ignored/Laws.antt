-- ===== src/Ccx/Ignored/Laws.antt =====
-- Ignored fields are gone after a read, and nothing else is.
use formae_plugin_aws.Prelude.{
  ◌≡◌, refl, Bool, false, ◌||◌, none, List, [], ◌∷◌, ◌++◌, map, arith, All, if◌then◌else◌,
}
use formae_plugin_aws.Text.{Text, codes, ◌===◌, strip_prefix}
use formae_plugin_aws.Text.Split.{Lacks, split_plain}
use formae_plugin_aws.Json.{Fields, get, remove}
use formae_plugin_aws.Json.Laws.{get-remove}
use formae_plugin_aws.Ccx.Ignored.{remove_path, field_path, strip_ignored_fields, removed}

-- a path to a key of the map itself
abbrev pub top_level : Text → Text
top_level k = codes "$." ++ k

field_path-top_level : (k : Text) → Lacks b'.' k → field_path (top_level k) ≡ k ∷ []
unfolding field_path
field_path-top_level k h = unfold strip_prefix in split_plain b'.' k h

unfoldable pub among : Text → List Text → Bool
among j [] = false
among j (k ∷ ks) = k === j || among j ks

remove_path-single : (k : Text) (m : Fields) → remove_path (k ∷ []) m ≡ removed (remove k m)
unfolding remove_path
remove_path-single k m = refl

strip_ignored_fields-cons :
    (k : Text) (ks : List Text) (m : Fields)
    → Lacks b'.' k
    → strip_ignored_fields (top_level k ∷ ks) m ≡ strip_ignored_fields ks (remove k m)
unfolding strip_ignored_fields
strip_ignored_fields-cons k ks m h = rw (strip_ignored_fields, field_path-top_level k h)

-- Stripping top-level fields never fails, removes exactly those and keeps every other key.
pub strip_ignored_fields-top_level :
    (ks : List Text) (m : Fields) (j : Text)
    → All (Lacks b'.') ks
    → ((strip_ignored_fields (map top_level ks) m).1 ≡ none)
      × (get j (strip_ignored_fields (map top_level ks) m).0
          ≡ (if among j ks then none else get j m))
unfolding among
strip_ignored_fields-top_level [] m j h = unfold strip_ignored_fields in (refl, refl)
strip_ignored_fields-top_level (k ∷ ks) m j (h, hs) =
    let (ok, rest) = strip_ignored_fields-top_level ks (remove k m) j hs in
    rw (strip_ignored_fields-cons k (map top_level ks) m h) (ok, ground (arith, get-remove k j m))
