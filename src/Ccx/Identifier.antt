-- ===== src/Ccx/Identifier.antt =====
-- normalizeCompositeIdentifier of pkg/ccx/client.go, and IdFrom of pkg/arn/arn.go.
pub mod Laws
use formae_plugin_aws.Prelude.{ℕ, Option, none, some, List, [], ◌∷◌, map, if◌then◌else◌}
use formae_plugin_aws.Text.{Text, codes, has_prefix, cut_last, split, join, last_part}

-- the part after the last "/" of an ARN, any other part as it is
unfoldable pub shorten_part : Text → Text
shorten_part part =
    let short : Text = elim (cut_last b'/' part) [ none ↦ part | some (_, name) ↦ name ] in
    if has_prefix (codes "arn:aws:") part then short else part

unfoldable pub normalize_parts : Text → List Text → Text
unfolding shorten_part
normalize_parts identifier [] = identifier
normalize_parts identifier (p ∷ []) = identifier
normalize_parts identifier (p ∷ q ∷ ps) = join (codes "|") (p ∷ map shorten_part (q ∷ ps))

unfoldable pub normalize_composite_identifier : Text → Text
unfolding normalize_parts
normalize_composite_identifier identifier = normalize_parts identifier (split b'|' identifier)

abbrev id_from_slash : Text → List Text → Text
id_from_slash arn (a ∷ b ∷ []) = b
id_from_slash arn _ = last_part [] (split b':' arn)

unfoldable pub id_from : Text → Text
id_from arn = id_from_slash arn (split b'/' arn)
