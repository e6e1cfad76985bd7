-- ===== src/Text.antt =====
-- Go strings as lists of character codes, with the functions of Go's packages `strings`, `strconv`
-- and `fmt` that the plugin calls. The separators and prefixes are ASCII, so a list of code points
-- is cut at the same places as the bytes are.
pub mod Equality
pub mod Split
pub mod Decimal
pub mod LastIndex
use Prim.Native.Char.{code}
use formae_plugin_aws.Prelude.{
  ℕ, zero, suc, String, Bool, true, false, ◌&&◌, ◌||◌, Option, none, some, List, [], ◌∷◌, ◌++◌,
  ◌==◌, if◌then◌else◌,
}

abbrev pub Text : Type 0
Text = List ℕ

abbrev pub codes : String → Text
codes String.[] = []
codes (String.◌∷◌ c s) = code c ∷ codes s

infix 50 ◌===◌
unfoldable pub ◌===◌ : Text → Text → Bool
[] === [] = true
[] === (_ ∷ _) = false
(_ ∷ _) === [] = false
(c ∷ s) === (d ∷ t) = c == d && s === t

abbrev pub is_empty : Text → Bool
is_empty [] = true
is_empty (_ ∷ _) = false

-- strings.HasPrefix(s, p), with the prefix first; `strip_prefix` also returns what follows it.
unfoldable pub strip_prefix : Text → Text → Option Text
strip_prefix [] s = some s
strip_prefix (_ ∷ _) [] = none
strip_prefix (d ∷ p) (c ∷ s) = if d == c then strip_prefix p s else none

abbrev pub has_prefix : Text → Text → Bool
has_prefix p s = elim (strip_prefix p s) [ none ↦ false | some _ ↦ true ]

-- strings.TrimPrefix(s, p)
abbrev pub trim_prefix : Text → Text → Text
trim_prefix p s = elim (strip_prefix p s) [ none ↦ s | some r ↦ r ]

-- strings.HasSuffix(s, t) and strings.TrimSuffix(s, t), with the suffix first
unfoldable pub strip_suffix : Text → Text → Option Text
strip_suffix t [] = if is_empty t then some [] else none
strip_suffix t (c ∷ s) =
    let rest = strip_suffix t s in
    if (c ∷ s) === t then some [] else elim rest [ none ↦ none | some r ↦ some (c ∷ r) ]

abbrev pub has_suffix : Text → Text → Bool
has_suffix t s = elim (strip_suffix t s) [ none ↦ false | some _ ↦ true ]

abbrev pub trim_suffix : Text → Text → Text
trim_suffix t s = elim (strip_suffix t s) [ none ↦ s | some r ↦ r ]

-- strings.Contains(s, t)
unfoldable pub contains : Text → Text → Bool
unfolding strip_prefix
contains t [] = is_empty t
contains t (c ∷ s) = has_prefix t (c ∷ s) || contains t s

-- strings.Cut(s, sep): the text before the first separator, and what follows it if there is one.
unfoldable pub cut : ℕ → Text → Text × Option Text
cut sep [] = ([], none)
cut sep (c ∷ s) =
    let (before, after) = cut sep s in if c == sep then ([], some s) else (c ∷ before, after)

-- The parts of a split, never none of them: the first part and the others.
abbrev pub push_part : ℕ → List Text → List Text
push_part c [] = (c ∷ []) ∷ []
push_part c (p ∷ ps) = (c ∷ p) ∷ ps

-- strings.Split(s, sep)
unfoldable pub split : ℕ → Text → List Text
split sep [] = [] ∷ []
split sep (c ∷ s) = let rest = split sep s in if c == sep then [] ∷ rest else push_part c rest

-- strings.SplitN(s, sep, 3): at most two cuts, from the left.
unfoldable pub split_n3 : ℕ → Text → List Text
unfolding cut
split_n3 sep s =
    let (a, more) = cut sep s in
    elim more [
      | none ↦ a ∷ []
      | some r ↦
          let (b, last) = cut sep r in elim last [ none ↦ a ∷ b ∷ [] | some c ↦ a ∷ b ∷ c ∷ [] ]
    ]

-- strings.Join(parts, sep)
unfoldable pub join_rest : Text → List Text → Text
join_rest sep [] = []
join_rest sep (p ∷ ps) = sep ++ p ++ join_rest sep ps

unfoldable pub join : Text → List Text → Text
unfolding join_rest
join sep [] = []
join sep (p ∷ ps) = p ++ join_rest sep ps

-- s[:strings.LastIndex(s, sep)] and s[strings.LastIndex(s, sep)+1:], or `none` for index -1.
unfoldable pub cut_last : ℕ → Text → Option (Text × Text)
cut_last sep [] = none
cut_last sep (c ∷ s) = elim (cut_last sep s) [
  | some (before, after) ↦ some (c ∷ before, after)
  | none ↦ if c == sep then some ([], s) else none
]

-- the last of a list of parts, `parts[len(parts)-1]`
unfoldable pub last_part : Text → List Text → Text
last_part d [] = d
last_part d (p ∷ ps) = last_part p ps
