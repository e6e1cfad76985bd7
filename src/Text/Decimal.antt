-- ===== src/Text/Decimal.antt =====
-- `strconv.ParseInt(s, 10, 64)` and the verb `%d`, over int64 values. The printing loop takes fuel;
-- one more than the number is enough, since each round divides by ten.
use formae_plugin_aws.Prelude.Int.{ℤ, pos, negsuc, pos_part, neg_part}
use formae_plugin_aws.Prelude.{
  ℕ, zero, suc, ◌+◌, ◌-◌, ◌*◌, ◌/◌, ◌%◌, ◌≤◌, ◌<◌, ◌≡◌, refl, ◌≢◌, ◌&&◌, Option, none, some, [],
  ◌∷◌, ◌++◌, arith, ltb, leb, ◌==◌, if◌then◌else◌, append-nil, append_assoc, All, All-append,
  Bool-cases, inl, inr, ◌∙◌, subst,
}
use mathlib.Core.List.{concat-ne-nil}
use formae_plugin_aws.Text.{Text}

digits : ℕ → ℕ → Text
digits zero n = []
digits (suc f) n =
    let rest = digits f (n / 10) in
    if ltb n 10 then (b'0' + n) ∷ [] else rest ++ (b'0' + n % 10) ∷ []

unfoldable pub format_int : ℤ → Text
unfolding digits
format_int (pos n) = digits (suc n) n
format_int (negsuc n) = b'-' ∷ digits (suc (suc n)) (suc n)

scan : Text → ℕ → Option ℕ
scan [] n = some n
scan (c ∷ s) n = if leb b'0' c && leb c b'9' then scan s (n * 10 + (c - b'0')) else none

-- A sign alone, or nothing, is no number.
scan_unsigned : Text → Option ℕ
unfolding scan
scan_unsigned [] = none
scan_unsigned (c ∷ s) = scan (c ∷ s) 0

abbrev min_i64_magnitude : ℕ
min_i64_magnitude = 9223372036854775808

positive : Option ℕ → Option ℤ
positive none = none
positive (some n) = if ltb n min_i64_magnitude then some (pos n) else none

abbrev negate : ℕ → ℤ
negate zero = pos 0
negate (suc n) = negsuc n

negative : Option ℕ → Option ℤ
negative none = none
negative (some n) = if leb n min_i64_magnitude then some (negate n) else none

-- `none` stands for every error of ParseInt, of the syntax and of the range.
unfoldable pub parse_int : Text → Option ℤ
unfolding scan_unsigned positive negative
parse_int [] = none
parse_int (c ∷ s) =
    if c == b'-'
    then negative (scan_unsigned s)
    else if c == b'+'
    then positive (scan_unsigned s)
    else positive (scan_unsigned (c ∷ s))

scan-last : (n : ℕ) (t : Text) → scan ((b'0' + n % 10) ∷ t) (n / 10) ≡ scan t n
unfolding scan
scan-last n t = ground arith

scan-small : (n : ℕ) (t : Text) → n < 10 → scan ((b'0' + n) ∷ t) 0 ≡ scan t n
unfolding scan
scan-small n t h = ground arith

scan-digits : (f n : ℕ) (t : Text) → n < f → scan (digits f n ++ t) 0 ≡ scan t n
unfolding digits
scan-digits zero n t h = absurd (omega arith)
scan-digits (suc f) n t h = elim (Bool-cases (ltb n 10)) [
  | inl small ↦ rw small (scan-small n t (ground arith))
  | inr big ↦
      rw (big, append_assoc)
        (scan-digits f (n / 10) ((b'0' + n % 10) ∷ t) (ground arith) ∙ scan-last n t)
]

digits-ne-nil : (f n : ℕ) → digits (suc f) n ≢ []
unfolding digits
digits-ne-nil f n h = elim (Bool-cases (ltb n 10)) [
  | inl small ↦ ground arith
  | inr big ↦ concat-ne-nil (b'0' + n % 10) (digits f (n / 10)) (rw big at h)
]

scan_unsigned-scan : (s : Text) → s ≢ [] → scan_unsigned s ≡ scan s 0
unfolding scan_unsigned
scan_unsigned-scan [] h = absurd (h refl)
scan_unsigned-scan (c ∷ s) h = refl

scan_unsigned-digits : (n : ℕ) → scan_unsigned (digits (suc n) n) ≡ some n
scan_unsigned-digits n =
    scan_unsigned-scan _ (digits-ne-nil n n)
    ∙ subst (λ s. scan s 0 ≡ some n) (append-nil (digits (suc n) n))
        (unfold scan in scan-digits (suc n) n [] (omega arith))

-- The first character of a number without a sign is a digit.
abbrev StartsWithDigit : Text → Type 0
StartsWithDigit [] = ⊥
StartsWithDigit (c ∷ s) = b'0' ≤ c

StartsWithDigit-append : (s t : Text) → StartsWithDigit s → StartsWithDigit (s ++ t)
StartsWithDigit-append [] t h = absurd h
StartsWithDigit-append (c ∷ s) t h = h

digits-StartsWithDigit : (f n : ℕ) → n < f → StartsWithDigit (digits f n)
unfolding digits
digits-StartsWithDigit zero n h = absurd (omega arith)
digits-StartsWithDigit (suc f) n h = elim (Bool-cases (ltb n 10)) [
  | inl small ↦ rw small (omega arith)
  | inr big ↦ rw big (
      StartsWithDigit-append (digits f (n / 10)) _
        (digits-StartsWithDigit f (n / 10) (ground arith)))
]

parse_int_unsigned : (s : Text) → StartsWithDigit s → parse_int s ≡ positive (scan_unsigned s)
unfolding parse_int
parse_int_unsigned [] h = absurd h
parse_int_unsigned (c ∷ s) h = ground arith

abbrev pub IsInt64 : ℤ → Type 0
IsInt64 a = (pos_part a < min_i64_magnitude) × (neg_part a ≤ min_i64_magnitude)

-- Every int64 is read back from its decimal print.
pub parse_int-format_int : (a : ℤ) → IsInt64 a → parse_int (format_int a) ≡ some a
unfolding format_int
parse_int-format_int (pos n) h =
    parse_int_unsigned _ (digits-StartsWithDigit (suc n) n (omega arith))
    ∙ rw (scan_unsigned-digits n) (unfold positive in ground arith)
parse_int-format_int (negsuc n) h =
    unfold parse_int in rw (scan_unsigned-digits (suc n)) (ground arith)

digits-above : (f n : ℕ) → All (λ c. 48 ≤ c) (digits f n)
unfolding digits
digits-above zero n = tt
digits-above (suc f) n = elim (Bool-cases (ltb n 10)) [
  | inl small ↦ rw small (omega arith)
  | inr big ↦
      rw big
        (All-append (λ c. 48 ≤ c) (digits f (n / 10)) _ (digits-above f (n / 10)) (omega arith))
]

no_slash : (s : Text) → All (λ c. 48 ≤ c) s → All (λ c. c ≢ b'/') s
no_slash [] h = tt
no_slash (c ∷ s) (h, hs) = (λ e. ground arith, no_slash s hs)

-- A printed number holds no "/".
pub format_int-no_slash : (a : ℤ) → All (λ c. c ≢ b'/') (format_int a)
unfolding format_int
format_int-no_slash (pos n) = no_slash _ (digits-above (suc n) n)
format_int-no_slash (negsuc n) =
    (λ e. ground arith, no_slash _ (digits-above (suc (suc n)) (suc n)))
