-- ===== src/Decimal/RoundTrip.antt =====
-- What `formatDecimal` prints, `parseDecimal` reads back: digits first, then the fixed ten places.
use canton_dex_reference_imp.Prelude.{
  ℕ, zero, suc, ◌+◌, ◌-◌, ◌*◌, ◌/◌, ◌%◌, ◌≡◌, refl, arith, Bool, true, false, some, Bool-cases, inl,
  inr, [], ◌∷◌, ◌++◌, if◌then◌else◌, length, replicate, All, All-append, ne→==, ap, subst, le→ltb,
  ◌∙◌, ◌==◌,
}
use canton_dex_reference_imp.Prelude.Int.{ℤ, pos, negsuc, neg_ℤ}
use canton_dex_reference_imp.Prelude.Outcome.{returns}
use canton_dex_reference_imp.Prelude.Text.{Str}
use canton_dex_reference_imp.Digits.{read_digits, show, show_go, pad_start}
use canton_dex_reference_imp.Decimal.{
  scale, decimals, pad_fraction, parse_signed, parse_parts, parse_trimmed, parse_decimal,
  format_decimal,
}
use canton_dex_reference_imp.Decimal.Reading.{
  IsDigit, show-digits, read_digits-show, length-show, replicate-digits, read_digits-nil,
  read_digits-pad, length-pad_start, pad_start-digits, IsPlain, trim-plain, decimal_text-IsPlain,
  big_int-digits, split_dot-digits, split_dot-two, parse_parts-digits,
}

-- The text behind the sign.
abbrev body : ℕ → Str
body n = show (n / scale) ++ b'.' ∷ pad_start decimals (show (n % scale))

parse_signed-body :
    (neg : Bool) (c : ℕ) (s t : Str) {a b : ℕ}
    → All IsDigit (c ∷ s)
    → All IsDigit t
    → length t ≡ 10
    → read_digits 10 0 (c ∷ s) ≡ some a
    → read_digits 10 0 t ≡ some b
    → parse_signed neg ((c ∷ s) ++ b'.' ∷ t)
      ≡ some (if neg then neg_ℤ (pos (a * scale + b)) else pos (a * scale + b))
parse_signed-body neg c s t h k l e f =
    rw (split_dot-two (c ∷ s) t h k, parse_parts-digits c s t h k l e f, parse_signed)

parse_trimmed-digit :
    (c : ℕ) (s : Str) → IsDigit c → parse_trimmed (c ∷ s) ≡ parse_signed false (c ∷ s)
unfolding parse_trimmed
parse_trimmed-digit c s h = rw (ne→== c b'-' (omega arith))

parse_trimmed-minus : (s : Str) → parse_trimmed (b'-' ∷ s) ≡ parse_signed true s
unfolding parse_trimmed
parse_trimmed-minus s = refl

show_go-cons : (fuel n c : ℕ) (s : Str) → (d : ℕ) × (t : Str) × (show_go fuel n (c ∷ s) ≡ d ∷ t)
unfolding show_go
show_go-cons zero n c s = (c, s, refl)
show_go-cons (suc f) n c s = elim (Bool-cases (n / 10 == 0)) [
  | inl last ↦ (48 + n % 10, c ∷ s, rw last)
  | inr more ↦ let (d, t, e) = show_go-cons f (n / 10) (48 + n % 10) (c ∷ s) in (d, t, rw more e)
]

show-cons : (n : ℕ) → (d : ℕ) × (t : Str) × (show n ≡ d ∷ t)
unfolding show show_go
show-cons n = elim (Bool-cases (n / 10 == 0)) [
  | inl last ↦ (48 + n % 10, [], rw last)
  | inr more ↦ let (d, t, e) = show_go-cons n (n / 10) (48 + n % 10) [] in (d, t, rw more e)
]

-- The ten places behind the point.
places : ℕ → Str
places n = pad_start decimals (show (n % scale))

places-digits : (n : ℕ) → All IsDigit (places n)
unfolding places
places-digits n = pad_start-digits decimals (show (n % scale)) (show-digits (n % scale))

length-places : (n : ℕ) → length (places n) ≡ 10
unfolding places
length-places n =
    length-pad_start decimals (show (n % scale)) (length-show (n % scale) (omega arith))

read_digits-places : (n : ℕ) → read_digits 10 0 (places n) ≡ some (n % scale)
unfolding places pad_start
read_digits-places n =
    read_digits-pad (decimals - length (show (n % scale))) (show (n % scale))
    ∙ read_digits-show (n % scale)

module _ (n d : ℕ) (t : Str) (e : show (n / scale) ≡ d ∷ t) where
  first-digits : All IsDigit (d ∷ t)
  first-digits = subst (All IsDigit) e (show-digits (n / scale))

  read_digits-first : read_digits 10 0 (d ∷ t) ≡ some (n / scale)
  read_digits-first =
      subst (λ (s : Str). read_digits 10 0 s ≡ some (n / scale)) e (read_digits-show (n / scale))

  -- The text of a size is read back, under either sign.
  parse_signed-show :
      (neg : Bool)
      → parse_signed neg ((d ∷ t) ++ b'.' ∷ places n) ≡ some (if neg then neg_ℤ (pos n) else pos n)
  parse_signed-show neg =
      parse_signed-body neg d t (places n) first-digits (places-digits n) (length-places n)
        read_digits-first (read_digits-places n)
      ∙ ap (λ (k : ℕ). some (if neg then neg_ℤ (pos k) else pos k)) (omega arith)

  text-IsPlain : All IsPlain ((d ∷ t) ++ b'.' ∷ places n)
  text-IsPlain =
      All-append IsPlain (d ∷ t) (b'.' ∷ places n) (decimal_text-IsPlain (d ∷ t) first-digits)
        (omega arith, decimal_text-IsPlain (places n) (places-digits n))

  parse_decimal-unsigned : parse_decimal ((d ∷ t) ++ b'.' ∷ places n) ≡ returns (pos n)
  unfolding parse_decimal
  parse_decimal-unsigned = rw (
    trim-plain ((d ∷ t) ++ b'.' ∷ places n) text-IsPlain,
    parse_trimmed-digit d (t ++ b'.' ∷ places n) first-digits.0,
    parse_signed-show false,
  )

  parse_decimal-minus : parse_decimal (b'-' ∷ (d ∷ t) ++ b'.' ∷ places n) ≡ returns (neg_ℤ (pos n))
  unfolding parse_decimal
  parse_decimal-minus = rw (
    trim-plain (b'-' ∷ (d ∷ t) ++ b'.' ∷ places n) (omega arith, text-IsPlain),
    parse_trimmed-minus ((d ∷ t) ++ b'.' ∷ places n),
    parse_signed-show true,
  )

format_decimal-pos : (n : ℕ) → format_decimal (pos n) ≡ show (n / scale) ++ b'.' ∷ places n
unfolding format_decimal places
format_decimal-pos n = rw (le→ltb n 0 (omega arith))

format_decimal-negsuc :
    (n : ℕ) → format_decimal (negsuc n) ≡ b'-' ∷ show (suc n / scale) ++ b'.' ∷ places (suc n)
unfolding format_decimal places
format_decimal-negsuc n = refl

-- `parseDecimal` reads back every value that `formatDecimal` prints, whatever its sign and size.
pub parse_decimal-format_decimal : (x : ℤ) → parse_decimal (format_decimal x) ≡ returns x
parse_decimal-format_decimal (pos n) =
    let (d, t, e) = show-cons (n / scale) in
    rw (format_decimal-pos n, e) (parse_decimal-unsigned n d t e)
parse_decimal-format_decimal (negsuc n) =
    let (d, t, e) = show-cons (suc n / scale) in
    rw (format_decimal-negsuc n, e) (parse_decimal-minus (suc n) d t e)

pad_fraction-nil : pad_fraction [] ≡ replicate 10 48
unfolding pad_fraction
pad_fraction-nil = refl

-- A text of digits with no point is a whole number.
parse_parts-whole :
    (c : ℕ) (s : Str) {a : ℕ}
    → All IsDigit (c ∷ s)
    → read_digits 10 0 (c ∷ s) ≡ some a
    → parse_parts ((c ∷ s) ∷ []) ≡ some (pos (a * scale))
unfolding parse_parts
parse_parts-whole c s {a} h e =
    rw (big_int-digits c s h e, parse_parts)
      (rw pad_fraction-nil (
        rw (big_int-digits 48 (replicate 9 48) {n = 0} (replicate-digits 10) zeros)
          (ap (λ (k : ℕ). some (pos k)) (omega arith))))
  where
    zeros : read_digits 10 0 (replicate 10 48) ≡ some 0
    zeros = read_digits-pad 10 [] ∙ read_digits-nil

module _ (n d : ℕ) (t : Str) (e : show n ≡ d ∷ t) where
  whole-digits : All IsDigit (d ∷ t)
  whole-digits = subst (All IsDigit) e (show-digits n)

  parse_signed-whole :
      (neg : Bool)
      → parse_signed neg (d ∷ t) ≡ some (if neg then neg_ℤ (pos (n * scale)) else pos (n * scale))
  parse_signed-whole neg = rw (
    split_dot-digits (d ∷ t) whole-digits,
    parse_parts-whole d t whole-digits
        (subst (λ (s : Str). read_digits 10 0 s ≡ some n) e (read_digits-show n)),
    parse_signed,
  )

  parse_decimal-digits : parse_decimal (d ∷ t) ≡ returns (pos (n * scale))
  unfolding parse_decimal
  parse_decimal-digits = rw (
    trim-plain (d ∷ t) (decimal_text-IsPlain (d ∷ t) whole-digits),
    parse_trimmed-digit d t whole-digits.0,
    parse_signed-whole false,
  )

  parse_decimal-minus_digits : parse_decimal (b'-' ∷ d ∷ t) ≡ returns (neg_ℤ (pos (n * scale)))
  unfolding parse_decimal
  parse_decimal-minus_digits = rw (
    trim-plain (b'-' ∷ d ∷ t) (omega arith, decimal_text-IsPlain (d ∷ t) whole-digits),
    parse_trimmed-minus (d ∷ t),
    parse_signed-whole true,
  )

pub parse_decimal-show : (n : ℕ) → parse_decimal (show n) ≡ returns (pos (n * scale))
parse_decimal-show n = let (d, t, e) = show-cons n in rw e (parse_decimal-digits n d t e)

pub parse_decimal-show_neg :
    (n : ℕ) → parse_decimal (b'-' ∷ show n) ≡ returns (neg_ℤ (pos (n * scale)))
parse_decimal-show_neg n = let (d, t, e) = show-cons n in rw e (parse_decimal-minus_digits n d t e)
