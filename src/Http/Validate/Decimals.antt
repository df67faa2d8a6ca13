-- ===== src/Http/Validate/Decimals.antt =====
-- What a field that validate.ts accepts as a Daml Decimal means to services/operator-backend/src/pool/decimal.ts.
use canton_dex_reference_imp.Prelude.{
  ap, if◌then◌else◌, ℕ, zero, suc, ◌*◌, ◌+◌, ◌-◌, ◌==◌, leb, ==→eq, ne→==, ◌≡◌, refl, arith, Bool,
  true, false, and-eq-true, Bool-cases, ◌⊎◌, inl, inr, some, [], ◌∷◌, ◌++◌, length, replicate, take,
  All, All-append,
}
use canton_dex_reference_imp.Prelude.Int.{ℤ, pos, ◌+ℤ◌, ◌*ℤ◌, neg_ℤ}
use canton_dex_reference_imp.Prelude.Outcome.{returns, error, or_throw}
use canton_dex_reference_imp.Prelude.Text.{Str}
use canton_dex_reference_imp.Digits.{read_digits, split_dot}
use canton_dex_reference_imp.Decimal.{
  scale, parse_decimal, parse_signed, parse_trimmed, parse_parts, pad_fraction,
}
use canton_dex_reference_imp.Decimal.Reading.{
  IsDigit, IsPlain, read_digits-cons, replicate-digits, trim-plain, decimal_text-IsPlain,
  big_int-digits, split_dot-digits, split_dot-two,
}
use canton_dex_reference_imp.Pool.Tolerance.{
  is_digit, all_digits, fraction_digits, digits_then_fraction, is_decimal_text,
}
use canton_dex_reference_imp.Http.Validate.{is_daml_decimal}

is_digit-IsDigit : (c : ℕ) → is_digit c ≡ true → IsDigit c
is_digit-IsDigit c h = ground arith

all_digits-IsDigit : (s : Str) → all_digits s ≡ true → All IsDigit s
all_digits-IsDigit [] h = tt
all_digits-IsDigit (c ∷ s) h =
    let (d, r) = and-eq-true (is_digit c) (all_digits s) h in
    (is_digit-IsDigit c d, all_digits-IsDigit s r)

fraction_digits-IsDigit : (s : Str) → fraction_digits s ≡ true → All IsDigit s
fraction_digits-IsDigit [] h = tt
fraction_digits-IsDigit (c ∷ s) h =
    all_digits-IsDigit (c ∷ s) (and-eq-true (all_digits (c ∷ s)) (leb (length (c ∷ s)) 10) h).0

-- Digits only, or digits on both sides of one point.
abbrev IsNumeral : Str → Type 0
IsNumeral s =
    All IsDigit s ⊎ ((i : Str) × (f : Str) × (s ≡ i ++ b'.' ∷ f) × All IsDigit i × All IsDigit f)

cons-IsNumeral : (c : ℕ) (s : Str) → IsDigit c → IsNumeral s → IsNumeral (c ∷ s)
cons-IsNumeral c s d (inl h) = inl (d, h)
cons-IsNumeral c s d (inr (i, f, e, hi, hf)) = inr (c ∷ i, f, cc, (d, hi), hf)

digits_then_fraction-IsNumeral : (s : Str) → digits_then_fraction s ≡ true → IsNumeral s
digits_then_fraction-IsNumeral [] h = inl tt
digits_then_fraction-IsNumeral (c ∷ s) h = elim (Bool-cases (c == b'.')) [
  | inl point ↦ inr ([], s, cc (==→eq c b'.' point), tt, fraction_digits-IsDigit s (rw point at h))
  | inr other ↦
      let (d, r) = and-eq-true (is_digit c) (digits_then_fraction s) (rw other at h) in
      cons-IsNumeral c s (is_digit-IsDigit c d) (digits_then_fraction-IsNumeral s r)
]

read_digits-Reads : (acc : ℕ) (s : Str) → All IsDigit s → (n : ℕ) × (read_digits 10 acc s ≡ some n)
unfolding read_digits
read_digits-Reads acc [] h = (acc, refl)
read_digits-Reads acc (c ∷ s) h =
    let (n, e) = read_digits-Reads (acc * 10 + (c - 48)) s h.1 in
    (n, rw (read_digits-cons acc c s h.0) e)

take-All : (n : ℕ) (s : Str) → All IsDigit s → All IsDigit (take n s)
take-All zero s h = tt
take-All (suc n) [] h = tt
take-All (suc n) (c ∷ s) h = (h.0, take-All n s h.1)

parse_parts-whole :
    (c : ℕ) (s : Str) → All IsDigit (c ∷ s) → (z : ℤ) × (parse_parts ((c ∷ s) ∷ []) ≡ some z)
unfolding parse_parts pad_fraction
parse_parts-whole c s h =
    let (a, e) = read_digits-Reads 0 (c ∷ s) h in
    let (b, g) = read_digits-Reads 0 (replicate 10 48) (replicate-digits 10) in
    (
      pos a *ℤ pos scale +ℤ pos b,
      rw (big_int-digits c s h e, parse_parts)
          (rw (big_int-digits 48 (replicate 9 48) (replicate-digits 10) g)),
    )

parse_parts-two :
    (c : ℕ) (s : Str) (f : Str)
    → All IsDigit (c ∷ s)
    → All IsDigit f
    → (z : ℤ) × (parse_parts ((c ∷ s) ∷ f ∷ []) ≡ some z)
unfolding parse_parts pad_fraction
parse_parts-two c s [] h k =
    let (a, e) = read_digits-Reads 0 (c ∷ s) h in
    let (b, g) = read_digits-Reads 0 (replicate 10 48) (replicate-digits 10) in
    (
      pos a *ℤ pos scale +ℤ pos b,
      rw (big_int-digits c s h e, parse_parts)
          (rw (big_int-digits 48 (replicate 9 48) (replicate-digits 10) g)),
    )
parse_parts-two c s (d ∷ f) h k =
    let rest : Str = take 9 (f ++ replicate 10 48) in
    let digits =
      take-All 10 (d ∷ f ++ replicate 10 48)
        (All-append IsDigit (d ∷ f) (replicate 10 48) k (replicate-digits 10)) in
    let (a, e) = read_digits-Reads 0 (c ∷ s) h in
    let (b, g) = read_digits-Reads 0 (d ∷ rest) digits in
    (
      pos a *ℤ pos scale +ℤ pos b,
      rw (big_int-digits c s h e, parse_parts) (rw (big_int-digits d rest digits g)),
    )

-- A numeral that starts with a digit, with its parts read.
parse_parts-numeral :
    (c : ℕ) (s : Str)
    → IsDigit c
    → IsNumeral s
    → (z : ℤ) × (parse_parts (split_dot (c ∷ s)) ≡ some z)
parse_parts-numeral c s d (inl h) =
    let (z, e) = parse_parts-whole c s (d, h) in (z, rw (split_dot-digits (c ∷ s) (d, h)) e)
parse_parts-numeral c s d (inr (i, f, eq, hi, hf)) =
    let (z, e) = parse_parts-two c i f (d, hi) hf in
    (z, rw (eq, split_dot-two (c ∷ i) f (d, hi) hf) e)

numeral-IsPlain : (s : Str) → IsNumeral s → All IsPlain s
numeral-IsPlain s (inl h) = decimal_text-IsPlain s h
numeral-IsPlain s (inr (i, f, eq, hi, hf)) = rw eq (
    All-append IsPlain i (b'.' ∷ f) (decimal_text-IsPlain i hi)
      ((omega arith), decimal_text-IsPlain f hf))

decimal_text-IsNumeral :
    (c : ℕ) (s : Str) → is_decimal_text (c ∷ s) ≡ true → IsDigit c × IsNumeral s
unfolding is_decimal_text
decimal_text-IsNumeral c s h =
    let (d, r) = and-eq-true (is_digit c) (digits_then_fraction s) h in
    (is_digit-IsDigit c d, digits_then_fraction-IsNumeral s r)

parse_signed-some :
    (neg : Bool) (s : Str) {z : ℤ}
    → parse_parts (split_dot s) ≡ some z
    → parse_signed neg s ≡ some (if neg then neg_ℤ z else z)
parse_signed-some neg s e = rw (e, parse_signed)

parse_decimal-negative :
    (s : Str) → is_decimal_text s ≡ true → (z : ℤ) × (parse_decimal (b'-' ∷ s) ≡ returns z)
unfolding parse_decimal parse_trimmed is_decimal_text
parse_decimal-negative [] h = cc
parse_decimal-negative (c ∷ s) h =
    let (d, r) = decimal_text-IsNumeral c s h in
    let (z, e) = parse_parts-numeral c s d r in
    let plain : All IsPlain (b'-' ∷ c ∷ s) = (omega arith, (omega arith, numeral-IsPlain s r)) in
    let signed = parse_signed-some true (c ∷ s) e in
    (
      neg_ℤ z,
      rw (trim-plain (b'-' ∷ c ∷ s) plain)
          (ap (λ o. or_throw o (error "Cannot convert to a BigInt")) signed),
    )

parse_decimal-unsigned :
    (c : ℕ) (s : Str)
    → is_decimal_text (c ∷ s) ≡ true
    → (z : ℤ) × (parse_decimal (c ∷ s) ≡ returns z)
unfolding parse_decimal parse_trimmed
parse_decimal-unsigned c s h =
    let (d, r) = decimal_text-IsNumeral c s h in
    let (z, e) = parse_parts-numeral c s d r in
    let plain : All IsPlain (c ∷ s) = (omega arith, numeral-IsPlain s r) in
    let signed = parse_signed-some false (c ∷ s) e in
    (
      z,
      rw (trim-plain (c ∷ s) plain, ne→== c b'-' (omega arith))
          (ap (λ o. or_throw o (error "Cannot convert to a BigInt")) signed),
    )

pub daml_decimal-Reads :
    (s : Str) → is_daml_decimal s ≡ true → (z : ℤ) × (parse_decimal s ≡ returns z)
unfolding is_daml_decimal
daml_decimal-Reads [] h = cc
daml_decimal-Reads (c ∷ s) h = elim (Bool-cases (c == b'-')) [
  | inl minus ↦
      let (z, e) = parse_decimal-negative s (rw minus at h) in (z, rw (==→eq c b'-' minus) e)
  | inr other ↦ parse_decimal-unsigned c s (rw other at h)
]
