-- ===== src/Decimal/Reading.antt =====
-- Digits: what `parseDecimal` reads in the texts that `formatDecimal` and `toString` print.
use canton_dex_reference_imp.Prelude.{
  ℕ, zero, suc, ◌+◌, ◌-◌, ◌*◌, ◌/◌, ◌%◌, ◌^◌, ◌≤◌, ◌<◌, ◌≡◌, refl, arith, false, some, Bool-cases,
  inl, inr, [], ◌∷◌, ◌++◌, length, replicate, take, All, All-append, ==→eq, ==→ne, eq→==, ne→==, ap,
  sym, ◌∙◌, ◌==◌, length-append,
}
use canton_dex_reference_imp.Prelude.Int.{pos}
use canton_dex_reference_imp.Prelude.Text.{Str}
use native.Mathlib.Nat.{pow-suc}
use canton_dex_reference_imp.Digits.{
  is_space, trim, trim_start, trim_end, digit_value, read_digits, read_number, literal, prefixed,
  map_pos, big_int, show, show_go, pad_start, split_dot,
}
use canton_dex_reference_imp.Decimal.{scale, pad_fraction, parse_parts}

abbrev pub IsDigit : ℕ → Type 0
IsDigit c = (48 ≤ c) × (c ≤ 57)

digit_value-IsDigit : (c : ℕ) → IsDigit c → digit_value 10 c ≡ some (c - 48)
unfolding digit_value
digit_value-IsDigit c h = ground arith

mod_ten-IsDigit : (n : ℕ) → IsDigit (48 + n % 10)
mod_ten-IsDigit n = omega arith

pub read_digits-cons :
    (acc c : ℕ) (s : Str)
    → IsDigit c
    → read_digits 10 acc (c ∷ s) ≡ read_digits 10 (acc * 10 + (c - 48)) s
unfolding read_digits
read_digits-cons acc c s h = rw (digit_value-IsDigit c h, read_digits)

show_go-digits : (fuel n : ℕ) (s : Str) → All IsDigit s → All IsDigit (show_go fuel n s)
unfolding show_go
show_go-digits zero n s h = h
show_go-digits (suc f) n s h =
    ground (arith, mod_ten-IsDigit n, show_go-digits f (n / 10) ((48 + n % 10) ∷ s))

-- Reading what was printed gives the number, with what follows it.
read_digits-show_go :
    (fuel n : ℕ) (s : Str) → n < fuel → read_digits 10 0 (show_go fuel n s) ≡ read_digits 10 n s
unfolding show_go
read_digits-show_go zero n s h = absurd (omega arith)
read_digits-show_go (suc f) n s h = elim (Bool-cases (n / 10 == 0)) [
  | inl last ↦
      rw (last, read_digits-cons 0 (48 + n % 10) s (mod_ten-IsDigit n))
        (ap (λ (v : ℕ). read_digits 10 v s) (let e = ==→eq _ _ last in omega arith))
  | inr more ↦
      rw
        (
          more,
          read_digits-show_go f (n / 10) ((48 + n % 10) ∷ s) (omega (arith, ==→ne _ _ more)),
          read_digits-cons (n / 10) (48 + n % 10) s (mod_ten-IsDigit n),
        )
        (ap (λ (v : ℕ). read_digits 10 v s) (omega arith))
]

tenth_lt : (n p : ℕ) → n < p * 10 → n / 10 < p
tenth_lt n p h = omega arith

length-show_go :
    (fuel n k : ℕ) (s : Str) → n < 10 ^ suc k → length (show_go fuel n s) ≤ suc k + length s
unfolding show_go
length-show_go zero n k s h = omega arith
length-show_go (suc f) n zero s h = rw (eq→== (n / 10) 0 (omega arith)) (omega arith)
length-show_go (suc f) n (suc k) s h = elim (Bool-cases (n / 10 == 0)) [
  | inl last ↦ rw last (omega arith)
  | inr more ↦ rw more (
      omega (
        arith,
        length-show_go f (n / 10) k ((48 + n % 10) ∷ s)
            (tenth_lt n (10 ^ suc k) (rw (pow-suc 10 (suc k)) at h)),
      ))
]

pub show-digits : (n : ℕ) → All IsDigit (show n)
unfolding show
show-digits n = show_go-digits (suc n) n [] tt

pub read_digits-show : (n : ℕ) → read_digits 10 0 (show n) ≡ some n
unfolding show read_digits
read_digits-show n = read_digits-show_go (suc n) n [] (omega arith)

pub length-show : (n : ℕ) → n < scale → length (show n) ≤ 10
unfolding show
length-show n h = length-show_go (suc n) n 9 [] h

pub replicate-digits : (k : ℕ) → All IsDigit (replicate k 48)
replicate-digits zero = tt
replicate-digits (suc k) = ((omega arith), replicate-digits k)

pub read_digits-nil : read_digits 10 0 [] ≡ some 0
unfolding read_digits
read_digits-nil = refl

pub read_digits-pad :
    (k : ℕ) (s : Str) → read_digits 10 0 (replicate k 48 ++ s) ≡ read_digits 10 0 s
read_digits-pad zero s = refl
read_digits-pad (suc k) s =
    rw (read_digits-cons 0 48 (replicate k 48 ++ s) (omega arith)) (read_digits-pad k s)

length-replicate : (k : ℕ) → length {A = ℕ} (replicate k 48) ≡ k
length-replicate zero = refl
length-replicate (suc k) = omega (arith, length-replicate k)

pub length-pad_start : (w : ℕ) (s : Str) → length s ≤ w → length (pad_start w s) ≡ w
unfolding pad_start
length-pad_start w s h =
    omega (arith, length-append (replicate (w - length s) 48) s, length-replicate (w - length s))

pub pad_start-digits : (w : ℕ) (s : Str) → All IsDigit s → All IsDigit (pad_start w s)
unfolding pad_start
pad_start-digits w s h =
    All-append IsDigit (replicate (w - length s) 48) s (replicate-digits (w - length s)) h

take-append : (s t : Str) (n : ℕ) → length s ≡ n → take n (s ++ t) ≡ s
take-append [] t zero e = refl
take-append [] t (suc n) e = absurd (omega arith)
take-append (c ∷ s) t zero e = absurd (omega arith)
take-append (c ∷ s) t (suc n) e = ap (λ (r : Str). c ∷ r) (take-append s t n (omega arith))

-- A text of digits, at least one, is read as a decimal number, whatever its zeros in front.
not_space : (c : ℕ) → 43 ≤ c → c ≤ 57 → is_space c ≡ false
unfolding is_space
not_space c h k = ground arith

-- The characters that a formatted decimal has.
abbrev pub IsPlain : ℕ → Type 0
IsPlain c = (43 ≤ c) × (c ≤ 57)

trim_end-plain : (c : ℕ) (s : Str) → All IsPlain (c ∷ s) → trim_end (c ∷ s) ≡ c ∷ s
unfolding trim_end
trim_end-plain c [] h = rw (not_space c h.0.0 h.0.1)
trim_end-plain c (d ∷ s) h = rw (trim_end-plain d s h.1, trim_end)

pub trim-plain : (s : Str) → All IsPlain s → trim s ≡ s
unfolding trim trim_start trim_end
trim-plain [] h = refl
trim-plain (c ∷ s) h = rw (not_space c h.0.0 h.0.1) (trim_end-plain c s h)

pub decimal_text-IsPlain : (s : Str) → All IsDigit s → All IsPlain s
decimal_text-IsPlain [] h = tt
decimal_text-IsPlain (c ∷ s) h = (omega arith, decimal_text-IsPlain s h.1)

prefixed-digit :
    (d : ℕ) (s : Str) → IsDigit d → prefixed d s ≡ map_pos (read_digits 10 0 (48 ∷ d ∷ s))
unfolding prefixed read_number
prefixed-digit d s h = rw (
  ne→== d b'x' (omega arith),
  ne→== d b'X' (omega arith),
  ne→== d b'o' (omega arith),
  ne→== d b'O' (omega arith),
  ne→== d b'b' (omega arith),
  ne→== d b'B' (omega arith),
)

literal-digits :
    (c : ℕ) (s : Str) {n : ℕ}
    → All IsDigit (c ∷ s)
    → read_digits 10 0 (c ∷ s) ≡ some n
    → literal (c ∷ s) ≡ some (pos n)
unfolding literal read_number
literal-digits c [] h e = rw e
literal-digits c (d ∷ s) h e = elim (Bool-cases (c == 48)) [
  | inl zero_first ↦
      let z = ==→eq _ _ zero_first in
      rw (zero_first, prefixed-digit d s h.1.0)
        (ap (λ (t : ℕ). map_pos (read_digits 10 0 (t ∷ d ∷ s))) (sym z) ∙ ap map_pos e)
  | inr other ↦ rw (other, ne→== c b'+' (omega arith), ne→== c b'-' (omega arith), e)
]

pub big_int-digits :
    (c : ℕ) (s : Str) {n : ℕ}
    → All IsDigit (c ∷ s)
    → read_digits 10 0 (c ∷ s) ≡ some n
    → big_int (c ∷ s) ≡ some (pos n)
unfolding big_int
big_int-digits c s h e =
    rw (trim-plain (c ∷ s) (decimal_text-IsPlain (c ∷ s) h)) (literal-digits c s h e)

pub split_dot-digits : (s : Str) → All IsDigit s → split_dot s ≡ s ∷ []
unfolding split_dot
split_dot-digits [] h = refl
split_dot-digits (c ∷ s) h = rw (split_dot-digits s h.1, split_dot, ne→== c b'.' (omega arith))

pub split_dot-two :
    (s t : Str) → All IsDigit s → All IsDigit t → split_dot (s ++ b'.' ∷ t) ≡ s ∷ t ∷ []
unfolding split_dot
split_dot-two [] t h k = rw (split_dot-digits t k, split_dot)
split_dot-two (c ∷ s) t h k = rw (split_dot-two s t h.1 k, split_dot, ne→== c b'.' (omega arith))

pad_fraction-exact : (t : Str) → length t ≡ 10 → pad_fraction t ≡ t
unfolding pad_fraction
pad_fraction-exact t l = take-append t (replicate 10 48) 10 l

-- The two parts of a formatted size.
pub parse_parts-digits :
    (c : ℕ) (s t : Str) {a b : ℕ}
    → All IsDigit (c ∷ s)
    → All IsDigit t
    → length t ≡ 10
    → read_digits 10 0 (c ∷ s) ≡ some a
    → read_digits 10 0 t ≡ some b
    → parse_parts ((c ∷ s) ∷ t ∷ []) ≡ some (pos (a * scale + b))
unfolding parse_parts
parse_parts-digits c s [] h k l e f = absurd (omega arith)
parse_parts-digits c s (d ∷ t) h k l e f =
    rw (big_int-digits c s h e, parse_parts)
      (rw (pad_fraction-exact (d ∷ t) l) (rw (big_int-digits d t k f)))
