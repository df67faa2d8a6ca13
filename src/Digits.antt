-- ===== src/Digits.antt =====
-- BigInt and text: `BigInt(s)`, `x.toString()`, and the string methods that
-- services/operator-backend/src/pool/decimal.ts uses around them.
use canton_dex_reference_imp.Prelude.{
  ℕ, zero, suc, ◌+◌, ◌-◌, ◌*◌, ◌/◌, ◌%◌, Bool, ◌&&◌, ◌||◌, Option, none, some, List, [], ◌∷◌, ◌++◌,
  leb, ◌==◌, if◌then◌else◌, length, replicate,
}
use canton_dex_reference_imp.Prelude.Int.{ℤ, pos, neg_ℤ}
use canton_dex_reference_imp.Prelude.Text.{Str}

-- White space and line ends, as `trim` and `BigInt` see them.
unfoldable pub is_space : ℕ → Bool
is_space c =
    leb 9 c && leb c 13
    || c == 32
    || c == 0xa0
    || c == 0x1680
    || leb 0x2000 c && leb c 0x200a
    || c == 0x2028
    || c == 0x2029
    || c == 0x202f
    || c == 0x205f
    || c == 0x3000
    || c == 0xfeff

unfoldable pub trim_start : Str → Str
trim_start [] = []
trim_start (c ∷ s) = if is_space c then trim_start s else c ∷ s

-- What stands after the last character that is no space is dropped.
unfoldable pub trim_end : Str → Str
trim_end [] = []
trim_end (c ∷ s) = elim (trim_end s) [ [] ↦ if is_space c then [] else c ∷ [] | d ∷ t ↦ c ∷ d ∷ t ]

-- `s.trim()`
unfoldable pub trim : Str → Str
trim s = trim_end (trim_start s)

-- The value of a digit in a base of at most sixteen.
unfoldable pub digit_value : ℕ → ℕ → Option ℕ
digit_value base c =
    let v : ℕ =
      (if leb 48 c && leb c 57
        then c - 48
        else if leb 97 c && leb c 102
        then c - 87
        else if leb 65 c && leb c 70
        then c - 55
        else 16) in
    if leb base v then none else some v

-- Digits to the end of the text; `none` at any other character.
unfoldable pub read_digits : ℕ → ℕ → Str → Option ℕ
read_digits base acc [] = some acc
read_digits base acc (c ∷ s) = elim (digit_value base c) [
  | none ↦ none
  | some v ↦ read_digits base (acc * base + v) s
]

-- At least one digit.
unfoldable pub read_number : ℕ → Str → Option ℕ
read_number base [] = none
read_number base (c ∷ s) = read_digits base 0 (c ∷ s)

abbrev pub map_pos : Option ℕ → Option ℤ
map_pos none = none
map_pos (some n) = some (pos n)

abbrev pub map_neg : Option ℕ → Option ℤ
map_neg none = none
map_neg (some n) = some (neg_ℤ (pos n))

-- A literal behind `0`: the prefix of another base, or more decimal digits.
unfoldable pub prefixed : ℕ → Str → Option ℤ
prefixed c s =
    if c == b'x' || c == b'X'
    then map_pos (read_number 16 s)
    else if c == b'o' || c == b'O'
    then map_pos (read_number 8 s)
    else if c == b'b' || c == b'B'
    then map_pos (read_number 2 s)
    else map_pos (read_number 10 (48 ∷ c ∷ s))

unfoldable pub literal : Str → Option ℤ
literal [] = some (pos 0)
literal (c ∷ []) = map_pos (read_number 10 (c ∷ []))
literal (c ∷ d ∷ s) =
    if c == 48
    then prefixed d s
    else if c == b'+'
    then map_pos (read_number 10 (d ∷ s))
    else if c == b'-'
    then map_neg (read_number 10 (d ∷ s))
    else map_pos (read_number 10 (c ∷ d ∷ s))

-- `BigInt(s)`; `none` is the SyntaxError.
unfoldable pub big_int : Str → Option ℤ
big_int s = literal (trim s)

-- The decimal digits of `n` in front of `acc`. The value falls below the fuel in every round, so
-- `suc n` is enough.
unfoldable pub show_go : ℕ → ℕ → Str → Str
show_go zero n acc = acc
show_go (suc fuel) n acc =
    let acc' : Str = (48 + n % 10) ∷ acc in
    let rest = show_go fuel (n / 10) acc' in if n / 10 == 0 then acc' else rest

-- `n.toString()` for `n >= 0n`
unfoldable pub show : ℕ → Str
show n = show_go (suc n) n []

-- `s.padStart(width, "0")`
unfoldable pub pad_start : ℕ → Str → Str
pad_start width s = replicate (width - length s) 48 ++ s

-- `s.split(".")`
unfoldable pub split_dot : Str → List Str
split_dot [] = [] ∷ []
split_dot (c ∷ s) = elim (split_dot s) [
  | [] ↦ (c ∷ []) ∷ []
  | w ∷ ws ↦ if c == b'.' then [] ∷ w ∷ ws else (c ∷ w) ∷ ws
]
