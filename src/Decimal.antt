-- ===== src/Decimal.antt =====
-- services/operator-backend/src/pool/decimal.ts: fixed-point decimals as bigints scaled by 10^10.

pub mod Rounding
pub mod Root
pub mod Reading
pub mod RoundTrip
use canton_dex_reference_imp.Prelude.{
  ℕ, zero, suc, ◌+◌, ◌/◌, ◌%◌, ◌*◌, Bool, true, false, not, ◌&&◌, ◌||◌, Option, none, some, List,
  [], ◌∷◌, ◌++◌, ltb, ◌==◌, if◌then◌else◌, replicate, take,
}
use canton_dex_reference_imp.Prelude.Int.{
  ℤ, pos, negsuc, ◌+ℤ◌, ◌-ℤ◌, ◌*ℤ◌, ltb_ℤ, leb_ℤ, eqb_ℤ, neg_ℤ, abs_ℕ, quot_ℤ, rem_ℤ,
}
use canton_dex_reference_imp.Prelude.Outcome.{
  Outcome, returns, throws, error, ◌>>=◌, ◌>>◌, throw_if, or_throw,
}
use canton_dex_reference_imp.Prelude.Text.{Str, codes}
use canton_dex_reference_imp.Digits.{trim, big_int, show, pad_start, split_dot}

abbrev pub decimals : ℕ
decimals = 10

abbrev pub scale : ℕ
scale = 10_000_000_000

-- `part || "0"`
abbrev pub or_zero : Str → Str
or_zero [] = 48 ∷ []
or_zero (c ∷ s) = c ∷ s

-- `(fracPartRaw + "0".repeat(DECIMALS)).slice(0, DECIMALS)`
unfoldable pub pad_fraction : Str → Str
pad_fraction frac_part_raw = take decimals (frac_part_raw ++ replicate decimals 48)

-- `[intPart, fracPartRaw = ""] = body.split(".")`, and the sum of the two parts.
unfoldable pub parse_parts : List Str → Option ℤ
parse_parts [] = none
parse_parts (int_part ∷ rest) =
    let frac_part_raw : Str = elim rest [ [] ↦ [] | w ∷ _ ↦ w ] in
    let frac = pad_fraction frac_part_raw in
    elim (big_int (or_zero int_part)) [
      | none ↦ none
      | some i ↦ elim (big_int (or_zero frac)) [ none ↦ none | some f ↦ some (i *ℤ pos scale +ℤ f) ]
    ]

-- The text after the sign, with the sign put back on its value.
abbrev pub parse_signed : Bool → Str → Option ℤ
parse_signed neg body = elim (parse_parts (split_dot body)) [
  | none ↦ none
  | some scaled ↦ some (if neg then neg_ℤ scaled else scaled)
]

unfoldable pub parse_trimmed : Str → Option ℤ
parse_trimmed [] = parse_signed false []
parse_trimmed (c ∷ s) = if c == b'-' then parse_signed true s else parse_signed false (c ∷ s)

-- `parseDecimal`; `BigInt` throws a SyntaxError on a text that is no integer.
unfoldable pub parse_decimal : Str → Outcome ℤ
parse_decimal s = or_throw (parse_trimmed (trim s)) (error "Cannot convert to a BigInt")

unfoldable pub format_decimal : ℤ → Str
format_decimal x =
    let neg = ltb_ℤ x (pos 0) in
    let abs = abs_ℕ x in
    (if neg then b'-' ∷ [] else [])
    ++ (show (abs / scale) ++ (b'.' ∷ pad_start decimals (show (abs % scale))))

-- The quotient as it leaves the two tests on the remainder.
unfoldable pub round_up_half : ℤ → ℤ → ℤ → ℤ
round_up_half q r den =
    let twice = pos 2 *ℤ r in
    if ltb_ℤ den twice
    then q +ℤ pos 1
    else if eqb_ℤ twice den
    then (if eqb_ℤ (rem_ℤ q (pos 2)) (pos 1) then q +ℤ pos 1 else q)
    else q

unfoldable pub div_round_half_even : ℤ → ℤ → ℤ
div_round_half_even num den =
    let neg = ltb_ℤ num (pos 0) in
    let n = if neg then neg_ℤ num else num in
    let q = round_up_half (quot_ℤ n den) (rem_ℤ n den) den in if neg then neg_ℤ q else q

unfoldable pub mul : ℤ → ℤ → ℤ
mul a b = div_round_half_even (a *ℤ b) (pos scale)

unfoldable pub div : ℤ → ℤ → Outcome ℤ
div a b =
    if eqb_ℤ b (pos 0)
    then throws (error "decimal div by zero")
    else returns (div_round_half_even (a *ℤ pos scale) b)

unfoldable pub div_floor_int : ℤ → ℤ → ℤ
div_floor_int num den =
    let q = quot_ℤ num den in
    if ltb_ℤ num (pos 0) && not (eqb_ℤ (q *ℤ den) num) then q -ℤ pos 1 else q

unfoldable pub mul_floor : ℤ → ℤ → ℤ
mul_floor a b = div_floor_int (a *ℤ b) (pos scale)

unfoldable pub div_floor : ℤ → ℤ → Outcome ℤ
div_floor a b =
    if eqb_ℤ b (pos 0)
    then throws (error "decimal div by zero")
    else returns (div_floor_int (a *ℤ pos scale) b)

unfoldable pub ceil_mul_div : ℤ → ℤ → ℤ → Outcome ℤ
ceil_mul_div a b d =
    if leb_ℤ a (pos 0) || leb_ℤ b (pos 0)
    then returns (pos 0)
    else if leb_ℤ d (pos 0)
    then throws (error "decimal ceilMulDiv by non-positive divisor")
    else returns (quot_ℤ (a *ℤ b +ℤ d -ℤ pos 1) d)

-- The loop of `isqrt`, on numbers that are never negative; `none` if the fuel runs out.
unfoldable pub newton : ℕ → ℕ → ℕ → ℕ → Option ℕ
newton zero n x y = none
newton (suc fuel) n x y =
    let rest = newton fuel n y ((y + n / y) / 2) in if ltb y x then rest else some x

-- `x` falls in every round and starts at `n`.
unfoldable pub isqrt : ℤ → Outcome ℤ
isqrt (negsuc n) = throws (error "isqrt of negative")
isqrt (pos n) =
    if ltb n 2
    then returns (pos n)
    else do x ← or_throw (newton (suc n) n n ((n + 1) / 2)) (error "out of fuel"); returns (pos x)

unfoldable pub sqrt : ℤ → Outcome ℤ
sqrt a = if ltb_ℤ a (pos 0) then throws (error "sqrt of negative") else isqrt (a *ℤ pos scale)

abbrev pub min_ℤ : ℤ → ℤ → ℤ
min_ℤ a b = if ltb_ℤ a b then a else b

abbrev pub max_ℤ : ℤ → ℤ → ℤ
max_ℤ a b = if ltb_ℤ b a then a else b
