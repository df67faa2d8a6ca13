-- ===== src/Pool/Tolerance.antt =====
-- The caller's limit on an off-ratio deposit: `enforceOffRatioTolerance` and `parseBpsLimit` of
-- services/operator-backend/src/pool/index.ts.
use canton_dex_reference_imp.Prelude.{
  ℕ, ◌≡◌, ◌<◌, Bool, true, false, ◌&&◌, ◌||◌, ◌==◌, leb, le→ltb, Option, none, some, [], ◌∷◌,
  length, if◌then◌else◌,
}
use canton_dex_reference_imp.Prelude.Int.{ℤ, pos, ltb_ℤ}
use canton_dex_reference_imp.Prelude.Outcome.{
  Outcome, returns, throws, ledger_error, LedgerErrorKind, ◌>>=◌, ◌>>◌, throw_if,
}
use canton_dex_reference_imp.Prelude.Text.{Str}
use canton_dex_reference_imp.Digits.{trim}
use canton_dex_reference_imp.Decimal.{parse_decimal}
use canton_dex_reference_imp.Decimal.RoundTrip.{parse_decimal-format_decimal}
use canton_dex_reference_imp.Pool.Liquidity.{LiquidityMatch, bps_scale, match_liquidity}
use canton_dex_reference_imp.Pool.Deposit.{IsQuoteOf, match_liquidity-funded}
use canton_dex_reference_imp.Types.{Decimal, Pool}

-- What a caller sends as the limit: a number, by its `toFixed(10)` or `none` where it is not finite;
-- a text; or anything else.
pub data BpsLimit : Type 0 where
  number : Option Str → BpsLimit
  text : Str → BpsLimit
  other : BpsLimit

abbrev pub is_digit : ℕ → Bool
is_digit c = leb 48 c && leb c 57

-- `\d*$`
abbrev pub all_digits : Str → Bool
all_digits [] = true
all_digits (c ∷ s) = is_digit c && all_digits s

-- `\d{1,10}$`
abbrev pub fraction_digits : Str → Bool
fraction_digits [] = false
fraction_digits (c ∷ s) = all_digits (c ∷ s) && leb (length (c ∷ s)) 10

-- `\d*(\.\d{1,10})?$`
abbrev pub digits_then_fraction : Str → Bool
digits_then_fraction [] = true
digits_then_fraction (c ∷ s) =
    if c == b'.' then fraction_digits s else is_digit c && digits_then_fraction s

-- `/^\d+(\.\d{1,10})?$/.test(s)`
unfoldable pub is_decimal_text : Str → Bool
is_decimal_text [] = false
is_decimal_text (c ∷ s) = is_digit c && digits_then_fraction s

abbrev read_limit : BpsLimit → Outcome ℤ
read_limit (number none) =
    throws (ledger_error LedgerErrorKind.validation "maxOffRatioBps must be a finite number" false)
read_limit (number (some fixed)) = parse_decimal fixed
read_limit (text s) =
    if is_decimal_text (trim s)
    then parse_decimal s
    else throws (
        ledger_error LedgerErrorKind.validation
          "maxOffRatioBps must be a number or a Daml Decimal string" false)
read_limit other = throws (
    ledger_error LedgerErrorKind.validation
      "maxOffRatioBps must be a number or a Daml Decimal string" false)

unfoldable pub parse_bps_limit : BpsLimit → Outcome ℤ
parse_bps_limit v = do
  scaled ← read_limit v
  throw_if (ltb_ℤ scaled (pos 0) || ltb_ℤ bps_scale scaled)
      (ledger_error LedgerErrorKind.validation "maxOffRatioBps must be between 0 and 10000" false)
  returns scaled

abbrev enforce_limit : LiquidityMatch → Option BpsLimit → Outcome (Unit {0})
enforce_limit m none = returns tt
enforce_limit m (some v) = do
  limit ← parse_bps_limit v
  off ← parse_decimal m.off_ratio_bps
  throw_if (ltb_ℤ limit off) (
      ledger_error LedgerErrorKind.validation "add-liquidity is off the pool ratio, over the limit"
        false)

unfoldable pub enforce_off_ratio_tolerance : LiquidityMatch → Option BpsLimit → Outcome (Unit {0})
enforce_off_ratio_tolerance m max_off_ratio_bps = enforce_limit m max_off_ratio_bps

quote-tolerated :
    (b q rb rq : ℕ) (m : LiquidityMatch) (v : BpsLimit)
    → IsQuoteOf b q rb rq m
    → parse_bps_limit v ≡ returns bps_scale
    → enforce_off_ratio_tolerance m (some v) ≡ returns tt
unfolding enforce_off_ratio_tolerance
quote-tolerated b q rb rq m v quote full = rw (
  full,
  IsQuoteOf.off_ratio quote,
  parse_decimal-format_decimal (pos (IsQuoteOf.off quote)),
  le→ltb 100_000_000_000_000 (IsQuoteOf.off quote) (IsQuoteOf.off_bounded quote),
)

-- A limit that reads as the full 10000 basis points refuses no deposit: whatever two readable
-- amounts, not negative, are offered to a pool with a positive supply and positive reserves,
-- `matchLiquidity` returns a match, and the tolerance lets this match pass, however far it is off
-- the ratio.
pub enforce_off_ratio_tolerance-full :
    (pool : Pool) (base_amount quote_amount : Decimal) (b q supply rb rq : ℕ) (v : BpsLimit)
    → parse_decimal base_amount ≡ returns (pos b)
    → parse_decimal quote_amount ≡ returns (pos q)
    → parse_decimal pool.total_lp_supply ≡ returns (pos supply)
    → parse_decimal pool.reserves.base_amount ≡ returns (pos rb)
    → parse_decimal pool.reserves.quote_amount ≡ returns (pos rq)
    → 0 < supply
    → 0 < rb
    → 0 < rq
    → parse_bps_limit v ≡ returns bps_scale
    → (m : LiquidityMatch) × (match_liquidity pool base_amount quote_amount ≡ returns m)
      × (enforce_off_ratio_tolerance m (some v) ≡ returns tt)
enforce_off_ratio_tolerance-full pool base_amount quote_amount b q supply rb rq v eb eq es erb erq
      ps pb pq full =
    let (m, made, quote) =
      match_liquidity-funded pool base_amount quote_amount b q supply rb rq eb eq es erb erq ps pb
        pq in
    (m, made, quote-tolerated b q rb rq m v quote full)
