-- ===== src/Examples/Pricing.antt =====
-- The theorems on decimals and pools at concrete inputs.
use Prim.Native.String.{String}
use canton_dex_reference_imp.Prelude.{
  ℕ, ◌+◌, ◌-◌, ◌*◌, ◌≤◌, ◌<◌, ◌≡◌, refl, arith, none, some, [], ◌∷◌,
}
use canton_dex_reference_imp.Prelude.Int.{pos, negsuc, neg_ℕ, abs_ℕ}
use canton_dex_reference_imp.Prelude.Outcome.{returns, throws, error}
use canton_dex_reference_imp.Prelude.Text.{codes, ◌===◌}
use canton_dex_reference_imp.Decimal.{
  scale, format_decimal, parse_decimal, div_round_half_even, div_floor_int, ceil_mul_div, sqrt,
}
use canton_dex_reference_imp.Decimal.Rounding.{
  IsNearestEven, IsFloor, div_round_half_even-nearest, div_floor_int-IsFloor, ceil_mul_div-least,
}
use canton_dex_reference_imp.Decimal.Root.{sqrt-floor}
use canton_dex_reference_imp.Decimal.RoundTrip.{parse_decimal-format_decimal}
use canton_dex_reference_imp.Types.{
  Decimal, InstrumentId, Pool, PoolSlice, SliceSide, same_instrument,
}
use canton_dex_reference_imp.Pool.Quote.{compute_quote}
use canton_dex_reference_imp.Pool.Liquidity.{
  LiquidityMatch, match_liquidity, RemoveSidePlan, RemovePlan, remove_side, derive_remove_plan,
}
use canton_dex_reference_imp.Pool.Liquidity.{bps_scale}
use canton_dex_reference_imp.Pool.Tolerance.{
  BpsLimit, parse_bps_limit, enforce_off_ratio_tolerance, enforce_off_ratio_tolerance-full,
}
use canton_dex_reference_imp.Pool.Curve.{compute_quote-keeps_product}
use canton_dex_reference_imp.Pool.Deposit.{IsQuoteOf, match_liquidity-funded}
use canton_dex_reference_imp.Pool.Redeem.{
  Parses, slice_amounts, Draws, remove_side-covers, remove_side-short,
}
use canton_dex_reference_imp.Pool.ProRata.{derive_remove_plan-pro_rata}

-- An amount of `n` units of the last place.
abbrev pub text : ℕ → Decimal
text n = format_decimal (pos n)

reads : (n : ℕ) → parse_decimal (text n) ≡ returns (pos n)
reads n = parse_decimal-format_decimal (pos n)

abbrev pub instrument : String → InstrumentId
instrument id = record { admin = codes "admin"; id = codes id }

abbrev slice : String → SliceSide → ℕ → PoolSlice
slice id side n = record {
  contract_id = codes id;
  allocation_cid = codes id;
  amount = text n;
  side = side;
}

-- 10 units of the base instrument and 40 of the other.
abbrev pub pool : Pool
pool = record {
  contract_id = codes "config";
  pool_id = codes "pool";
  pool_state_cid = codes "state";
  rules_cid = codes "rules";
  pool_liquidity_rules_cid = none;
  operator = codes "operator";
  lp_registrar = codes "registrar";
  base_instrument_id = instrument "CC";
  quote_instrument_id = instrument "USD";
  lp_instrument_id = instrument "LP";
  fee_bps = pos 30;
  status = codes "Active";
  reserves = record { base_amount = text 100_000_000_000; quote_amount = text 400_000_000_000 };
  total_lp_supply = text 200_000_000_000;
  base_slices =
      slice "s1" SliceSide.base_side 60_000_000_000
      ∷ slice "s2" SliceSide.base_side 40_000_000_000
      ∷ [];
  quote_slices = slice "s3" SliceSide.quote_side 400_000_000_000 ∷ [];
  public_readers = [];
}

compute_quote-keeps_product_example :
    (out : ℕ) × (compute_quote pool (instrument "CC") (text 5_000_000_000)
      ≡ returns (format_decimal (pos out)))
    × (out ≤ 400_000_000_000)
    × (0 < 400_000_000_000 → out < 400_000_000_000)
    × (100_000_000_000 * 400_000_000_000
        ≤ (100_000_000_000 + 5_000_000_000) * (400_000_000_000 - out))
unfolding same_instrument ◌===◌
compute_quote-keeps_product_example =
    compute_quote-keeps_product pool (instrument "CC") (text 5_000_000_000) 100_000_000_000
      400_000_000_000 30 5_000_000_000 (reads 100_000_000_000) (reads 400_000_000_000) refl
      (omega arith) (reads 5_000_000_000) (omega arith)

match_liquidity-funded_example :
    (m : LiquidityMatch) × (match_liquidity pool (text 10_000_000_000) (text 50_000_000_000)
      ≡ returns m)
    × IsQuoteOf 10_000_000_000 50_000_000_000 100_000_000_000 400_000_000_000 m
match_liquidity-funded_example =
    match_liquidity-funded pool (text 10_000_000_000) (text 50_000_000_000) 10_000_000_000
      50_000_000_000 200_000_000_000 100_000_000_000 400_000_000_000 (reads 10_000_000_000)
      (reads 50_000_000_000) (reads 200_000_000_000) (reads 100_000_000_000) (reads 400_000_000_000)
      (omega arith) (omega arith) (omega arith)

base-Parses : Parses (slice_amounts pool.base_slices) (60_000_000_000 ∷ 40_000_000_000 ∷ [])
base-Parses = (reads 60_000_000_000, (reads 40_000_000_000, tt))

quote-Parses : Parses (slice_amounts pool.quote_slices) (400_000_000_000 ∷ [])
quote-Parses = (reads 400_000_000_000, tt)

derive_remove_plan-pro_rata_example :
    (plan : RemovePlan) × (base_out : ℕ) × (quote_out : ℕ) × (derive_remove_plan pool
        (text 50_000_000_000)
        (text 200_000_000_000)
      ≡ returns plan)
    × Draws pool.base_slices (60_000_000_000 ∷ 40_000_000_000 ∷ []) base_out plan.base
    × Draws pool.quote_slices (400_000_000_000 ∷ []) quote_out plan.quote
    × (base_out * 200_000_000_000 ≤ 100_000_000_000 * 50_000_000_000)
    × (quote_out * 200_000_000_000 ≤ 400_000_000_000 * 50_000_000_000)
derive_remove_plan-pro_rata_example =
    derive_remove_plan-pro_rata pool (text 50_000_000_000) (text 200_000_000_000) 50_000_000_000
      200_000_000_000 100_000_000_000 400_000_000_000 (60_000_000_000 ∷ 40_000_000_000 ∷ [])
      (400_000_000_000 ∷ []) (reads 50_000_000_000) (reads 200_000_000_000) (reads 100_000_000_000)
      (reads 400_000_000_000) base-Parses quote-Parses (omega arith) (omega arith) refl refl

remove_side-covers_example :
    (plan : RemoveSidePlan) × (remove_side pool.base_slices (pos 70_000_000_000) ≡ returns plan)
    × Draws pool.base_slices (60_000_000_000 ∷ 40_000_000_000 ∷ []) 70_000_000_000 plan
remove_side-covers_example =
    remove_side-covers pool.base_slices (60_000_000_000 ∷ 40_000_000_000 ∷ []) 70_000_000_000
      base-Parses (omega arith)

remove_side-short_example :
    remove_side pool.base_slices (pos 100_000_000_001)
    ≡ throws (error "pool slices cannot cover the redemption")
remove_side-short_example =
    remove_side-short pool.base_slices (60_000_000_000 ∷ 40_000_000_000 ∷ []) 100_000_000_001
      base-Parses (omega arith)

parse_decimal-format_decimal_example :
    parse_decimal (format_decimal (negsuc 4)) ≡ returns (negsuc 4)
parse_decimal-format_decimal_example = parse_decimal-format_decimal (negsuc 4)

div_floor_int-IsFloor_example : IsFloor (negsuc 6) 2 (div_floor_int (negsuc 6) (pos 2))
div_floor_int-IsFloor_example = div_floor_int-IsFloor (negsuc 6) 2 (omega arith)

ceil_mul_div-least_example :
    (c : ℕ) × (ceil_mul_div (pos 7) (pos 5) (pos 3) ≡ returns (pos c))
    × (7 * 5 ≤ c * 3)
    × ((k : ℕ) → 7 * 5 ≤ k * 3 → c ≤ k)
ceil_mul_div-least_example = ceil_mul_div-least 7 5 3 (omega arith)

sqrt-floor_example :
    (r : ℕ) × (sqrt (pos 2) ≡ returns (pos r))
    × (r * r ≤ 2 * scale)
    × (2 * scale < (r + 1) * (r + 1))
sqrt-floor_example = sqrt-floor 2

div_round_half_even-nearest_example :
    let q = div_round_half_even (negsuc 4) (pos 2) in
    IsNearestEven 5 2 (abs_ℕ q) × (q ≡ neg_ℕ (abs_ℕ q))
div_round_half_even-nearest_example = div_round_half_even-nearest (negsuc 4) 2 (omega arith)

full_limit : parse_bps_limit (BpsLimit.number (some (text 100_000_000_000_000))) ≡ returns bps_scale
unfolding parse_bps_limit
full_limit = rw (parse_decimal-format_decimal (pos 100_000_000_000_000))

enforce_off_ratio_tolerance-full_example :
    (m : LiquidityMatch) × (match_liquidity pool (text 10_000_000_000) (text 50_000_000_000)
      ≡ returns m)
    × (enforce_off_ratio_tolerance m (some (BpsLimit.number (some (text 100_000_000_000_000))))
        ≡ returns tt)
enforce_off_ratio_tolerance-full_example =
    enforce_off_ratio_tolerance-full pool (text 10_000_000_000) (text 50_000_000_000) 10_000_000_000
      50_000_000_000 200_000_000_000 100_000_000_000 400_000_000_000
      (BpsLimit.number (some (text 100_000_000_000_000))) (reads 10_000_000_000)
      (reads 50_000_000_000) (reads 200_000_000_000) (reads 100_000_000_000) (reads 400_000_000_000)
      (omega arith) (omega arith) (omega arith) full_limit
