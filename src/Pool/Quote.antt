-- ===== src/Pool/Quote.antt =====
-- `computeQuote` and `computeQuoteDetailed` of pool/index.ts.
use canton_dex_reference_imp.Prelude.{Bool, ◌∷◌, if◌then◌else◌}
use canton_dex_reference_imp.Prelude.Int.{ℤ, pos, negsuc, ◌+ℤ◌, ◌-ℤ◌, ltb_ℤ}
use canton_dex_reference_imp.Prelude.Outcome.{Outcome, returns, ◌>>=◌}
use canton_dex_reference_imp.Prelude.Text.{Str, codes}
use canton_dex_reference_imp.Digits.{show}
use canton_dex_reference_imp.Decimal.{parse_decimal, format_decimal, mul, div, mul_floor, div_floor}
use canton_dex_reference_imp.Types.{Decimal, ContractId, InstrumentId, Pool, same_instrument}

-- `String(n)` of an integer.
unfoldable pub int_text : ℤ → Str
int_text (pos n) = show n
int_text (negsuc n) = b'-' ∷ show (Prim.Native.Nat.suc n)

-- `[reserveIn, reserveOut]`
abbrev pub reserves_of : Pool → Bool → Decimal × Decimal
reserves_of pool base_in =
    if base_in
    then (pool.reserves.base_amount, pool.reserves.quote_amount)
    else (pool.reserves.quote_amount, pool.reserves.base_amount)

-- The output for reserves, a fee multiplier and an input that are parsed.
unfoldable pub quote_out : ℤ → ℤ → ℤ → ℤ → ℤ → Outcome ℤ
quote_out r_in r_out fee_num fee_den amount = do
  dx ← div_floor (mul_floor amount fee_num) fee_den
  div_floor (mul_floor r_out dx) (r_in +ℤ dx)

unfoldable pub compute_quote : Pool → InstrumentId → Decimal → Outcome Decimal
compute_quote pool input_instrument_id input_amount = do
  let sides = reserves_of pool (same_instrument input_instrument_id pool.base_instrument_id)
  r_in ← parse_decimal sides.0
  r_out ← parse_decimal sides.1
  fee_num ← parse_decimal (int_text (pos 10000 -ℤ pool.fee_bps))
  fee_den ← parse_decimal (codes "10000")
  amount ← parse_decimal input_amount
  out ← quote_out r_in r_out fee_num fee_den amount
  returns (format_decimal out)

pub record QuoteDetail : Type 0 where
  pub output_amount : Decimal
  pub input_amount : Decimal
  pub input_instrument_id : Str
  pub output_instrument_id : Str
  pub fee_bps : ℤ
  pub fee_amount : Decimal
  pub execution_price : Decimal
  pub spot_price : Decimal
  pub price_impact : Decimal
  pub pool_cid : ContractId
  pub pool_id : Str

-- `cond > 0n ? dec.div(a, b) : 0n`
abbrev pub div_or_zero : ℤ → ℤ → ℤ → Outcome ℤ
div_or_zero test a b = if ltb_ℤ (pos 0) test then div a b else returns (pos 0)

unfoldable pub compute_quote_detailed : Pool → InstrumentId → Decimal → Outcome QuoteDetail
compute_quote_detailed pool input_instrument_id input_amount = do
  let is_base_in = same_instrument input_instrument_id pool.base_instrument_id
  let output_instrument_id =
      (if is_base_in then pool.quote_instrument_id.id else pool.base_instrument_id.id)
  let sides = reserves_of pool is_base_in
  output_amount ← compute_quote pool input_instrument_id input_amount
  in_dec ← parse_decimal input_amount
  out_dec ← parse_decimal output_amount
  r_in ← parse_decimal sides.0
  r_out ← parse_decimal sides.1
  fee ← parse_decimal (int_text pool.fee_bps)
  fee_den ← parse_decimal (codes "10000")
  fee_amount ← div (mul in_dec fee) fee_den
  execution_price ← div_or_zero in_dec out_dec in_dec
  spot_price ← div_or_zero r_in r_out r_in
  price_impact ← div_or_zero spot_price (spot_price -ℤ execution_price) spot_price
  returns (record {
    output_amount = output_amount;
    input_amount = input_amount;
    input_instrument_id = input_instrument_id.id;
    output_instrument_id = output_instrument_id;
    fee_bps = pool.fee_bps;
    fee_amount = format_decimal fee_amount;
    execution_price = format_decimal execution_price;
    spot_price = format_decimal spot_price;
    price_impact = format_decimal price_impact;
    pool_cid = pool.contract_id;
    pool_id = pool.pool_id;
  })
