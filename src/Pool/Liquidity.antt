-- ===== src/Pool/Liquidity.antt =====
-- What a deposit buys and a redemption pays: `matchLiquidity`, `enforceOffRatioTolerance`,
-- `deriveRemovePlan` and `selectCoveringPrefix` of pool/index.ts.
use canton_dex_reference_imp.Prelude.{true, false, List, [], ◌∷◌, if◌then◌else◌}
use canton_dex_reference_imp.Prelude.Int.{ℤ, pos, ◌+ℤ◌, ◌-ℤ◌, ◌*ℤ◌, ltb_ℤ, leb_ℤ, eqb_ℤ}
use canton_dex_reference_imp.Prelude.Outcome.{Outcome, returns, error, ◌>>=◌, ◌>>◌, throw_if}
use canton_dex_reference_imp.Decimal.{
  parse_decimal, format_decimal, mul, div, mul_floor, div_floor, ceil_mul_div, sqrt, min_ℤ, max_ℤ,
}
use canton_dex_reference_imp.Types.{Decimal, ContractId, Pool, PoolSlice}

pub record LiquidityMatch : Type 0 where
  pub lp_amount : Decimal
  pub matched_base_amount : Decimal
  pub matched_quote_amount : Decimal
  pub refunded_base_amount : Decimal
  pub refunded_quote_amount : Decimal
  pub off_ratio_bps : Decimal

-- `BPS_SCALE = dec.parseDecimal("10000")`
abbrev pub bps_scale : ℤ
bps_scale = pos 100_000_000_000_000

unfoldable pub bps_of : ℤ → ℤ → Outcome ℤ
bps_of refunded supplied =
    if eqb_ℤ supplied (pos 0) then returns (pos 0) else div (mul refunded bps_scale) supplied

-- The share of each leg that enters the pool.
unfoldable pub matched_legs : ℤ → ℤ → ℤ → ℤ → Outcome (ℤ × ℤ)
matched_legs b q rb rq =
    if ltb_ℤ (q *ℤ rb) (b *ℤ rq)
    then (do c ← ceil_mul_div q rb rq; returns (min_ℤ b c, q))
    else (do c ← ceil_mul_div b rq rb; returns (b, min_ℤ q c))

unfoldable pub match_liquidity : Pool → Decimal → Decimal → Outcome LiquidityMatch
match_liquidity pool base_amount quote_amount = do
  b ← parse_decimal base_amount
  q ← parse_decimal quote_amount
  supply ← parse_decimal pool.total_lp_supply
  if eqb_ℤ supply (pos 0)
      then (do
        lp ← sqrt (mul b q)
        returns (record {
          lp_amount = format_decimal lp;
          matched_base_amount = format_decimal b;
          matched_quote_amount = format_decimal q;
          refunded_base_amount = format_decimal (pos 0);
          refunded_quote_amount = format_decimal (pos 0);
          off_ratio_bps = format_decimal (pos 0);
        }))
      else (do
        rb ← parse_decimal pool.reserves.base_amount
        rq ← parse_decimal pool.reserves.quote_amount
        lp_base ← div (mul b supply) rb
        lp_quote ← div (mul q supply) rq
        matched ← matched_legs b q rb rq
        off_base ← bps_of (b -ℤ matched.0) b
        off_quote ← bps_of (q -ℤ matched.1) q
        returns (record {
          lp_amount = format_decimal (min_ℤ lp_base lp_quote);
          matched_base_amount = format_decimal matched.0;
          matched_quote_amount = format_decimal matched.1;
          refunded_base_amount = format_decimal (b -ℤ matched.0);
          refunded_quote_amount = format_decimal (q -ℤ matched.1);
          off_ratio_bps = format_decimal (max_ℤ off_base off_quote);
        }))

-- Head-first prefix of the slices that covers the target.
unfoldable pub covering_from : ℤ → ℤ → List PoolSlice → Outcome (List ContractId)
covering_from target acc [] = returns []
covering_from target acc (s ∷ slices) = do
  amount ← parse_decimal s.amount
  let rest = covering_from target (acc +ℤ amount) slices
  if leb_ℤ target (acc +ℤ amount)
      then returns (s.contract_id ∷ [])
      else (do more ← rest; returns (s.contract_id ∷ more))

unfoldable pub select_covering_prefix : List PoolSlice → ℤ → Outcome (List ContractId)
select_covering_prefix slices target = covering_from target (pos 0) slices

pub record RemoveSidePlan : Type 0 where
  pub slice_cids : List ContractId
  pub outs : List Decimal

pub record RemovePlan : Type 0 where
  pub base : RemoveSidePlan
  pub quote : RemoveSidePlan

-- The loop of `side`: the plan, and what is left of the target.
unfoldable pub side_from : ℤ → List PoolSlice → Outcome (RemoveSidePlan × ℤ)
side_from remaining [] = returns (record { slice_cids = []; outs = [] }, remaining)
side_from remaining (s ∷ slices) = elim (leb_ℤ remaining (pos 0)) [
  | true ↦ returns (record { slice_cids = []; outs = [] }, remaining)
  | false ↦ (do
    amt ← parse_decimal s.amount
    let whole = leb_ℤ amt remaining
    rest ← side_from (if whole then remaining -ℤ amt else pos 0) slices
    let out = (if whole then s.amount else format_decimal remaining)
    returns (
      record { slice_cids = s.contract_id ∷ rest.0.slice_cids; outs = out ∷ rest.0.outs },
      rest.1,
    ))
]

unfoldable pub remove_side : List PoolSlice → ℤ → Outcome RemoveSidePlan
remove_side slices target = do
  plan ← side_from target slices
  throw_if (ltb_ℤ (pos 0) plan.1) (error "pool slices cannot cover the redemption")
  returns plan.0

unfoldable pub derive_remove_plan : Pool → Decimal → Decimal → Outcome RemovePlan
derive_remove_plan pool lp_tokens_to_redeem known_total_lp_supply = do
  lp ← parse_decimal lp_tokens_to_redeem
  supply ← parse_decimal known_total_lp_supply
  share ← div_floor lp supply
  rb ← parse_decimal pool.reserves.base_amount
  let base_out = mul_floor rb share
  rq ← parse_decimal pool.reserves.quote_amount
  let quote_out = mul_floor rq share
  base ← remove_side pool.base_slices base_out
  quote ← remove_side pool.quote_slices quote_out
  returns (record { base = base; quote = quote })
