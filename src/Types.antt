-- ===== src/Types.antt =====
-- services/operator-backend/src/types.ts: the contract views that the services work on. Parties,
-- contract ids, times and decimals are texts there, and are texts here.
use canton_dex_reference_imp.Prelude.{ℕ, Bool, ◌&&◌, Option, List}
use canton_dex_reference_imp.Prelude.Int.{ℤ}
use canton_dex_reference_imp.Prelude.Text.{Str, ◌===◌}

abbrev pub Party : Type 0
Party = Str

abbrev pub ContractId : Type 0
ContractId = Str

abbrev pub Decimal : Type 0
Decimal = Str

abbrev pub Time : Type 0
Time = Str

pub record V2Reference : Type 0 where
  pub id : Str
  pub cid : Option Str

pub record InstrumentId : Type 0 where
  pub admin : Party
  pub id : Str

pub data Side : Type 0 where
  bid ask : Side

pub data OrderStatus : Type 0 where
  pending funded partially_filled : OrderStatus
  -- A text that is none of the three: the source keeps it by a cast.
  other : Str → OrderStatus

pub record Order : Type 0 where
  pub contract_id : ContractId
  pub operator : Party
  pub trader : Party
  pub base_instrument_id : InstrumentId
  pub quote_instrument_id : InstrumentId
  pub side : Side
  pub limit_price : Decimal
  pub remaining_qty : Decimal
  pub expiry : Option Time
  pub status : OrderStatus
  pub allocation_cids_by_admin : List (Party × ContractId)
  pub settlement_ref : V2Reference
  pub ledger_created_at : Option Time

pub data PoolStatus : Type 0 where
  unfunded active paused : PoolStatus

pub record PoolReserves : Type 0 where
  pub base_amount : Decimal
  pub quote_amount : Decimal

pub data SliceSide : Type 0 where
  base_side quote_side : SliceSide

pub record PoolSlice : Type 0 where
  pub contract_id : ContractId
  pub allocation_cid : ContractId
  pub amount : Decimal
  pub side : SliceSide

pub record PoolConfigContract : Type 0 where
  pub contract_id : ContractId
  pub pool_id : Str
  pub operator : Party
  pub lp_registrar : Party
  pub base_instrument_id : InstrumentId
  pub quote_instrument_id : InstrumentId
  pub lp_instrument_id : InstrumentId
  pub fee_bps : ℤ

-- `status` is kept raw: a participant may answer with the `PS_` spelling.
pub record PoolStateContract : Type 0 where
  pub contract_id : ContractId
  pub pool_id : Str
  pub operator : Party
  pub lp_registrar : Party
  pub status : Str
  pub reserves : PoolReserves
  pub total_lp_supply : Decimal
  pub public_readers : List Party

pub record PoolSliceContract : Type 0 where
  pub contract_id : ContractId
  pub pool_id : Str
  pub operator : Party
  pub side : SliceSide
  pub allocation_cid : ContractId
  pub amount : Decimal

pub record PoolRulesContract : Type 0 where
  pub contract_id : ContractId
  pub operator : Party

pub record PoolLiquidityRulesContract : Type 0 where
  pub contract_id : ContractId
  pub operator : Party
  pub lp_registrar : Party

-- `status` is the text that `normalizePoolStatus` leaves.
pub record Pool : Type 0 where
  pub contract_id : ContractId
  pub pool_id : Str
  pub pool_state_cid : ContractId
  pub rules_cid : ContractId
  pub pool_liquidity_rules_cid : Option ContractId
  pub operator : Party
  pub lp_registrar : Party
  pub base_instrument_id : InstrumentId
  pub quote_instrument_id : InstrumentId
  pub lp_instrument_id : InstrumentId
  pub fee_bps : ℤ
  pub status : Str
  pub reserves : PoolReserves
  pub total_lp_supply : Decimal
  pub base_slices : List PoolSlice
  pub quote_slices : List PoolSlice
  pub public_readers : List Party

pub record LpTokenPolicy : Type 0 where
  pub contract_id : ContractId
  pub lp_registrar : Party
  pub operator : Party
  pub lp_instrument_id : InstrumentId
  pub total_supply : Decimal
  pub active : Bool

pub data DealerTier : Type 0 where
  tier_trusted tier_whitelist : DealerTier

pub record RfqQuote : Type 0 where
  pub contract_id : ContractId
  pub dealer : Party
  pub trader : Party
  pub operator : Party
  pub rfq_id : Str
  pub price : Decimal
  pub expires_at : Time
  pub posted_at : Time
  pub tier : DealerTier

pub record RankedDealer : Type 0 where
  pub party : Party
  pub rank : ℕ
  pub price : Decimal
  pub tier : Str

pub record PolicyReceipt : Type 0 where
  pub policy_version : Str
  pub policy_hash : Str
  pub rfq_id : Str
  pub ranked_dealers : List RankedDealer
  pub accepted_dealer : Party
  pub accepted_rank : ℕ
  pub considered_count : ℕ
  pub signed_by : Party
  pub signed_at : Time
  pub signature : Str

-- Equality of instruments by full identity: `sameInstrument` of pool/index.ts, `eqInstrument` of
-- order/matching.ts.
unfoldable pub same_instrument : InstrumentId → InstrumentId → Bool
same_instrument a b = (a.admin === b.admin) && (a.id === b.id)
