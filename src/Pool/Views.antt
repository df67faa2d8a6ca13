-- ===== src/Pool/Views.antt =====
-- The combined view of a pool: `listActive` of pool/index.ts and the lookups around it. What the
-- queries of the ledger return is the record `Contracts`.
use canton_dex_reference_imp.Prelude.{
  Bool, true, false, ◌&&◌, Option, none, some, List, [], ◌∷◌, map, filterb, find, take, drop,
  if◌then◌else◌,
}
use canton_dex_reference_imp.Prelude.Outcome.{Outcome, returns, throws, error, ◌>>=◌, or_throw}
use canton_dex_reference_imp.Prelude.Text.{Str, codes, ◌===◌}
use canton_dex_reference_imp.Prelude.Assoc.{lookup, insert}
use canton_dex_reference_imp.Types.{
  Party, ContractId, PoolConfigContract, PoolStateContract, PoolSliceContract, PoolRulesContract,
  PoolLiquidityRulesContract, LpTokenPolicy, Pool, PoolSlice, SliceSide,
}

pub record Contracts : Type 0 where
  pub configs : List PoolConfigContract
  pub states : List PoolStateContract
  pub slices : List PoolSliceContract
  pub rules : List PoolRulesContract
  pub liquidity_rules : List PoolLiquidityRulesContract
  pub policies : List LpTokenPolicy

-- `s.startsWith("PS_") ? s.slice(3) : s`
unfoldable pub normalize_pool_status : Str → Str
normalize_pool_status s = if take 3 s === codes "PS_" then drop 3 s else s

abbrev pub is_base : SliceSide → Bool
is_base SliceSide.base_side = true
is_base SliceSide.quote_side = false

abbrev pub is_quote : SliceSide → Bool
is_quote SliceSide.base_side = false
is_quote SliceSide.quote_side = true

abbrev pub to_slice : PoolSliceContract → PoolSlice
to_slice s = record {
  contract_id = s.contract_id;
  allocation_cid = s.allocation_cid;
  amount = s.amount;
  side = s.side;
}

-- `new Map(states.map((s) => [s.poolId, s]))`: of two states with one pool id the later stays.
unfoldable pub state_by_pool :
    List (Str × PoolStateContract) → List PoolStateContract → List (Str × PoolStateContract)
state_by_pool m [] = m
state_by_pool m (s ∷ states) = state_by_pool (insert s.pool_id s m) states

abbrev pub rules_contract : Option PoolRulesContract → Outcome ContractId
rules_contract none = throws (error "no PoolRules contract for operator")
rules_contract (some r) = returns r.contract_id

abbrev pub liquidity_contract : Option PoolLiquidityRulesContract → Option ContractId
liquidity_contract none = none
liquidity_contract (some r) = some r.contract_id

-- `rulesCid ?? ""`, with the error of `rulesCid` caught.
abbrev pub cid_or_empty : Outcome ContractId → ContractId
cid_or_empty (returns cid) = cid
cid_or_empty (throws e) = []

module _ (operator_party : Party) where
  unfoldable pub rules_cid : Contracts → Outcome ContractId
  rules_cid acs =
      rules_contract (find (λ (r : PoolRulesContract). r.operator === operator_party) acs.rules)

  unfoldable pub liquidity_rules_cid_for : Contracts → Party → Option ContractId
  liquidity_rules_cid_for acs lp_registrar = liquidity_contract (
      find
        (λ (r : PoolLiquidityRulesContract).
          r.operator === operator_party && r.lp_registrar === lp_registrar)
        acs.liquidity_rules)

  unfoldable pub pool_liquidity_rules_cid : Contracts → Party → Outcome ContractId
  pool_liquidity_rules_cid acs lp_registrar =
      or_throw (liquidity_rules_cid_for acs lp_registrar)
        (error "no PoolLiquidityRules contract for operator + lpRegistrar")

  -- The view of one config and the state of its pool.
  unfoldable pub combine : Contracts → PoolConfigContract → PoolStateContract → Pool
  combine acs cfg state =
      let pool_slices = filterb (λ (s : PoolSliceContract). s.pool_id === cfg.pool_id) acs.slices in
      record {
        contract_id = cfg.contract_id;
        pool_id = cfg.pool_id;
        pool_state_cid = state.contract_id;
        rules_cid = cid_or_empty (rules_cid acs);
        pool_liquidity_rules_cid = liquidity_rules_cid_for acs cfg.lp_registrar;
        operator = cfg.operator;
        lp_registrar = cfg.lp_registrar;
        base_instrument_id = cfg.base_instrument_id;
        quote_instrument_id = cfg.quote_instrument_id;
        lp_instrument_id = cfg.lp_instrument_id;
        fee_bps = cfg.fee_bps;
        status = normalize_pool_status state.status;
        reserves = state.reserves;
        total_lp_supply = state.total_lp_supply;
        base_slices =
            map to_slice (filterb (λ (s : PoolSliceContract). is_base s.side) pool_slices);
        quote_slices =
            map to_slice (filterb (λ (s : PoolSliceContract). is_quote s.side) pool_slices);
        public_readers = state.public_readers;
      }

  -- A config without a state, or with a paused one, is passed over.
  abbrev pub with_state :
      Contracts → PoolConfigContract → Option PoolStateContract → List Pool → List Pool
  with_state acs cfg none rest = rest
  with_state acs cfg (some state) rest =
      if normalize_pool_status state.status === codes "Paused"
      then rest
      else combine acs cfg state ∷ rest

  unfoldable pub combine_all : Contracts → List PoolConfigContract → List Pool
  combine_all acs [] = []
  combine_all acs (cfg ∷ configs) =
      with_state acs cfg (lookup cfg.pool_id (state_by_pool [] acs.states))
        (combine_all acs configs)

  unfoldable pub list_active : Contracts → List Pool
  list_active acs = combine_all acs acs.configs

  unfoldable pub fetch_pool : Contracts → ContractId → Outcome Pool
  fetch_pool acs cid =
      or_throw (find (λ (p : Pool). p.contract_id === cid) (list_active acs))
        (error "Pool not found")

  unfoldable pub require_pool_liquidity_rules : Pool → Outcome ContractId
  require_pool_liquidity_rules pool = missing pool.pool_liquidity_rules_cid
    where
      missing : Option ContractId → Outcome ContractId
      missing none = throws (error "pool has no PoolLiquidityRules; run admin bootstrap")
      missing (some []) = throws (error "pool has no PoolLiquidityRules; run admin bootstrap")
      missing (some (c ∷ cid)) = returns (c ∷ cid)

  unfoldable pub fetch_liquidity_pool : Contracts → ContractId → Outcome (Pool × ContractId)
  fetch_liquidity_pool acs cid = do
    pool ← fetch_pool acs cid
    liquidity_rules ← require_pool_liquidity_rules pool
    returns (pool, liquidity_rules)

  -- `candidates.find(…) ?? candidates[0]`
  abbrev pub or_first : Option LpTokenPolicy → List LpTokenPolicy → Outcome ContractId
  or_first (some p) candidates = returns p.contract_id
  or_first none [] = throws (error "no active LPTokenPolicy")
  or_first none (p ∷ candidates) = returns p.contract_id

  unfoldable pub fetch_lp_asset_policy : Contracts → Pool → Outcome ContractId
  fetch_lp_asset_policy acs pool =
      let candidates =
        filterb
          (λ (p : LpTokenPolicy).
            p.active
            && p.lp_instrument_id.id === pool.lp_instrument_id.id
            && p.lp_instrument_id.admin === pool.lp_instrument_id.admin)
          acs.policies in
      or_first (find (λ (p : LpTokenPolicy). p.total_supply === pool.total_lp_supply) candidates)
        candidates
