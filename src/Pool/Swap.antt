-- ===== src/Pool/Swap.antt =====
-- A swap of pool/index.ts: the binding that `requestSwap` quotes, and the checks of `swap` on it.
use canton_dex_reference_imp.Prelude.{
  ℕ, Bool, true, false, not, ◌&&◌, ◌||◌, ◌==◌, Option, none, some, List, [], ◌∷◌, map, any, length,
  if◌then◌else◌,
}
use canton_dex_reference_imp.Prelude.Int.{pos, ltb_ℤ, leb_ℤ, eqb_ℤ}
use canton_dex_reference_imp.Prelude.Outcome.{
  Outcome, returns, throws, Thrown, ledger_error, LedgerErrorKind, ◌>>=◌, ◌>>◌, throw_if, or_throw,
}
use canton_dex_reference_imp.Prelude.Text.{Str, ◌===◌}
use canton_dex_reference_imp.Decimal.{parse_decimal}
use canton_dex_reference_imp.Types.{
  Party, ContractId, Decimal, InstrumentId, Pool, PoolSlice, same_instrument,
}
use canton_dex_reference_imp.Recover.{TreeReader, recover_created_allocations}
use canton_dex_reference_imp.Pool.Quote.{compute_quote}
use canton_dex_reference_imp.Pool.Liquidity.{select_covering_prefix}

pub record PoolSwapQuoteBinding : Type 0 where
  pub expected_pool_id : Str
  pub pool_state_cid : ContractId
  pub input_slice_cid : ContractId
  pub output_slice_cids : List ContractId
  pub min_output_amount : Decimal

pub record PoolRequestSwapInput : Type 0 where
  pub pool_cid : ContractId
  pub swapper : Party
  pub input_instrument_id : InstrumentId
  pub input_amount : Decimal
  pub min_output_amount : Decimal

pub record V2Account : Type 0 where
  pub owner : Option Party
  pub provider : Option Party
  pub id : Str

pub record PoolSwapInput : Type 0 where
  pub pool_cid : ContractId
  pub swapper_account : V2Account
  pub input_instrument_id : InstrumentId
  pub input_amount : Decimal
  pub min_output_amount : Decimal
  pub quote_binding : Option PoolSwapQuoteBinding
  pub swapper_allocation_cids : Option (List ContractId)
  pub swapper_allocation_cid : Option ContractId
  pub update_id : Option Str
  pub swap_allocation_request_cids : Option (List ContractId)
  pub idempotency_key : Option Str

abbrev pub invalid : Prim.Native.String.String → Thrown
invalid detail = ledger_error LedgerErrorKind.validation detail false

abbrev contended : Prim.Native.String.String → Thrown
contended detail = ledger_error LedgerErrorKind.contention detail true

abbrev pub cid_of : PoolSlice → ContractId
cid_of s = s.contract_id

-- `[inputSlices, outputSlices]`
abbrev pub slices_of : Pool → Bool → List PoolSlice × List PoolSlice
slices_of pool input_is_base =
    if input_is_base
    then (pool.base_slices, pool.quote_slices)
    else (pool.quote_slices, pool.base_slices)

abbrev pub first_slice : List PoolSlice → Outcome PoolSlice
first_slice [] = throws (invalid "swap: pool has no input liquidity")
first_slice (s ∷ slices) = returns s

-- `requestSwap` up to the command that carries the binding.
unfoldable pub quote_binding : Pool → PoolRequestSwapInput → Outcome PoolSwapQuoteBinding
quote_binding pool input = do
  let input_is_base = same_instrument input.input_instrument_id pool.base_instrument_id
  throw_if
      (not input_is_base
        && not (same_instrument input.input_instrument_id pool.quote_instrument_id))
      (invalid "swap: input instrument is not in the pool")
  input_slice ← first_slice (slices_of pool input_is_base).0
  output_amount ← compute_quote pool input.input_instrument_id input.input_amount
  amount_out ← parse_decimal output_amount
  throw_if (leb_ℤ amount_out (pos 0)) (invalid "swap: output rounds to zero")
  min_output ← parse_decimal input.min_output_amount
  throw_if (ltb_ℤ amount_out min_output)
      (invalid "swap: quoted output is below the slippage minimum")
  output_slice_cids ← select_covering_prefix (slices_of pool input_is_base).1 amount_out
  returns (record {
    expected_pool_id = pool.pool_id;
    pool_state_cid = pool.pool_state_cid;
    input_slice_cid = input_slice.contract_id;
    output_slice_cids = output_slice_cids;
    min_output_amount = input.min_output_amount;
  })

pub record SwapArgument : Type 0 where
  pub expected_pool_id : Str
  pub pool_cid : ContractId
  pub pool_state_cid : ContractId
  pub swapper_account : V2Account
  pub input_instrument_id : InstrumentId
  pub input_amount : Decimal
  pub min_output_amount : Decimal
  pub swapper_allocation_cids_by_admin : List (Party × ContractId)
  pub input_slice_cid : ContractId
  pub output_slice_cids : List ContractId
  pub quote_binding : PoolSwapQuoteBinding

-- The admins of a swap: the input's, then the output's, or one for both.
abbrev pub swap_admins : Pool → Bool → List Party
swap_admins pool input_is_base =
    let input_admin =
      (if input_is_base then pool.base_instrument_id.admin else pool.quote_instrument_id.admin) in
    let output_admin =
      (if input_is_base then pool.quote_instrument_id.admin else pool.base_instrument_id.admin) in
    if input_admin === output_admin then input_admin ∷ [] else input_admin ∷ output_admin ∷ []

-- An explicit list, the legacy single id, or what the tree of the update has.
abbrev pub given_cids : Option (List ContractId) → Option ContractId → Option (List ContractId)
given_cids (some cids) single = some cids
given_cids none none = none
given_cids none (some []) = none
given_cids none (some (c ∷ cid)) = some ((c ∷ cid) ∷ [])

abbrev pub swapper_cids :
    TreeReader
    → Party
    → ℕ
    → Option (List ContractId)
    → Option Str
    → Outcome (Option (List ContractId))
swapper_cids ledger operator n given none = returns given
swapper_cids ledger operator n given (some []) = returns given
swapper_cids ledger operator n given (some (c ∷ update_id)) = do
  recovered ← recover_created_allocations ledger operator (c ∷ update_id) n
  returns (some recovered.0)

abbrev pub exactly : ℕ → Option (List ContractId) → Outcome (List ContractId)
exactly n none =
    throws (invalid "swap: supply swapper allocation cids (one per admin) or an updateId")
exactly n (some cids) =
    if length cids == n
    then returns cids
    else throws (invalid "swap: supply swapper allocation cids (one per admin) or an updateId")

abbrev pub zip {ℓ κ} : {A : Type ℓ} {B : Type κ} → List A → List B → List (A × B)
zip [] bs = []
zip (a ∷ rest) [] = []
zip (a ∷ rest) (b ∷ bs) = (a, b) ∷ zip rest bs

abbrev pub is_nil {ℓ} : {A : Type ℓ} → List A → Bool
is_nil [] = true
is_nil (a ∷ rest) = false

abbrev pub has_cid : List ContractId → ContractId → Bool
has_cid cids cid = any (λ (c : ContractId). c === cid) cids

-- `swap` up to the argument of the choice: the checks in their order.
unfoldable pub swap_argument : TreeReader → Party → Pool → PoolSwapInput → Outcome SwapArgument
swap_argument ledger operator pool input = do
  binding ← or_throw input.quote_binding (invalid "swap: quoteBinding is required")
  throw_if (not (binding.expected_pool_id === pool.pool_id))
      (invalid "swap: quote belongs to a different pool")
  throw_if (not (binding.pool_state_cid === pool.pool_state_cid))
      (contended "swap: pool changed after the quote; request a fresh quote and allocation")
  quoted_min ← parse_decimal binding.min_output_amount
  input_min ← parse_decimal input.min_output_amount
  throw_if (not (eqb_ℤ quoted_min input_min)) (invalid "swap: slippage minimum differs from quote")
  let input_is_base = same_instrument input.input_instrument_id pool.base_instrument_id
  let admins = swap_admins pool input_is_base
  found ←
      swapper_cids ledger operator (length admins)
        (given_cids input.swapper_allocation_cids input.swapper_allocation_cid) input.update_id
  cids ← exactly (length admins) found
  throw_if (not (has_cid (map cid_of (slices_of pool input_is_base).0) binding.input_slice_cid))
      (contended "swap: quoted input slice is no longer active")
  throw_if
      (is_nil binding.output_slice_cids
        || any
            (λ (cid : ContractId). not (has_cid (map cid_of (slices_of pool input_is_base).1) cid))
            binding.output_slice_cids)
      (contended "swap: quoted output slices are no longer active")
  returns (record {
    expected_pool_id = pool.pool_id;
    pool_cid = input.pool_cid;
    pool_state_cid = binding.pool_state_cid;
    swapper_account = input.swapper_account;
    input_instrument_id = input.input_instrument_id;
    input_amount = input.input_amount;
    min_output_amount = input.min_output_amount;
    swapper_allocation_cids_by_admin = zip admins cids;
    input_slice_cid = binding.input_slice_cid;
    output_slice_cids = binding.output_slice_cids;
    quote_binding = binding;
  })
