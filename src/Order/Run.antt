-- ===== src/Order/Run.antt =====
-- services/operator-backend/src/order/index.ts: runMatching, and discoverBatchesByAdmin of
-- services/operator-backend/src/settlement/index.ts.
use canton_dex_reference_imp.Prelude.{
  Bool, true, false, ◌||◌, Option, none, some, List, [], ◌∷◌, ◌++◌, take, any,
}
use canton_dex_reference_imp.Prelude.Int.{ℤ}
use canton_dex_reference_imp.Prelude.Outcome.{Outcome, returns, throws, Thrown, error, throw_if}
use canton_dex_reference_imp.Prelude.Flow.{Flow, lift, ◌>>=◌, ◌>>◌}
use canton_dex_reference_imp.Prelude.Text.{Str, codes, ◌===◌}
use canton_dex_reference_imp.Prelude.Assoc.{lookup, insert, erase}
use canton_dex_reference_imp.Types.{Party, ContractId, Decimal, Order}
use canton_dex_reference_imp.Pool.Swap.{V2Account}
use canton_dex_reference_imp.Matching.{Host, Match, PairKey, match_orders_for_pair}
use canton_dex_reference_imp.Settlement.{discover_batches_by_admin}
use canton_dex_reference_imp.Http.Auth.{given}
use canton_dex_reference_imp.Order.{
  ExecutionArgument, OrderMatchExecuteResult, OrderLedger, retried, list_open,
}

-- `buyRemainderCid`, `sellRemainderCid` are null, or left out where there is an error; an error is
-- kept as what was thrown.
pub record MatchRunResult : Type 0 where
  pub buy_cid : ContractId
  pub sell_cid : ContractId
  pub quantity : Decimal
  pub price : Decimal
  pub match_id : Str
  pub buy_remainder_cid : Option ContractId
  pub sell_remainder_cid : Option ContractId
  pub failure : Option Thrown

pub record LiveOrder : Type 0 where
  pub cid : ContractId
  pub allocation_cids_by_admin : List (Party × ContractId)

-- `live` and `closed`
pub record Progress : Type 0 where
  pub live : List (Str × LiveOrder)
  pub closed : List Str

abbrev pub no_progress : Progress
no_progress = record { live = []; closed = [] }

abbrev live_or : Order → Option LiveOrder → LiveOrder
live_or o none = record {
  cid = o.contract_id;
  allocation_cids_by_admin = o.allocation_cids_by_admin;
}
live_or o (some l) = l

unfoldable pub state_of : Progress → Order → LiveOrder
state_of p o = live_or o (lookup o.contract_id p.live)

unfoldable pub advance_order : Order → Option LiveOrder → Progress → Progress
advance_order o none p = record {
  live = erase o.contract_id p.live;
  closed = o.contract_id ∷ p.closed;
}
advance_order o (some next) p = record {
  live = insert o.contract_id next p.live;
  closed = p.closed;
}

unfoldable pub has_closed : Progress → Str → Bool
has_closed p cid = any (λ c. c === cid) p.closed

-- Where the side's order stands after a fill; an empty contract id counts as none.
abbrev pub next_of : Option ContractId → List (Party × ContractId) → Option LiveOrder
next_of none allocations = none
next_of (some cid) allocations = some (record { cid = cid; allocation_cids_by_admin = allocations })

unfoldable pub basic_account : Party → V2Account
basic_account owner = record { owner = some owner; provider = none; id = [] }

unfoldable pub match_id_of : Match → Str
match_id_of m =
    take 12 m.buy.contract_id
    ++ b':' ∷ (take 12 m.sell.contract_id ++ b':' ∷ (m.price ++ b':' ∷ m.quantity))

abbrev is_nil {ℓ} : {A : Type ℓ} → List A → Bool
is_nil [] = true
is_nil (x ∷ xs) = false

unfoldable pub execution_argument : Party → Match → LiveOrder → LiveOrder → ExecutionArgument
execution_argument operator_party m buy sell = record {
  operator = operator_party;
  match_id = match_id_of m;
  matched = record {
    buyer_account = basic_account m.buy.trader;
    seller_account = basic_account m.sell.trader;
    base_instrument_id = m.buy.base_instrument_id.id;
    quote_instrument_id = m.buy.quote_instrument_id.id;
    fill_qty = m.quantity;
    fill_price = m.price;
  };
  buy_order_cid = buy.cid;
  sell_order_cid = sell.cid;
  buyer_allocation_cids_by_admin = buy.allocation_cids_by_admin;
  seller_allocation_cids_by_admin = sell.allocation_cids_by_admin;
}

-- What the run records and follows after a match.
unfoldable pub after_match : Outcome OrderMatchExecuteResult → Match → Progress → Progress
after_match (throws e) m p = p
after_match (returns executed) m p =
    advance_order m.sell
      (next_of (given executed.sell_remainder_cid) executed.seller_next_allocation_cids_by_admin)
      (advance_order m.buy
        (next_of (given executed.buy_remainder_cid) executed.buyer_next_allocation_cids_by_admin) p)

unfoldable pub result_of : Outcome OrderMatchExecuteResult → Match → MatchRunResult
result_of (throws e) m = record {
  buy_cid = m.buy.contract_id;
  sell_cid = m.sell.contract_id;
  quantity = m.quantity;
  price = m.price;
  match_id = match_id_of m;
  buy_remainder_cid = none;
  sell_remainder_cid = none;
  failure = some e;
}
result_of (returns executed) m = record {
  buy_cid = m.buy.contract_id;
  sell_cid = m.sell.contract_id;
  quantity = m.quantity;
  price = m.price;
  match_id = match_id_of m;
  buy_remainder_cid = executed.buy_remainder_cid;
  sell_remainder_cid = executed.sell_remainder_cid;
  failure = none;
}

module _ {S : Type 0} (ledger : OrderLedger S) (operator_party : Party) where
  -- The body of the `try`: the preview, the discovery and the execution of one match.
  unfoldable pub settle_match : Match → LiveOrder → LiveOrder → Flow S OrderMatchExecuteResult
  settle_match m buy sell = do
    lift (
        throw_if (is_nil buy.allocation_cids_by_admin || is_nil sell.allocation_cids_by_admin)
          (error "a matched order has no funding allocation"))
    preview ← retried (
        ledger.preview_settlement (record {
          act_as = operator_party ∷ [];
          command_id = codes "order-match-preview:" ++ match_id_of m;
          disclosure = none;
          argument = execution_argument operator_party m buy sell;
        }))
    discovered ← discover_batches_by_admin ledger.settlement_factory preview
    retried (
        ledger.execute_match (record {
          act_as = operator_party ∷ [];
          command_id = codes "order-match:" ++ match_id_of m;
          disclosure = some discovered.1;
          argument = record {
            execution = execution_argument operator_party m buy sell;
            batches_by_admin = discovered.0;
          };
        }))

  -- The loop over the matches; what one match throws ends up in its result.
  unfoldable pub run_matches : List Match → Progress → S → List MatchRunResult × S
  run_matches [] p s = ([], s)
  run_matches (m ∷ ms) p s =
      elim (has_closed p m.buy.contract_id || has_closed p m.sell.contract_id) [
        | true ↦ run_matches ms p s
        | false ↦
            let settled = settle_match m (state_of p m.buy) (state_of p m.sell) s in
            let rest = run_matches ms (after_match settled.0 m p) settled.1 in
            (result_of settled.0 m ∷ rest.0, rest.1)
      ]

  unfoldable pub find_matches : Host → ℤ → PairKey → Flow S (List Match)
  find_matches host now_ms pair = do
    orders ← list_open ledger
    lift (match_orders_for_pair host orders pair now_ms)

  abbrev run_found : List Match → Flow S (List MatchRunResult)
  run_found matches s =
      (returns (run_matches matches no_progress s).0, (run_matches matches no_progress s).1)

  -- `runMatching`; its `admin` is not used.
  unfoldable pub run_matching : Host → ℤ → PairKey → Flow S (List MatchRunResult)
  run_matching host now_ms pair = do matches ← find_matches host now_ms pair; run_found matches
