-- ===== src/Examples/Orders.antt =====
-- The theorems on the order service at two orders that cross.
use Prim.Native.String.{String}
use canton_dex_reference_imp.Prelude.{
  ℕ, suc, ◌≡◌, refl, Bool, true, false, Option, none, some, List, [], ◌∷◌, find,
}
use canton_dex_reference_imp.Prelude.Int.{pos}
use canton_dex_reference_imp.Prelude.Outcome.{returns, throws, auth_error}
use canton_dex_reference_imp.Prelude.Text.{codes, ◌===◌}
use canton_dex_reference_imp.Prelude.Sort.{sort}
use canton_dex_reference_imp.Prelude.Assoc.{lookup, insert, erase}
use canton_dex_reference_imp.Json.{null}
use canton_dex_reference_imp.Digits.{
  is_space, trim_start, trim_end, trim, digit_value, read_digits, read_number, prefixed, literal,
  big_int, show_go, show, pad_start, split_dot,
}
use canton_dex_reference_imp.Decimal.{
  format_decimal, pad_fraction, parse_parts, parse_trimmed, parse_decimal, round_up_half,
  div_round_half_even, div,
}
use canton_dex_reference_imp.Types.{
  ContractId, Order, Side, OrderStatus, InstrumentId, same_instrument,
}
use canton_dex_reference_imp.Matching.{
  Host, PairKey, price_of, match_loop, match_orders_for_pair, resting_since, clearing_price,
  is_open_at, is_expired, eq_pair, eligible_orders, check_prices, read_prices, initial_remaining,
  remaining_of, bid_before, ask_before, by_resting_time, midpoint,
}
use canton_dex_reference_imp.Settlement.{ChoiceContextRef, discover_batches_by_admin, discover_each}
use canton_dex_reference_imp.Ledger.{retry_on_contention, retry_from, merge_disclosures, merge_all}
use canton_dex_reference_imp.Http.Auth.{given, strip_prefix}
use canton_dex_reference_imp.Order.{
  FundingRequestRow, OrderBindResult, OrderRow, retried, OrderLedger, list_open, find_order,
  order_of_row, to_status, without_os,
}
use canton_dex_reference_imp.Order.Service.{
  OrderBindInput, OrderFundInput, bind, submit_bind, fund, cancel, check_request,
  funding_request_of, is_missing,
}
use canton_dex_reference_imp.Order.Run.{
  MatchRunResult, match_id_of, run_matching, run_matches, find_matches, settle_match, state_of,
  has_closed, after_match, advance_order, result_of,
}
use canton_dex_reference_imp.Order.Owned.{orders-refused, bind-IsOwned}
use canton_dex_reference_imp.Order.Closed.{StayClosed, run_matching-StayClosed}

abbrev host : Host
host = record { date_parse = λ s. none; locale_compare = λ a b. pos 0 }

abbrev instrument : String → InstrumentId
instrument id = record { admin = codes "admin"; id = codes id }

abbrev pair : PairKey
pair = record { base = instrument "CC"; quote = instrument "USD" }

abbrev order : String → String → Side → String → String → Order
order cid trader side price rest = record {
  contract_id = codes cid;
  operator = codes "operator";
  trader = codes trader;
  base_instrument_id = instrument "CC";
  quote_instrument_id = instrument "USD";
  side = side;
  limit_price = codes price;
  remaining_qty = codes rest;
  expiry = none;
  status = OrderStatus.funded;
  allocation_cids_by_admin = (codes "admin", codes "alloc") ∷ [];
  settlement_ref = record { id = codes cid; cid = none };
  ledger_created_at = none;
}

abbrev bid : Order
bid = order "b1" "alice" Side.bid "2" "4"

abbrev ask : Order
ask = order "a1" "bob" Side.ask "2" "3"

abbrev row_of : Order → OrderRow
row_of o = record { row = o; status_text = codes "OS_Funded" }

abbrev no_context : ChoiceContextRef
no_context = record { choice_context = null; disclosed = [] }

abbrev bound : OrderBindResult
bound = record {
  order_cid = codes "o1";
  allocation_request_cid = codes "r1";
  settlement = some null;
  allocation_specs = some null;
}

abbrev request : FundingRequestRow
request = record { contract_id = codes "f1"; trader = codes "alice" }

-- The state counts the submissions. A fill leaves the bid a remainder and closes the ask.
abbrev ledger : OrderLedger ℕ
ledger = record {
  query_orders = λ n. (returns (row_of bid ∷ row_of ask ∷ []), n);
  query_funding_requests = λ n. (returns (request ∷ []), n);
  trees = record { tree_created_events = none; tree_allocation_cids = none };
  bind_request = λ sub n. (returns bound, suc n);
  fund_order =
      λ sub n. (returns (record { order_cid = codes "o1"; allocation_cids_by_admin = [] }), suc n);
  cancel_order = λ sub n. (returns none, suc n);
  withdraw_request = λ sub n. (returns tt, suc n);
  preview_settlement = λ sub n. (returns [], suc n);
  execute_match = λ sub n. (
    returns (record {
      buyer_next_allocation_cids_by_admin = (codes "admin", codes "alloc2") ∷ [];
      seller_next_allocation_cids_by_admin = [];
      buy_remainder_cid = some (codes "b2");
      sell_remainder_cid = none;
    }),
    suc n,
  );
  cancel_context = λ admin cid n. (returns no_context, n);
  settlement_factory =
      λ admin args n. (returns (record { factory_cid = codes "s1"; context = no_context }), n);
}

abbrev filled : MatchRunResult
filled = record {
  buy_cid = codes "b1";
  sell_cid = codes "a1";
  quantity = codes "3.0000000000";
  price = codes "2.0000000000";
  match_id = codes "b1:a1:2.0000000000:3.0000000000";
  buy_remainder_cid = some (codes "b2");
  sell_remainder_cid = none;
  failure = none;
}

ran : run_matching ledger (codes "operator") host (pos 0) pair 0 ≡ (returns (filled ∷ []), 2)
unfolding run_matching run_matches find_matches settle_match state_of has_closed after_match
    advance_order result_of discover_batches_by_admin discover_each match_id_of list_open
    order_of_row to_status without_os strip_prefix given merge_disclosures merge_all
    retry_on_contention retry_from erase match_orders_for_pair eligible_orders eq_pair
    same_instrument ◌===◌ is_open_at is_expired check_prices read_prices initial_remaining
    remaining_of price_of bid_before ask_before by_resting_time resting_since clearing_price
    midpoint match_loop sort insert lookup div div_round_half_even round_up_half format_decimal show
    show_go pad_start parse_decimal parse_trimmed parse_parts pad_fraction split_dot big_int literal
    trim trim_start trim_end is_space prefixed read_number read_digits digit_value
    canton_dex_reference_imp.Prelude.Sort.insert
ran = refl

ran_outcome : (run_matching ledger (codes "operator") host (pos 0) pair 0).0 ≡ returns (filled ∷ [])
ran_outcome = rw ran

run_matching-StayClosed_example : StayClosed (filled ∷ [])
run_matching-StayClosed_example =
    run_matching-StayClosed ledger (codes "operator") host (pos 0) pair 0 (filled ∷ []) ran_outcome

abbrev fund_input : OrderFundInput
fund_input = record {
  order_cid = codes "b1";
  allocation_cids = some (codes "alloc" ∷ []);
  allocation_cid = none;
  update_id = none;
  expected_allocations = none;
  allocation_request_cid = none;
  require_trader = some (codes "bob");
}

listed : list_open ledger 0 ≡ (returns (bid ∷ ask ∷ []), 0)
unfolding list_open order_of_row to_status without_os strip_prefix ◌===◌
listed = refl

is_found : find_order (codes "b1") (bid ∷ ask ∷ []) ≡ some bid
unfolding find_order ◌===◌
is_found = refl

is_other : (codes "alice" === codes "bob") ≡ false
unfolding ◌===◌
is_other = refl

orders-refused_example :
    (cancel ledger (codes "operator") (codes "b1") (some (codes "bob")) none 0
      ≡ (throws (auth_error "caller may only cancel its own order"), 0))
    × (fund ledger (codes "operator") fund_input 0
        ≡ (throws (auth_error "caller may only fund its own order"), 0))
orders-refused_example =
    orders-refused ledger (codes "operator") (codes "b1") (codes "bob") none fund_input 0 0
      (bid ∷ ask ∷ []) bid refl refl listed is_found is_other

abbrev bind_input : OrderBindInput
bind_input = record {
  funding_request_cid = some (codes "f1");
  update_id = none;
  settlement_ref = codes "ref";
  require_trader = some (codes "alice");
}

bind_returns : (bind ledger (codes "operator") bind_input 0).0 ≡ returns bound
unfolding bind submit_bind check_request funding_request_of given ◌===◌ retry_on_contention
    retry_from
bind_returns = refl

bind-IsOwned_example :
    (named : Option ContractId) × (cid : ContractId) × (rows : List FundingRequestRow)
    × (row : FundingRequestRow) × (funding_request_of ledger
          (codes "operator")
          (some (codes "f1"))
          (given none)
        ≡ returns named)
    × (given named ≡ some cid)
    × ((ledger.query_funding_requests 0).0 ≡ returns rows)
    × (find (λ (r : FundingRequestRow). r.contract_id === cid) rows ≡ some row)
    × (row.trader ≡ codes "alice")
    × ((retried
          (ledger.bind_request (record {
            act_as = codes "operator" ∷ [];
            command_id = codes "order-bind:ref";
            disclosure = none;
            argument = record { funding_request_cid = codes "f1"; settlement_ref = codes "ref" };
          }))
          0).0
        ≡ returns bound)
    × (is_missing bound.settlement ≡ false)
    × (is_missing bound.allocation_specs ≡ false)
bind-IsOwned_example =
    bind-IsOwned ledger (codes "operator") bind_input (codes "alice") 0 bound refl bind_returns
