-- ===== src/Order.antt =====
-- services/operator-backend/src/order/index.ts: the order service. Its ledger and its registry are
-- records of calls on a state; what a choice answers, and the context that a registry supplies, are
-- the records and JSON values of the source. Pauses between retries and the log are left out.
pub mod Service
pub mod Run
pub mod Owned
pub mod Closed
use canton_dex_reference_imp.Prelude.{
  ℕ, Bool, true, false, Option, none, some, List, [], ◌∷◌, map, find, if◌then◌else◌,
}
use canton_dex_reference_imp.Prelude.Outcome.{Outcome, returns, throws}
use canton_dex_reference_imp.Prelude.Flow.{Flow, answer, lift, ◌>>=◌}
use canton_dex_reference_imp.Prelude.Text.{Str, codes, ◌===◌}
use canton_dex_reference_imp.Json.{JsonValue, JsonFields, object, no_fields, field}
use canton_dex_reference_imp.Types.{Party, ContractId, Decimal, InstrumentId, OrderStatus, Order}
use canton_dex_reference_imp.Pool.Swap.{V2Account}
use canton_dex_reference_imp.Settlement.{
  ChoiceContextRef, ChoiceContext, as_choice_context, empty_extra_args, RegistryBatchInput,
  SettlementFactory, discover_batches_by_admin, discover_each,
}
use canton_dex_reference_imp.Ledger.{DisclosedContract, retry_on_contention, merge_disclosures}
use canton_dex_reference_imp.Recover.{TreeReader}
use canton_dex_reference_imp.Http.Auth.{strip_prefix}

-- A command: who acts, its id, the disclosures with it, and the argument of its choice.
pub record Submission (A : Type 0) : Type 0 where
  pub act_as : List Party
  pub command_id : Str
  pub disclosure : Option (List DisclosedContract)
  pub argument : A

pub record BindArgument : Type 0 where
  pub funding_request_cid : ContractId
  pub settlement_ref : Str

-- `none` where the ledger's result left a field out.
pub record OrderBindResult : Type 0 where
  pub order_cid : ContractId
  pub allocation_request_cid : ContractId
  pub settlement : Option JsonValue
  pub allocation_specs : Option JsonValue

pub record FundArgument : Type 0 where
  pub order_cid : ContractId
  pub allocation_cids : List ContractId
  pub allocation_request_cid : Option ContractId

pub record OrderFundResult : Type 0 where
  pub order_cid : ContractId
  pub allocation_cids_by_admin : List (Party × ContractId)

pub record CancelArgument : Type 0 where
  pub order_cid : ContractId
  pub extra_args_by_admin : List (Party × JsonFields)

pub record WithdrawArgument : Type 0 where
  pub request_cid : ContractId
  pub actors : List Party
  pub extra_args : JsonFields

pub record MatchedOrderPair : Type 0 where
  pub buyer_account : V2Account
  pub seller_account : V2Account
  pub base_instrument_id : Str
  pub quote_instrument_id : Str
  pub fill_qty : Decimal
  pub fill_price : Decimal

pub record ExecutionArgument : Type 0 where
  pub operator : Party
  pub match_id : Str
  pub matched : MatchedOrderPair
  pub buy_order_cid : ContractId
  pub sell_order_cid : ContractId
  pub buyer_allocation_cids_by_admin : List (Party × ContractId)
  pub seller_allocation_cids_by_admin : List (Party × ContractId)

pub record ExecuteArgument : Type 0 where
  pub execution : ExecutionArgument
  pub batches_by_admin : List (Party × RegistryBatchInput)

pub record OrderMatchExecuteResult : Type 0 where
  pub buyer_next_allocation_cids_by_admin : List (Party × ContractId)
  pub seller_next_allocation_cids_by_admin : List (Party × ContractId)
  pub buy_remainder_cid : Option ContractId
  pub sell_remainder_cid : Option ContractId

-- A row of the order query, whose status is a text with or without `OS_`.
pub record OrderRow : Type 0 where
  pub row : Order
  pub status_text : Str

pub record FundingRequestRow : Type 0 where
  pub contract_id : ContractId
  pub trader : Party

-- The ledger's queries and choices, and the registry's two contexts, that the service uses.
-- `cancel_order` answers the update id where the driver reports one.
pub record OrderLedger (S : Type 0) : Type 0 where
  pub query_orders : Flow S (List OrderRow)
  pub query_funding_requests : Flow S (List FundingRequestRow)
  pub trees : TreeReader
  pub bind_request : Submission BindArgument → Flow S OrderBindResult
  pub fund_order : Submission FundArgument → Flow S OrderFundResult
  pub cancel_order : Submission CancelArgument → Flow S (Option Str)
  pub withdraw_request : Submission WithdrawArgument → Flow S (Unit {0})
  pub preview_settlement : Submission ExecutionArgument → Flow S (List (Party × JsonValue))
  pub execute_match : Submission ExecuteArgument → Flow S OrderMatchExecuteResult
  pub cancel_context : Party → ContractId → Flow S ChoiceContextRef
  pub settlement_factory : Party → JsonValue → Flow S SettlementFactory

-- `retryOnContention` with its five attempts, from 50 to 1000 milliseconds apart.
abbrev pub retried : {S : Type 0} {A : Type 0} → Flow S A → Flow S A
retried attempt s =
    ((retry_on_contention attempt 5 50 1_000 s).0, (retry_on_contention attempt 5 50 1_000 s).1)

-- `s.startsWith("OS_") ? s.slice(3) : s`
unfoldable pub without_os : Str → Str
without_os s = elim (strip_prefix (codes "OS_") s) [ none ↦ s | some rest ↦ rest ]

unfoldable pub to_status : Str → OrderStatus
to_status s =
    if s === codes "Pending"
    then OrderStatus.pending
    else if s === codes "Funded"
    then OrderStatus.funded
    else if s === codes "PartiallyFilled"
    then OrderStatus.partially_filled
    else OrderStatus.other s

unfoldable pub order_of_row : OrderRow → Order
order_of_row r = record {
  contract_id = r.row.contract_id;
  operator = r.row.operator;
  trader = r.row.trader;
  base_instrument_id = r.row.base_instrument_id;
  quote_instrument_id = r.row.quote_instrument_id;
  side = r.row.side;
  limit_price = r.row.limit_price;
  remaining_qty = r.row.remaining_qty;
  expiry = r.row.expiry;
  status = to_status (without_os r.status_text);
  allocation_cids_by_admin = r.row.allocation_cids_by_admin;
  settlement_ref = r.row.settlement_ref;
  ledger_created_at = r.row.ledger_created_at;
}

unfoldable pub list_open : {S : Type 0} → OrderLedger S → Flow S (List Order)
list_open ledger = do rows ← ledger.query_orders; answer (map order_of_row rows)

unfoldable pub find_order : ContractId → List Order → Option Order
find_order cid orders = find (λ (o : Order). o.contract_id === cid) orders
