-- ===== src/Order/Service.antt =====
-- services/operator-backend/src/order/index.ts: bind, fund and cancel.
use Prim.Native.String.{String}
use canton_dex_reference_imp.Prelude.{
  ℕ, Bool, true, false, not, ◌||◌, Option, none, some, List, [], ◌∷◌, ◌++◌, map, find, length,
  if◌then◌else◌,
}
use canton_dex_reference_imp.Prelude.Outcome.{
  Outcome, returns, throws, error, auth_error, throw_if, or_throw,
}
use canton_dex_reference_imp.Prelude.Flow.{Flow, answer, lift, ◌>>=◌, ◌>>◌}
use canton_dex_reference_imp.Prelude.Text.{Str, codes, ◌===◌}
use canton_dex_reference_imp.Types.{Party, ContractId, Order}
use canton_dex_reference_imp.Settlement.{ChoiceContext, as_choice_context, empty_extra_args}
use canton_dex_reference_imp.Ledger.{merge_disclosures}
use canton_dex_reference_imp.Recover.{recover_created_allocations, recover_created_funding_request}
use canton_dex_reference_imp.Http.Auth.{given}
use canton_dex_reference_imp.Order.{
  OrderBindResult, OrderFundResult, FundingRequestRow, OrderLedger, retried, list_open, find_order,
}

pub record OrderBindInput : Type 0 where
  pub funding_request_cid : Option ContractId
  pub update_id : Option Str
  pub settlement_ref : Str
  pub require_trader : Option Party

pub record OrderFundInput : Type 0 where
  pub order_cid : ContractId
  pub allocation_cids : Option (List ContractId)
  pub allocation_cid : Option ContractId
  pub update_id : Option Str
  pub expected_allocations : Option ℕ
  pub allocation_request_cid : Option ContractId
  pub require_trader : Option Party

unfoldable pub pair_admins : Order → List Party
pair_admins order =
    if order.base_instrument_id.admin === order.quote_instrument_id.admin
    then order.base_instrument_id.admin ∷ []
    else order.base_instrument_id.admin ∷ order.quote_instrument_id.admin ∷ []

abbrev or_else {ℓ} : {A : Type ℓ} → Option A → Option A → Option A
or_else (some a) b = some a
or_else none b = b

abbrev pub is_missing {ℓ} : {A : Type ℓ} → Option A → Bool
is_missing none = true
is_missing (some a) = false

-- A list that is left out, or empty.
abbrev if_some_cids : Option (List ContractId) → Option (List ContractId)
if_some_cids none = none
if_some_cids (some []) = none
if_some_cids (some (c ∷ cs)) = some (c ∷ cs)

abbrev one_cid : Option ContractId → Option (List ContractId)
one_cid none = none
one_cid (some cid) = some (cid ∷ [])

-- `order ? pairAdmins(order).length : 1`
abbrev pair_count : Option Order → ℕ
pair_count none = 1
pair_count (some order) = length (pair_admins order)

abbrev count_or : Option ℕ → ℕ → ℕ
count_or none n = n
count_or (some m) n = m

module _ {S : Type 0} (ledger : OrderLedger S) (operator_party : Party) where
  -- The contract id that the caller gives, or the one that is recovered from the update.
  unfoldable pub funding_request_of : Option ContractId → Option Str → Outcome (Option ContractId)
  funding_request_of cid none = returns cid
  funding_request_of cid (some update_id) =
      recovered (recover_created_funding_request ledger.trees operator_party update_id)
    where
      recovered : Outcome ContractId → Outcome (Option ContractId)
      recovered (returns c) = returns (some c)
      recovered (throws e) = throws e

  -- The test on the caller of a bind.
  unfoldable pub check_request : ContractId → Option Party → Flow S (Unit {0})
  check_request cid none = answer tt
  check_request cid (some trader) = do
    requests ← ledger.query_funding_requests
    request ← lift (
        or_throw (find (λ (r : FundingRequestRow). r.contract_id === cid) requests)
          (error "Order funding request not found"))
    lift (
        throw_if (not (request.trader === trader))
          (auth_error "caller may only bind its own order request"))

  unfoldable pub submit_bind : ContractId → Str → Flow S OrderBindResult
  submit_bind cid settlement_ref = retried (
      ledger.bind_request (record {
        act_as = operator_party ∷ [];
        command_id = codes "order-bind:" ++ settlement_ref;
        disclosure = none;
        argument = record { funding_request_cid = cid; settlement_ref = settlement_ref };
      }))

  unfoldable pub bind : OrderBindInput → Flow S OrderBindResult
  bind input = do
    recovered ← lift (funding_request_of input.funding_request_cid (given input.update_id))
    cid ← lift (
        or_throw (given recovered)
          (error "order bind: supply fundingRequestCid or an updateId to recover it"))
    check_request cid input.require_trader
    result ← submit_bind cid input.settlement_ref
    lift (
        throw_if (is_missing result.settlement || is_missing result.allocation_specs)
          (error "order bind: on-ledger result omitted funding terms"))
    answer result

  unfoldable pub find_open : ContractId → Flow S Order
  find_open cid = do
    orders ← list_open ledger
    lift (or_throw (find_order cid orders) (error "Order not found"))

  abbrev some_order : ContractId → Flow S (Option Order)
  some_order cid = do order ← find_open cid; answer (some order)

  -- The order, where a trader is required or the allocations are to be recovered.
  unfoldable pub order_if_needed :
      ContractId → Option Party → Option Str → Option (List ContractId) → Flow S (Option Order)
  order_if_needed cid (some trader) update_id cids = some_order cid
  order_if_needed cid none (some u) none = some_order cid
  order_if_needed cid none (some u) (some cs) = answer none
  order_if_needed cid none none cids = answer none

  -- The test on the caller of a fund or a cancel.
  unfoldable pub check_trader : Option Order → Option Party → String → Outcome (Unit {0})
  check_trader order none message = returns tt
  check_trader none (some trader) message = returns tt
  check_trader (some order) (some trader) message =
      throw_if (not (order.trader === trader)) (auth_error message)

  unfoldable pub allocations_of :
      OrderFundInput → Option Order → Option Str → Outcome (Option (List ContractId))
  allocations_of input order none =
      returns (or_else input.allocation_cids (one_cid (given input.allocation_cid)))
  allocations_of input order (some u) = recovered (
      recover_created_allocations ledger.trees operator_party u
        (count_or input.expected_allocations (pair_count order)))
    where
      recovered : Outcome (List ContractId × Option ContractId) → Outcome (Option (List ContractId))
      recovered (returns r) = returns (some r.0)
      recovered (throws e) = throws e

  abbrev request_cid_of : Option Str → Option ContractId → Option ContractId
  request_cid_of none cid = cid
  request_cid_of (some u) cid = none

  unfoldable pub fund : OrderFundInput → Flow S OrderFundResult
  fund input = do
    order ←
        order_if_needed input.order_cid input.require_trader (given input.update_id)
          (or_else input.allocation_cids (one_cid (given input.allocation_cid)))
    lift (check_trader order input.require_trader "caller may only fund its own order")
    cids ← lift (allocations_of input order (given input.update_id))
    given_cids ← lift (
        or_throw (if_some_cids cids)
          (error "order fund: supply allocationCids or an updateId to recover them"))
    retried (
        ledger.fund_order (record {
          act_as = operator_party ∷ [];
          command_id = codes "order-fund:" ++ input.order_cid;
          disclosure = none;
          argument = record {
            order_cid = input.order_cid;
            allocation_cids = given_cids;
            allocation_request_cid =
                request_cid_of (given input.update_id) input.allocation_request_cid;
          };
        }))

  abbrev context_of : Party × ContractId → Flow S (Party × ChoiceContext)
  context_of entry = do
    discovered ← ledger.cancel_context entry.0 entry.1
    answer (entry.0, as_choice_context discovered)

  -- One cancel context for each allocation, in order; the first that is refused ends it.
  unfoldable pub cancel_contexts : List (Party × ContractId) → Flow S (List (Party × ChoiceContext))
  cancel_contexts [] = answer []
  cancel_contexts (entry ∷ entries) = do
    first ← context_of entry
    rest ← cancel_contexts entries
    answer (first ∷ rest)

  unfoldable pub withdraw_allocation_request : ContractId → Flow S (Unit {0})
  withdraw_allocation_request cid = retried (
      ledger.withdraw_request (record {
        act_as = operator_party ∷ [];
        command_id = codes "order-alloc-req-withdraw:" ++ cid;
        disclosure = none;
        argument = record {
          request_cid = cid;
          actors = operator_party ∷ [];
          extra_args = empty_extra_args;
        };
      }))

  -- The withdrawal is tried, and what it throws is only logged.
  unfoldable pub withdraw_if_any : Option ContractId → Flow S (Unit {0})
  withdraw_if_any none s = (returns tt, s)
  withdraw_if_any (some cid) s = (returns tt, (withdraw_allocation_request cid s).1)

  -- `cancel`; the answer is the update id, where there is one.
  unfoldable pub cancel : ContractId → Option Party → Option ContractId → Flow S (Option Str)
  cancel order_cid require_trader allocation_request_cid = do
    order ← find_open order_cid
    lift (check_trader (some order) require_trader "caller may only cancel its own order")
    per_admin ← cancel_contexts order.allocation_cids_by_admin
    disclosure ←
        lift (merge_disclosures (map (λ (e : Party × ChoiceContext). e.1.disclosure) per_admin))
    update_id ← retried (
        ledger.cancel_order (record {
          act_as = operator_party ∷ [];
          command_id = codes "order-cancel:" ++ order_cid;
          disclosure = some disclosure;
          argument = record {
            order_cid = order_cid;
            extra_args_by_admin =
                map (λ (e : Party × ChoiceContext). (e.0, e.1.extra_args)) per_admin;
          };
        }))
    withdraw_if_any (given allocation_request_cid)
    answer update_id
