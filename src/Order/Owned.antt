-- ===== src/Order/Owned.antt =====
-- services/operator-backend/src/order/index.ts: a caller's orders are its own.
use Prim.Native.String.{String}
use canton_dex_reference_imp.Prelude.{
  ◌≡◌, refl, ap, ◌∙◌, Bool, true, false, true_of_not, not, ◌||◌, Option, none, some, List, [], ◌∷◌,
  ◌++◌, find,
}
use canton_dex_reference_imp.Prelude.Outcome.{
  returns, throws, Thrown, error, auth_error, or_throw, throw_if, throw_if-eq-returns,
  returns-injective,
}
use canton_dex_reference_imp.Prelude.Flow.{lift, follow-keeps, follow-eq-returns}
use canton_dex_reference_imp.Prelude.Text.{codes, ◌===◌, ===→eq}
use canton_dex_reference_imp.Prelude.Assoc.{some-injective}
use canton_dex_reference_imp.Types.{Party, ContractId, Order}
use canton_dex_reference_imp.Http.Auth.{given}
use canton_dex_reference_imp.Order.{
  FundingRequestRow, OrderBindResult, OrderLedger, list_open, find_order, retried,
}
use canton_dex_reference_imp.Order.Service.{
  OrderBindInput, OrderFundInput, bind, fund, cancel, find_open, order_if_needed, check_trader,
  check_request, submit_bind, funding_request_of, is_missing,
}

module _ {S : Type 0} (ledger : OrderLedger S) (operator_party : Party) where
  -- The open orders are read, and the order is one of them.
  find_open-some :
      (cid : ContractId) (s s₁ : S) (orders : List Order) (order : Order)
      → list_open ledger s ≡ (returns orders, s₁)
      → find_order cid orders ≡ some order
      → find_open ledger operator_party cid s ≡ (returns order, s₁)
  unfolding find_open
  find_open-some cid s s₁ orders order read found = rw (read, found)

  check_trader-refuses :
      (order : Order) (trader : Party) (message : String)
      → (order.trader === trader) ≡ false
      → check_trader ledger operator_party (some order) (some trader) message
        ≡ throws (auth_error message)
  unfolding check_trader
  check_trader-refuses order trader message other = rw other

  -- A caller that is not the trader of the open order can neither cancel nor fund it: both calls end
  -- with an authorization error, and leave the ledger and the registry as the read of the open
  -- orders left them.
  pub orders-refused :
      (cid : ContractId) (trader : Party) (request_cid : Option ContractId) (input : OrderFundInput)
      (s s₁ : S) (orders : List Order) (order : Order)
      → input.order_cid ≡ cid
      → input.require_trader ≡ some trader
      → list_open ledger s ≡ (returns orders, s₁)
      → find_order cid orders ≡ some order
      → (order.trader === trader) ≡ false
      → (cancel ledger operator_party cid (some trader) request_cid s
          ≡ (throws (auth_error "caller may only cancel its own order"), s₁))
        × (fund ledger operator_party input s
            ≡ (throws (auth_error "caller may only fund its own order"), s₁))
  unfolding cancel fund order_if_needed
  orders-refused cid trader request_cid input s s₁ orders order same required read found other =
      let opened = find_open-some cid s s₁ orders order read found in
      (
        rw (opened, check_trader-refuses order trader "caller may only cancel its own order" other),
        rw (
          same,
          required,
          opened,
          check_trader-refuses order trader "caller may only fund its own order" other,
        ),
      )

  or_throw-eq-returns {ℓ} :
      {A : Type ℓ} (o : Option A) (e : Thrown) {a : A} → or_throw o e ≡ returns a → o ≡ some a
  or_throw-eq-returns none e h = absurd (cc)
  or_throw-eq-returns (some a) e h = ap some (returns-injective h)

  check_request-owner :
      (cid : ContractId) (required : Option Party) (trader : Party) (s : S)
      → required ≡ some trader
      → (check_request ledger operator_party cid required s).0 ≡ returns tt
      → (rows : List FundingRequestRow) × (row : FundingRequestRow)
        × ((ledger.query_funding_requests s).0 ≡ returns rows)
        × (find (λ (r : FundingRequestRow). r.contract_id === cid) rows ≡ some row)
        × (row.trader ≡ trader)
  unfolding check_request
  check_request-owner cid none trader s is_required h = absurd (cc)
  check_request-owner cid (some owner) trader s is_required h =
      let read = ledger.query_funding_requests s in
      let (rows, is_rows, h₁) = follow-eq-returns read.0 read.1 _ h in
      let (row, is_row, h₂) = follow-eq-returns _ read.1 _ h₁ in
      (
        rows,
        row,
        is_rows,
        or_throw-eq-returns _ _ is_row,
        ===→eq row.trader owner (true_of_not _ (throw_if-eq-returns _ _ h₂))
            ∙ some-injective is_required,
      )

  -- Whatever it ends with, the test on the caller only reads.
  check_request-state :
      (cid : ContractId) (required : Option Party) (trader : Party) (s : S)
      → required ≡ some trader
      → (check_request ledger operator_party cid required s).1 ≡ (ledger.query_funding_requests s).1
  unfolding check_request
  check_request-state cid none trader s is_required = absurd (cc)
  check_request-state cid (some owner) trader s is_required =
      let read = ledger.query_funding_requests s in
      follow-keeps read.0 read.1 _ (λ rows.
        let row =
          or_throw (find (λ (r : FundingRequestRow). r.contract_id === cid) rows)
            (error "Order funding request not found") in
        follow-keeps row read.1
          (λ (request : FundingRequestRow). lift (
            throw_if (not (request.trader === owner))
              (auth_error "caller may only bind its own order request")))
          (λ request. refl))

  or-eq-false : (a b : Bool) → (a || b) ≡ false → (a ≡ false) × (b ≡ false)
  or-eq-false true b h = absurd (cc)
  or-eq-false false b h = (refl, h)

  -- A bind for a required trader that returns has submitted the bind of one funding request, with the
  -- operator as the only party, right after it has read the ledger's funding requests: the request is
  -- among them and is the trader's, it is the one that the caller named or that its update created,
  -- and the result is what this submission, with its retries, returned. The result has its
  -- settlement and its allocation specifications.
  pub bind-IsOwned :
      (input : OrderBindInput) (trader : Party) (s : S) (result : OrderBindResult)
      → input.require_trader ≡ some trader
      → (bind ledger operator_party input s).0 ≡ returns result
      → (named : Option ContractId) × (cid : ContractId) × (rows : List FundingRequestRow)
        × (row : FundingRequestRow) × (funding_request_of ledger operator_party
              input.funding_request_cid
              (given input.update_id)
            ≡ returns named)
        × (given named ≡ some cid)
        × ((ledger.query_funding_requests s).0 ≡ returns rows)
        × (find (λ (r : FundingRequestRow). r.contract_id === cid) rows ≡ some row)
        × (row.trader ≡ trader)
        × ((retried
              (ledger.bind_request (record {
                act_as = operator_party ∷ [];
                command_id = codes "order-bind:" ++ input.settlement_ref;
                disclosure = none;
                argument = record {
                  funding_request_cid = cid;
                  settlement_ref = input.settlement_ref;
                };
              }))
              (ledger.query_funding_requests s).1).0
            ≡ returns result)
        × (is_missing result.settlement ≡ false)
        × (is_missing result.allocation_specs ≡ false)
  unfolding bind submit_bind
  bind-IsOwned input trader s result required h =
      let (named, is_named, h₁) = follow-eq-returns _ s _ h in
      let (cid, is_cid, h₂) = follow-eq-returns _ s _ h₁ in
      let tested = check_request ledger operator_party cid input.require_trader s in
      let (u, passed, h₃) = follow-eq-returns tested.0 tested.1 _ h₂ in
      let (rows, row, read, found, own) =
        check_request-owner cid input.require_trader trader s required passed in
      let sent = submit_bind ledger operator_party cid input.settlement_ref tested.1 in
      let (bound, is_bound, h₄) = follow-eq-returns sent.0 sent.1 _ h₃ in
      let (v, complete, h₅) = follow-eq-returns _ sent.1 _ h₄ in
      let (a, b) = or-eq-false _ _ (throw_if-eq-returns _ _ complete) in
      let same : bound ≡ result = returns-injective h₅ in
      let read_only = check_request-state cid input.require_trader trader s required in
      (
        named,
        cid,
        rows,
        row,
        is_named,
        or_throw-eq-returns _ _ is_cid,
        read,
        found,
        own,
        rw (← same, ← read_only) is_bound,
        rw (← same) a,
        rw (← same) b,
      )
