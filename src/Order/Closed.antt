-- ===== src/Order/Closed.antt =====
-- services/operator-backend/src/order/index.ts: an order that a matching run closed out stays out of it.
use canton_dex_reference_imp.Prelude.{
  ◌≡◌, refl, arith, Bool, true, false, ◌||◌, Bool-cases, Option, none, some, inl, inr, List, [],
  ◌∷◌, ◌++◌, All, All-append,
}
use canton_dex_reference_imp.Prelude.Int.{ℤ}
use canton_dex_reference_imp.Prelude.Outcome.{Outcome, returns, throws, Thrown, returns-injective}
use canton_dex_reference_imp.Prelude.Flow.{follow-eq-returns}
use canton_dex_reference_imp.Prelude.Text.{◌===◌, ===→eq, ===-refl}
use canton_dex_reference_imp.Types.{Party, ContractId, Order}
use canton_dex_reference_imp.Matching.{Host, Match, PairKey}
use canton_dex_reference_imp.Http.Auth.{given}
use canton_dex_reference_imp.Order.{OrderLedger, OrderMatchExecuteResult}
use canton_dex_reference_imp.Order.Run.{
  MatchRunResult, LiveOrder, Progress, no_progress, advance_order, has_closed, next_of, after_match,
  result_of, settle_match, state_of, run_matches, find_matches, run_matching,
}

-- The order, if its side has no remainder.
abbrev if_closed : ContractId → Option ContractId → List ContractId
if_closed cid none = cid ∷ []
if_closed cid (some next) = []

-- The orders that a result closed out: none where the match failed.
abbrev closed_in :
    ContractId
    → ContractId
    → Option ContractId
    → Option ContractId
    → Option Thrown
    → List ContractId
closed_in buy sell buy_next sell_next (some e) = []
closed_in buy sell buy_next sell_next none = if_closed sell sell_next ++ if_closed buy buy_next

abbrev pub closed_by : MatchRunResult → List ContractId
closed_by r =
    closed_in r.buy_cid r.sell_cid (given r.buy_remainder_cid) (given r.sell_remainder_cid)
      r.failure

-- No result names the order.
abbrev pub Absent : List MatchRunResult → ContractId → Type 0
Absent out cid =
    All (λ (r : MatchRunResult). ((r.buy_cid === cid) ≡ false) × ((r.sell_cid === cid) ≡ false)) out

-- What a result closed out, no later result names.
abbrev pub StayClosed : List MatchRunResult → Type 0
StayClosed [] = Unit
StayClosed (r ∷ rest) = All (Absent rest) (closed_by r) × StayClosed rest

advance_order-keeps :
    (o : Order) (next : Option LiveOrder) (p : Progress) (cid : ContractId)
    → has_closed p cid ≡ true
    → has_closed (advance_order o next p) cid ≡ true
unfolding has_closed advance_order
advance_order-keeps o none p cid h = rw h (ground arith)
advance_order-keeps o (some next) p cid h = h

advance_order-closes :
    (o : Order) (remainder : Option ContractId) (allocations : List (Party × ContractId))
    (p : Progress)
    → All
        (λ cid. has_closed (advance_order o (next_of remainder allocations) p) cid ≡ true)
        (if_closed o.contract_id remainder)
unfolding has_closed advance_order
advance_order-closes o none allocations p = (rw (===-refl o.contract_id), tt)
advance_order-closes o (some cid) allocations p = tt

after_match-keeps :
    (settled : Outcome OrderMatchExecuteResult) (m : Match) (p : Progress) (cid : ContractId)
    → has_closed p cid ≡ true
    → has_closed (after_match settled m p) cid ≡ true
unfolding after_match
after_match-keeps (throws e) m p cid h = h
after_match-keeps (returns x) m p cid h =
    advance_order-keeps m.sell _ (advance_order m.buy _ p) cid (advance_order-keeps m.buy _ p cid h)

All-map :
    (P Q : ContractId → Type 0) (xs : List ContractId)
    → ((x : ContractId) → P x → Q x)
    → All P xs
    → All Q xs
All-map P Q [] f h = tt
All-map P Q (x ∷ xs) f h = (f x h.0, All-map P Q xs f h.1)

after_match-closes :
    (settled : Outcome OrderMatchExecuteResult) (m : Match) (p : Progress)
    → All (λ cid. has_closed (after_match settled m p) cid ≡ true) (closed_by (result_of settled m))
unfolding after_match result_of
after_match-closes (throws e) m p = tt
after_match-closes (returns x) m p =
    let bought =
      advance_order m.buy
        (next_of (given x.buy_remainder_cid) x.buyer_next_allocation_cids_by_admin) p in
    All-append _ (if_closed m.sell.contract_id (given x.sell_remainder_cid))
      (if_closed m.buy.contract_id (given x.buy_remainder_cid))
      (advance_order-closes m.sell (given x.sell_remainder_cid)
        x.seller_next_allocation_cids_by_admin bought)
      (All-map _ _ (if_closed m.buy.contract_id (given x.buy_remainder_cid))
        (λ cid. advance_order-keeps m.sell _ bought cid)
        (advance_order-closes m.buy (given x.buy_remainder_cid)
          x.buyer_next_allocation_cids_by_admin p))

-- An order that is not closed is another one than an order that is.
open-other :
    (p : Progress) (cid closed : ContractId)
    → has_closed p cid ≡ false
    → has_closed p closed ≡ true
    → (cid === closed) ≡ false
open-other p cid closed h k = elim (Bool-cases (cid === closed)) [
  | inl same ↦ absurd (cc (h, k, ===→eq cid closed same))
  | inr other ↦ other
]

result_of-cids :
    (settled : Outcome OrderMatchExecuteResult) (m : Match)
    → ((result_of settled m).buy_cid ≡ m.buy.contract_id)
      × ((result_of settled m).sell_cid ≡ m.sell.contract_id)
unfolding result_of
result_of-cids (throws e) m = (refl, refl)
result_of-cids (returns x) m = (refl, refl)

or-eq-false : (a b : Bool) → (a || b) ≡ false → (a ≡ false) × (b ≡ false)
or-eq-false true b h = absurd (cc)
or-eq-false false b h = (refl, h)

module _ {S : Type 0} (ledger : OrderLedger S) (operator_party : Party) where
  run_matches-Absent :
      (ms : List Match) (p : Progress) (s : S) (cid : ContractId)
      → has_closed p cid ≡ true
      → Absent (run_matches ledger operator_party ms p s).0 cid
  unfolding run_matches
  run_matches-Absent [] p s cid h = tt
  run_matches-Absent (m ∷ ms) p s cid h =
      elim (Bool-cases (has_closed p m.buy.contract_id || has_closed p m.sell.contract_id)) [
        | inl skipped ↦ rw (skipped, run_matches) (run_matches-Absent ms p s cid h)
        | inr live ↦
            let settled =
              settle_match ledger operator_party m (state_of p m.buy) (state_of p m.sell) s in
            let (buy, sell) =
              or-eq-false (has_closed p m.buy.contract_id) (has_closed p m.sell.contract_id) live in
            let (b, c) = result_of-cids settled.0 m in
            rw (live, run_matches)
              (
                (
                  rw b (open-other p m.buy.contract_id cid buy h),
                  rw c (open-other p m.sell.contract_id cid sell h),
                ),
                run_matches-Absent ms (after_match settled.0 m p) settled.1 cid
                    (after_match-keeps settled.0 m p cid h),
              )
      ]

  run_matches-StayClosed :
      (ms : List Match) (p : Progress) (s : S)
      → StayClosed (run_matches ledger operator_party ms p s).0
  unfolding run_matches
  run_matches-StayClosed [] p s = tt
  run_matches-StayClosed (m ∷ ms) p s =
      elim (Bool-cases (has_closed p m.buy.contract_id || has_closed p m.sell.contract_id)) [
        | inl skipped ↦ rw (skipped, run_matches) (run_matches-StayClosed ms p s)
        | inr live ↦
            let settled =
              settle_match ledger operator_party m (state_of p m.buy) (state_of p m.sell) s in
            let next = after_match settled.0 m p in
            rw (live, run_matches)
              (
                All-map _ _ (closed_by (result_of settled.0 m))
                    (λ cid. run_matches-Absent ms next settled.1 cid)
                    (after_match-closes settled.0 m p),
                run_matches-StayClosed ms next settled.1,
              )
      ]

-- Whatever the ledger and the registry answer: once a match of a run was executed and left an order
-- without a remainder, no later result of the run names that order, on either side.
pub run_matching-StayClosed :
    {S : Type 0} (ledger : OrderLedger S) (operator_party : Party) (host : Host) (now_ms : ℤ)
    (pair : PairKey) (s : S) (out : List MatchRunResult)
    → (run_matching ledger operator_party host now_ms pair s).0 ≡ returns out
    → StayClosed out
unfolding run_matching
run_matching-StayClosed ledger operator_party host now_ms pair s out h =
    let found = find_matches ledger operator_party host now_ms pair s in
    let (matches, is_found, ran) = follow-eq-returns found.0 found.1 _ h in
    rw (← returns-injective ran)
      (run_matches-StayClosed ledger operator_party matches no_progress found.1)
