-- ===== src/Rfq.antt =====
-- services/operator-backend/src/rfq/index.ts: requests for quotes. The ledger's queries and choices are
-- a record of calls on a state; `Date.parse` and the digest of a receipt are arguments.
pub mod Accepted
pub mod Lookups
pub mod Swept
use canton_dex_reference_imp.Prelude.{
  ℕ, Bool, true, false, not, Option, none, some, List, [], ◌∷◌, ◌++◌, map, find, filterb,
  if◌then◌else◌,
}
use canton_dex_reference_imp.Prelude.Int.{ℤ}
use canton_dex_reference_imp.Prelude.Outcome.{
  Outcome, returns, throws, Thrown, error, auth_error, throw_if, or_throw,
}
use canton_dex_reference_imp.Prelude.Flow.{Flow, answer, lift, ◌>>=◌, ◌>>◌}
use canton_dex_reference_imp.Prelude.Text.{Str, codes, ◌===◌}
use canton_dex_reference_imp.Types.{
  Party, ContractId, Decimal, Time, InstrumentId, RfqQuote, PolicyReceipt,
}
use canton_dex_reference_imp.Policy.{text_before, rank_quotes, build_receipt}
use canton_dex_reference_imp.Order.{Submission, retried}

pub data RfqSide : Type 0 where
  rfq_buy rfq_sell : RfqSide

pub record Rfq : Type 0 where
  pub contract_id : ContractId
  pub trader : Party
  pub operator : Party
  pub rfq_id : Str
  pub base_instrument_id : InstrumentId
  pub quote_instrument_id : InstrumentId
  pub side : RfqSide
  pub size : Decimal
  pub expires_at : Time
  pub whitelist : List Party
  pub created_at : Time

pub record RfqAcceptInput : Type 0 where
  pub rfq_cid : ContractId
  pub accepted_quote_cid : ContractId
  pub considered_quote_cids : List ContractId
  pub now : Time
  pub require_trader : Option Party

pub record RfqAcceptResult : Type 0 where
  pub trade_cid : ContractId
  pub receipt : PolicyReceipt

-- `RfqCreateInput`, and the argument of the create command.
pub record RfqCreateInput : Type 0 where
  pub trader : Party
  pub rfq_id : Str
  pub base_instrument_id : InstrumentId
  pub quote_instrument_id : InstrumentId
  pub side : RfqSide
  pub size : Decimal
  pub expires_at : Time
  pub whitelist : List Party
  pub created_at : Time

pub record RfqArgument : Type 0 where
  pub operator : Party
  pub request : RfqCreateInput

pub record ExpireArgument : Type 0 where
  pub rfq_cid : ContractId
  pub current_time : Time

pub record AcceptArgument : Type 0 where
  pub rfq_cid : ContractId
  pub accepted_quote_cid : ContractId
  pub considered_quote_cids : List ContractId
  pub current_time : Time
  pub signature : Str

pub record RfqLedger (S : Type 0) : Type 0 where
  pub query_rfqs : Flow S (List Rfq)
  pub query_quotes : Flow S (List RfqQuote)
  pub create_rfq : Submission RfqArgument → Flow S ContractId
  pub expire_rfq : Submission ExpireArgument → Flow S (Unit {0})
  pub cancel_rfq : Submission ContractId → Flow S (Unit {0})
  pub accept_rfq : Submission AcceptArgument → Flow S RfqAcceptResult

-- `r.expiresAt <= now`, on texts.
unfoldable pub has_expired : Time → Rfq → Bool
has_expired now r = not (text_before now r.expires_at)

-- The test on the caller of a cancel or an accept.
unfoldable pub check_owner : Rfq → Option Party → Thrown → Outcome (Unit {0})
check_owner rfq none e = returns tt
check_owner rfq (some trader) e = throw_if (not (rfq.trader === trader)) e

-- `byCid.get(cid)`: of quotes with one contract id the last stays in the map.
unfoldable pub quote_by_cid : ContractId → List RfqQuote → Option RfqQuote
quote_by_cid cid [] = none
quote_by_cid cid (q ∷ qs) =
    let later = quote_by_cid cid qs in
    elim later [ some found ↦ some found | none ↦ if q.contract_id === cid then some q else none ]

-- The quotes of the ids, in their order.
unfoldable pub pick_quotes : List RfqQuote → List ContractId → Outcome (List RfqQuote)
pick_quotes quotes [] = returns []
pick_quotes quotes (cid ∷ cids) =
    picked (or_throw (quote_by_cid cid quotes) (error "RfqQuote not visible to operator"))
      (pick_quotes quotes cids)
  where
    picked : Outcome RfqQuote → Outcome (List RfqQuote) → Outcome (List RfqQuote)
    picked (returns q) (returns qs) = returns (q ∷ qs)
    picked (returns q) (throws e) = throws e
    picked (throws e) rest = throws e

-- The quote with a contract id.
unfoldable pub find_quote : ContractId → List RfqQuote → Option RfqQuote
find_quote cid quotes = find (λ (q : RfqQuote). q.contract_id === cid) quotes

abbrev pub cid_of_quote : RfqQuote → ContractId
cid_of_quote q = q.contract_id

module _ {S : Type 0} (ledger : RfqLedger S) (operator_party : Party) where
  unfoldable pub list_rfqs : Flow S (List Rfq × List RfqQuote)
  list_rfqs = do rfqs ← ledger.query_rfqs; quotes ← ledger.query_quotes; answer (rfqs, quotes)

  unfoldable pub list_expired : Time → Flow S (List Rfq)
  list_expired now = do rfqs ← ledger.query_rfqs; answer (filterb (has_expired now) rfqs)

  unfoldable pub expire : ContractId → Str → Time → Flow S (Unit {0})
  expire rfq_cid rfq_id now = retried (
      ledger.expire_rfq (record {
        act_as = operator_party ∷ [];
        command_id = codes "rfq-expire:" ++ rfq_id;
        disclosure = none;
        argument = record { rfq_cid = rfq_cid; current_time = now };
      }))

  abbrev pub swept_id : Outcome (Unit {0}) → Str → List Str
  swept_id (returns u) rfq_id = rfq_id ∷ []
  swept_id (throws e) rfq_id = []

  -- Each expired request in turn; what one throws is only logged.
  unfoldable pub sweep_each : Time → List Rfq → S → List Str × S
  sweep_each now [] s = ([], s)
  sweep_each now (r ∷ rs) s =
      let expired = expire r.contract_id r.rfq_id now s in
      let rest = sweep_each now rs expired.1 in (swept_id expired.0 r.rfq_id ++ rest.0, rest.1)

  abbrev sweep_found : Time → List Rfq → Flow S (List Str)
  sweep_found now rfqs s = (returns (sweep_each now rfqs s).0, (sweep_each now rfqs s).1)

  unfoldable pub sweep_expired : Time → Flow S (List Str)
  sweep_expired now = do expired ← list_expired now; sweep_found now expired

  unfoldable pub create : RfqCreateInput → Flow S ContractId
  create input = retried (
      ledger.create_rfq (record {
        act_as = input.trader ∷ [];
        command_id = codes "rfq-create:" ++ input.rfq_id;
        disclosure = none;
        argument = record { operator = operator_party; request = input };
      }))

  unfoldable pub fetch_rfq : ContractId → Flow S Rfq
  fetch_rfq cid = do
    all ← ledger.query_rfqs
    lift (or_throw (find (λ (r : Rfq). r.contract_id === cid) all) (error "Rfq not visible"))

  unfoldable pub fetch_quotes : List ContractId → Flow S (List RfqQuote)
  fetch_quotes cids = do all ← ledger.query_quotes; lift (pick_quotes all cids)

  unfoldable pub cancel_rfq : ContractId → Option Party → Flow S (Unit {0})
  cancel_rfq rfq_cid require_trader = do
    rfq ← fetch_rfq rfq_cid
    lift (check_owner rfq require_trader (auth_error "caller may only cancel its own RFQ"))
    retried (
        ledger.cancel_rfq (record {
          act_as = rfq.trader ∷ [];
          command_id = codes "rfq-cancel:" ++ rfq.rfq_id;
          disclosure = none;
          argument = rfq_cid;
        }))

  module _ (date_parse : Time → Option ℤ) (sign_receipt : PolicyReceipt → Str) where
    -- The submission of the ranked quotes with the receipt's signature.
    unfoldable pub submit_accept :
        RfqAcceptInput → Rfq → List RfqQuote → PolicyReceipt → Flow S RfqAcceptResult
    submit_accept input rfq ranked receipt = ledger.accept_rfq (record {
      act_as = rfq.trader ∷ operator_party ∷ [];
      command_id = codes "rfq-accept:" ++ rfq.rfq_id;
      disclosure = none;
      argument = record {
        rfq_cid = input.rfq_cid;
        accepted_quote_cid = input.accepted_quote_cid;
        considered_quote_cids = map cid_of_quote ranked;
        current_time = input.now;
        signature = receipt.signature;
      };
    })

    -- One attempt of `accept`.
    unfoldable pub accept_once : RfqAcceptInput → Flow S RfqAcceptResult
    accept_once input = do
      rfq ← fetch_rfq input.rfq_cid
      lift (check_owner rfq input.require_trader (auth_error "caller may only accept its own RFQ"))
      quotes ← fetch_quotes input.considered_quote_cids
      accepted ← lift (
          or_throw (find_quote input.accepted_quote_cid quotes)
            (error "accepted quote not in considered set"))
      survivor ← lift (
          or_throw (find_quote accepted.contract_id (rank_quotes date_parse quotes input.now))
            (error "accepted quote did not survive validity filter"))
      receipt ← lift (
          build_receipt date_parse sign_receipt (record {
            rfq_id = rfq.rfq_id;
            quotes = quotes;
            accepted_dealer = accepted.dealer;
            signed_by = operator_party;
            signed_at = input.now;
            now = none;
          }))
      submit_accept input rfq (rank_quotes date_parse quotes input.now) receipt

    -- `accept`: every attempt reads the ledger anew.
    unfoldable pub accept : RfqAcceptInput → Flow S RfqAcceptResult
    accept input = retried (accept_once input)
