-- ===== src/Examples/Quotes.antt =====
-- The theorems on requests for quotes at concrete inputs.
use canton_dex_reference_imp.Prelude.{
  ℕ, suc, ◌≡◌, refl, Option, none, some, List, [], ◌∷◌, if◌then◌else◌,
}
use canton_dex_reference_imp.Prelude.Int.{ℤ, pos}
use canton_dex_reference_imp.Prelude.Outcome.{Outcome, returns, throws, error}
use canton_dex_reference_imp.Prelude.Text.{Str, codes, ◌===◌}
use canton_dex_reference_imp.Prelude.Sort.{sort, insert}
use canton_dex_reference_imp.Types.{Time, InstrumentId, DealerTier, RfqQuote, PolicyReceipt}
use canton_dex_reference_imp.Policy.{
  build_receipt, rank_quotes, quote_before, compare_quotes, text_before, is_valid_at,
  ranked_dealers_of, ranked_from, index_from,
}
use canton_dex_reference_imp.Ledger.{retry_on_contention, retry_from}
use canton_dex_reference_imp.Rfq.{
  Rfq, RfqSide, RfqAcceptInput, RfqAcceptResult, RfqLedger, ExpireArgument, check_owner,
  quote_by_cid, pick_quotes, find_quote, fetch_rfq, fetch_quotes, submit_accept, accept_once,
  accept,
}
use canton_dex_reference_imp.Rfq.Accepted.{IsAccepted, accept-IsAccepted}
use canton_dex_reference_imp.Order.{Submission}

abbrev instrument : InstrumentId
instrument = record { admin = codes "admin"; id = codes "CC" }

abbrev rfq : Str → Str → Rfq
rfq id expires_at = record {
  contract_id = id;
  trader = codes "alice";
  operator = codes "operator";
  rfq_id = id;
  base_instrument_id = instrument;
  quote_instrument_id = instrument;
  side = RfqSide.rfq_buy;
  size = codes "1";
  expires_at = expires_at;
  whitelist = [];
  created_at = codes "1";
}

abbrev rfqs : List Rfq
rfqs = rfq (codes "r1") (codes "4") ∷ rfq (codes "r2") (codes "9") ∷ []

abbrev quote : RfqQuote
quote = record {
  contract_id = codes "q1";
  dealer = codes "bob";
  trader = codes "alice";
  operator = codes "operator";
  rfq_id = codes "r2";
  price = codes "2";
  expires_at = codes "9";
  posted_at = codes "1";
  tier = DealerTier.tier_trusted;
}

abbrev no_receipt : PolicyReceipt
no_receipt = record {
  policy_version = [];
  policy_hash = [];
  rfq_id = codes "r2";
  ranked_dealers = [];
  accepted_dealer = codes "bob";
  accepted_rank = 1;
  considered_count = 1;
  signed_by = codes "operator";
  signed_at = codes "5";
  signature = [];
}

abbrev trade : RfqAcceptResult
trade = record { trade_cid = codes "t1"; receipt = no_receipt }

-- The state counts the submissions.
abbrev ledger : RfqLedger ℕ
ledger = record {
  query_rfqs = λ n. (returns rfqs, n);
  query_quotes = λ n. (returns (quote ∷ []), n);
  create_rfq = λ sub n. (returns (codes "r3"), suc n);
  expire_rfq = λ sub n. (returns tt, suc n);
  cancel_rfq = λ sub n. (returns tt, suc n);
  accept_rfq = λ sub n. (returns trade, suc n);
}

-- A time is a digit.
abbrev parse_time : Time → Option ℤ
parse_time [] = none
parse_time (c ∷ s) = some (pos c)

abbrev sign : PolicyReceipt → Str
sign r = codes "0x"

abbrev accept_input : RfqAcceptInput
accept_input = record {
  rfq_cid = codes "r2";
  accepted_quote_cid = codes "q1";
  considered_quote_cids = codes "q1" ∷ [];
  now = codes "5";
  require_trader = some (codes "alice");
}

accepts : (accept ledger (codes "operator") parse_time sign accept_input 0).0 ≡ returns trade
unfolding accept accept_once fetch_rfq check_owner fetch_quotes pick_quotes quote_by_cid find_quote
    submit_accept retry_on_contention retry_from build_receipt rank_quotes quote_before
    compare_quotes text_before is_valid_at ranked_dealers_of ranked_from index_from sort insert
    ◌===◌
accepts = refl

accept-IsAccepted_example :
    (t : ℕ) × IsAccepted ledger
      (codes "operator")
      parse_time
      sign
      accept_input
      (codes "alice")
      t
      trade
accept-IsAccepted_example =
    accept-IsAccepted ledger (codes "operator") parse_time sign accept_input (codes "alice") 0 trade
      refl accepts

-- Of three requests the second has not expired, and the third's expiry is refused.
abbrev stale : List Rfq
stale =
    rfq (codes "r1") (codes "4") ∷ rfq (codes "r2") (codes "9") ∷ rfq (codes "r3") (codes "5") ∷ []

abbrev reply : Submission ExpireArgument → Outcome (Unit {0})
reply sub =
    if sub.command_id === codes "rfq-expire:r3" then throws (error "archived") else returns tt

-- The state is the submitted command ids, the last one first.
abbrev note : Submission ExpireArgument → List Str → List Str
note sub log = sub.command_id ∷ log

abbrev sweep_ledger : RfqLedger (List Str)
sweep_ledger = record {
  query_rfqs = λ log. (returns stale, log);
  query_quotes = λ log. (returns [], log);
  create_rfq = λ sub log. (returns (codes "r4"), log);
  expire_rfq = λ sub log. (reply sub, note sub log);
  cancel_rfq = λ sub log. (returns tt, log);
  accept_rfq = λ sub log. (returns trade, log);
}
