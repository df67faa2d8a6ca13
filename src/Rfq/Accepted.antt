-- ===== src/Rfq/Accepted.antt =====
-- What services/operator-backend/src/rfq/index.ts has checked when an accept returns.
use mathlib.Core.Path.{ap₂}
use mathlib.Core.List.{Memᴰ}
use canton_dex_reference_imp.Prelude.{
  All-Mem, ℕ, zero, suc, ◌*◌, min, ◌≡◌, ◌∙◌, true, Bool-cases, Option, none, some, inl, inr, ◌⊎◌,
  List, [], ◌∷◌, ◌++◌, All, sym, map,
}
use canton_dex_reference_imp.Prelude.Int.{ℤ}
use canton_dex_reference_imp.Prelude.Outcome.{Outcome, returns, throws, Thrown}
use canton_dex_reference_imp.Prelude.Flow.{Flow, follow-eq-returns}
use canton_dex_reference_imp.Prelude.Text.{Str, codes, ===→eq}
use canton_dex_reference_imp.Types.{Party, Time, RfqQuote, PolicyReceipt}
use canton_dex_reference_imp.Policy.{is_valid_at, rank_quotes, build_receipt}
use canton_dex_reference_imp.Ledger.{is_contention, after_attempt, retry_from, retry_on_contention}
use canton_dex_reference_imp.Order.{retried}
use canton_dex_reference_imp.Rfq.{
  Rfq, RfqAcceptInput, RfqAcceptResult, RfqLedger, find_quote, cid_of_quote, fetch_rfq,
  fetch_quotes, submit_accept, accept_once, accept,
}
use canton_dex_reference_imp.Rfq.Lookups.{
  or_throw-eq-returns, find-Mem, rank_quotes-valid, check_owner-own, fetch_rfq-Mem, fetch_rfq-state,
  fetch_quotes-all, fetch_quotes-state,
}

-- A round of a retry that returns: its attempt did, or the rounds after it.
after_attempt-returns :
    {S A : Type 0} (attempt : Flow S A) (o : Outcome A) (t : S) (delay : ℕ)
    (again : Thrown → Outcome A × S × List ℕ) {a : A}
    → (after_attempt attempt o t delay again).0 ≡ returns a
    → (o ≡ returns a) ⊎ ((e : Thrown) × ((again e).0 ≡ returns a))
after_attempt-returns attempt (returns b) t delay again h = inl h
after_attempt-returns attempt (throws e) t delay again h = elim (Bool-cases (is_contention e)) [
  | inl contention ↦ inr (e, rw contention at h)
  | inr final ↦ absurd (cc (rw final at h))
]

-- A retry that returns has made an attempt that returned the same.
retry_from-attempt :
    {S A : Type 0} (attempt : Flow S A) (rounds delay max_delay : ℕ) (e : Thrown) (s : S) {a : A}
    → (retry_from attempt rounds delay max_delay e s).0 ≡ returns a
    → (t : S) × ((attempt t).0 ≡ returns a)
unfolding retry_from
retry_from-attempt attempt zero delay max_delay e s h = absurd (cc)
retry_from-attempt attempt (suc rounds) delay max_delay e s h =
    elim (after_attempt-returns attempt (attempt s).0 (attempt s).1 delay _ h) [
      | inl now ↦ (s, now)
      | inr (e', later) ↦
          retry_from-attempt attempt rounds (min max_delay (delay * 2)) max_delay e' (attempt s).1
            later
    ]

pub retried-attempt :
    {S A : Type 0} (attempt : Flow S A) (s : S) {a : A}
    → (retried attempt s).0 ≡ returns a
    → (t : S) × ((attempt t).0 ≡ returns a)
unfolding retry_on_contention
retried-attempt attempt s h = retry_from-attempt attempt 5 50 1_000 _ s h

-- What an attempt that returned had read, checked and submitted, with the ledger's two answers and
-- the states after them: a request of the trader, the considered quotes, the accepted one among them,
-- and one with its contract id that is still valid at the call's time.
pub record IsAccepted {S : Type 0} (ledger : RfqLedger S) (operator_party : Party)
    (date_parse : Time → Option ℤ) (sign_receipt : PolicyReceipt → Str) (input : RfqAcceptInput)
    (trader : Party) (s : S) (result : RfqAcceptResult) : Type 0 where
  pub rfqs : List Rfq
  pub s₁ : S
  pub read_rfqs : ledger.query_rfqs s ≡ (returns rfqs, s₁)
  pub rfq : Rfq
  pub visible : Memᴰ rfq rfqs
  pub requested : rfq.contract_id ≡ input.rfq_cid
  pub own : rfq.trader ≡ trader
  pub all_quotes : List RfqQuote
  pub s₂ : S
  pub read_quotes : ledger.query_quotes s₁ ≡ (returns all_quotes, s₂)
  pub quotes : List RfqQuote
  pub considered : map cid_of_quote quotes ≡ input.considered_quote_cids
  pub on_ledger : All (λ q. Memᴰ q all_quotes) quotes
  pub accepted : RfqQuote
  pub among : Memᴰ accepted quotes
  pub chosen : accepted.contract_id ≡ input.accepted_quote_cid
  pub survivor : RfqQuote
  pub survivor_among : Memᴰ survivor quotes
  pub survivor_chosen : survivor.contract_id ≡ input.accepted_quote_cid
  pub valid : is_valid_at date_parse input.now survivor ≡ true
  pub receipt : PolicyReceipt
  pub built :
      build_receipt date_parse sign_receipt (record {
        rfq_id = rfq.rfq_id;
        quotes = quotes;
        accepted_dealer = accepted.dealer;
        signed_by = operator_party;
        signed_at = input.now;
        now = none;
      })
      ≡ returns receipt
  pub submitted :
      (ledger.accept_rfq
        (record {
          act_as = trader ∷ operator_party ∷ [];
          command_id = codes "rfq-accept:" ++ rfq.rfq_id;
          disclosure = none;
          argument = record {
            rfq_cid = input.rfq_cid;
            accepted_quote_cid = input.accepted_quote_cid;
            considered_quote_cids = map cid_of_quote (rank_quotes date_parse quotes input.now);
            current_time = input.now;
            signature = receipt.signature;
          };
        })
        s₂).0
      ≡ returns result

module _ {S : Type 0} (ledger : RfqLedger S) (operator_party : Party) (date_parse : Time → Option ℤ)
    (sign_receipt : PolicyReceipt → Str) where
  accept_once-IsAccepted :
      (input : RfqAcceptInput) (trader : Party) (s : S) (result : RfqAcceptResult)
      → input.require_trader ≡ some trader
      → (accept_once ledger operator_party date_parse sign_receipt input s).0 ≡ returns result
      → IsAccepted ledger operator_party date_parse sign_receipt input trader s result
  unfolding accept_once find_quote submit_accept
  accept_once-IsAccepted input trader s result required h =
      let read = fetch_rfq ledger operator_party input.rfq_cid s in
      let (rfq, visible, h₁) = follow-eq-returns read.0 read.1 _ h in
      let (u, owned, h₂) = follow-eq-returns _ read.1 _ h₁ in
      let fetched = fetch_quotes ledger operator_party input.considered_quote_cids read.1 in
      let (quotes, considered, h₃) = follow-eq-returns fetched.0 fetched.1 _ h₂ in
      let (accepted, among, h₄) = follow-eq-returns _ fetched.1 _ h₃ in
      let (survivor, ranked, h₅) = follow-eq-returns _ fetched.1 _ h₄ in
      let (receipt, built, h₆) = follow-eq-returns _ fetched.1 _ h₅ in
      let (rfqs, answered, m, requested) =
        fetch_rfq-Mem ledger operator_party input.rfq_cid s rfq visible in
      let (all, quoted, ids, there) =
        fetch_quotes-all ledger operator_party input.considered_quote_cids read.1 quotes
          considered in
      let own = check_owner-own rfq input.require_trader trader _ required owned in
      let (is_among, is_chosen) = find-Mem _ quotes (or_throw-eq-returns _ _ among) in
      let (ranked_in, same_cid) =
        find-Mem _ (rank_quotes date_parse quotes input.now) (or_throw-eq-returns _ _ ranked) in
      let (kept, valid) =
        All-Mem _ survivor _ (rank_quotes-valid date_parse quotes input.now) ranked_in in
      let chosen = ===→eq _ _ is_chosen in
      record {
        rfqs = rfqs;
        s₁ = read.1;
        read_rfqs =
            ap₂ (λ o t. (o, t)) answered
              (sym (fetch_rfq-state ledger operator_party input.rfq_cid s));
        rfq = rfq;
        visible = m;
        requested = requested;
        own = own;
        all_quotes = all;
        s₂ = fetched.1;
        read_quotes =
            ap₂ (λ o t. (o, t)) quoted
              (sym (fetch_quotes-state ledger operator_party input.considered_quote_cids read.1));
        quotes = quotes;
        considered = ids;
        on_ledger = there;
        accepted = accepted;
        among = is_among;
        chosen = chosen;
        survivor = survivor;
        survivor_among = kept;
        survivor_chosen = ===→eq _ _ same_cid ∙ chosen;
        valid = valid;
        receipt = receipt;
        built = built;
        submitted = rw (← own) h₆;
      }

  -- An accept for a required trader that returns has made an attempt that read the requests and then
  -- the quotes of the ledger. The named request is the trader's. The quotes it read have one quote
  -- for each considered id, in the order of the ids; one of them has the accepted id, and one with
  -- that id is still valid at the time of the call. The result is what the ledger returned for the
  -- accept of that request and quote by the trader and the operator, with the contract ids of the
  -- ranked quotes and the signature of the receipt built on the considered ones.
  pub accept-IsAccepted :
      (input : RfqAcceptInput) (trader : Party) (s : S) (result : RfqAcceptResult)
      → input.require_trader ≡ some trader
      → (accept ledger operator_party date_parse sign_receipt input s).0 ≡ returns result
      → (t : S) × IsAccepted ledger operator_party date_parse sign_receipt input trader t result
  unfolding accept
  accept-IsAccepted input trader s result required h =
      let (t, once) =
        retried-attempt (accept_once ledger operator_party date_parse sign_receipt input) s h in
      (t, accept_once-IsAccepted input trader t result required once)
