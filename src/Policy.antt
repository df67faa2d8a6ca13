-- ===== src/Policy.antt =====
-- services/operator-backend/src/policy/index.ts: the ranking of quotes and the receipt of an accepted
-- one. `Date.parse` and the digest of a receipt are parameters.
pub mod Receipt
use canton_dex_reference_imp.Prelude.{
  ℕ, suc, ◌+◌, Bool, true, false, ◌&&◌, ltb, ◌==◌, Option, none, some, List, [], ◌∷◌, filterb,
  length, if◌then◌else◌,
}
use canton_dex_reference_imp.Prelude.Int.{ℤ, pos, negsuc, ◌-ℤ◌, ltb_ℤ, eqb_ℤ}
use canton_dex_reference_imp.Prelude.Outcome.{Outcome, returns, throws, error, ◌>>=◌, or_throw}
use canton_dex_reference_imp.Prelude.Text.{Str, codes, ◌===◌}
use canton_dex_reference_imp.Prelude.Sort.{sort}
use canton_dex_reference_imp.Types.{Party, Time, DealerTier, RfqQuote, RankedDealer, PolicyReceipt}

abbrev pub policy_version : Str
policy_version = codes "v2.0"

abbrev pub policy_hash : Str
policy_hash = codes "sha256:rfq-policy-v2.0"

-- `a < b` on texts: by code unit, a proper prefix first.
unfoldable pub text_before : Str → Str → Bool
text_before a [] = false
text_before [] (y ∷ ys) = true
text_before (x ∷ xs) (y ∷ ys) =
    let rest = text_before xs ys in if ltb x y then true else if x == y then rest else false

abbrev pub tier_rank : DealerTier → ℤ
tier_rank DealerTier.tier_trusted = pos 0
tier_rank DealerTier.tier_whitelist = pos 1

abbrev pub tier_text : DealerTier → Str
tier_text DealerTier.tier_trusted = codes "trusted"
tier_text DealerTier.tier_whitelist = codes "whitelist"

-- `if (a !== b) return a - b`, with NaN for `none`: NaN differs from everything, and a comparator's
-- NaN counts as 0.
abbrev pub by_time : Option ℤ → Option ℤ → ℤ → ℤ
by_time (some a) (some b) next = if eqb_ℤ a b then next else a -ℤ b
by_time none b next = pos 0
by_time (some a) none next = pos 0

-- `Date.parse(expires) > Date.parse(now)`, which NaN makes false.
abbrev pub later : Option ℤ → Option ℤ → Bool
later (some a) (some b) = ltb_ℤ b a
later none b = false
later (some a) none = false

unfoldable pub ranked_from : ℕ → List RfqQuote → List RankedDealer
ranked_from rank [] = []
ranked_from rank (q ∷ quotes) =
    record { party = q.dealer; rank = rank; price = q.price; tier = tier_text q.tier }
    ∷ ranked_from (suc rank) quotes

unfoldable pub ranked_dealers_of : List RfqQuote → List RankedDealer
ranked_dealers_of ranked = ranked_from 1 ranked

-- `findIndex((d) => d.party === dealer)`, with `none` for -1.
unfoldable pub index_from : ℕ → Party → List RankedDealer → Option ℕ
index_from i dealer [] = none
index_from i dealer (d ∷ ds) =
    let rest = index_from (suc i) dealer ds in if d.party === dealer then some i else rest

abbrev pub or_time : Option Time → Time → Time
or_time none signed_at = signed_at
or_time (some now) signed_at = now

pub record ReceiptArgs : Type 0 where
  pub rfq_id : Str
  pub quotes : List RfqQuote
  pub accepted_dealer : Party
  pub signed_by : Party
  pub signed_at : Time
  pub now : Option Time

module _ (date_parse : Time → Option ℤ) where
  -- The comparator of `rankQuotes`: tier, later expiry, earlier post, dealer.
  unfoldable pub compare_quotes : RfqQuote → RfqQuote → ℤ
  compare_quotes a b =
      if eqb_ℤ (tier_rank a.tier) (tier_rank b.tier)
      then by_time (date_parse b.expires_at) (date_parse a.expires_at) (
          by_time (date_parse a.posted_at) (date_parse b.posted_at) (
            if text_before a.dealer b.dealer
            then negsuc 0
            else if text_before b.dealer a.dealer
            then pos 1
            else pos 0))
      else tier_rank a.tier -ℤ tier_rank b.tier

  unfoldable pub quote_before : RfqQuote → RfqQuote → Bool
  quote_before a b = ltb_ℤ (compare_quotes a b) (pos 0)

  unfoldable pub is_valid_at : Time → RfqQuote → Bool
  is_valid_at now q = later (date_parse q.expires_at) (date_parse now)

  unfoldable pub rank_quotes : List RfqQuote → Time → List RfqQuote
  rank_quotes quotes now = sort quote_before (filterb (is_valid_at now) quotes)

  module _ (sign_receipt : PolicyReceipt → Str) where
    -- The signature does not enter its own digest: the receipt is signed with none.
    unfoldable pub build_receipt : ReceiptArgs → Outcome PolicyReceipt
    build_receipt args = do
      let ranked_dealers =
          ranked_dealers_of (rank_quotes args.quotes (or_time args.now args.signed_at))
      idx ←
          or_throw (index_from 0 args.accepted_dealer ranked_dealers)
            (error "accepted dealer not in ranked set")
      let unsigned : PolicyReceipt = record {
        policy_version = policy_version;
        policy_hash = policy_hash;
        rfq_id = args.rfq_id;
        ranked_dealers = ranked_dealers;
        accepted_dealer = args.accepted_dealer;
        accepted_rank = idx + 1;
        considered_count = length ranked_dealers;
        signed_by = args.signed_by;
        signed_at = args.signed_at;
        signature = [];
      }
      returns (record unsigned { signature = sign_receipt unsigned })
