-- ===== src/Examples/Listings.antt =====
-- The theorems on listings and receipts at concrete inputs.
use canton_dex_reference_imp.Prelude.{
  ℕ, ◌≤◌, ◌≡◌, refl, Option, none, some, List, [], ◌∷◌, All, filterb, length,
}
use canton_dex_reference_imp.Prelude.Int.{ℤ, pos}
use canton_dex_reference_imp.Prelude.Outcome.{returns}
use canton_dex_reference_imp.Prelude.Text.{Str, codes, ◌===◌}
use canton_dex_reference_imp.Prelude.Sort.{sort}
use canton_dex_reference_imp.Types.{
  Time, PoolConfigContract, PoolStateContract, PoolSliceContract, SliceSide, DealerTier, RfqQuote,
  PolicyReceipt,
}
use canton_dex_reference_imp.Pool.Views.{Contracts, list_active}
use canton_dex_reference_imp.Pool.Listing.{IsView, list_active-IsView}
use canton_dex_reference_imp.Policy.{
  ReceiptArgs, build_receipt, rank_quotes, quote_before, compare_quotes, text_before, is_valid_at,
  ranked_dealers_of, ranked_from, index_from,
}
use canton_dex_reference_imp.Policy.Receipt.{RankedAs, build_receipt-RankedAs}
use canton_dex_reference_imp.Examples.Pricing.{text, instrument}

abbrev config : PoolConfigContract
config = record {
  contract_id = codes "config";
  pool_id = codes "pool";
  operator = codes "operator";
  lp_registrar = codes "registrar";
  base_instrument_id = instrument "CC";
  quote_instrument_id = instrument "USD";
  lp_instrument_id = instrument "LP";
  fee_bps = pos 30;
}

abbrev state : PoolStateContract
state = record {
  contract_id = codes "state";
  pool_id = codes "pool";
  operator = codes "operator";
  lp_registrar = codes "registrar";
  status = codes "PS_Active";
  reserves = record { base_amount = text 100_000_000_000; quote_amount = text 400_000_000_000 };
  total_lp_supply = text 200_000_000_000;
  public_readers = [];
}

abbrev slice : Str → SliceSide → PoolSliceContract
slice cid side = record {
  contract_id = cid;
  pool_id = codes "pool";
  operator = codes "operator";
  side = side;
  allocation_cid = cid;
  amount = text 10_000_000_000;
}

abbrev acs : Contracts
acs = record {
  configs = config ∷ [];
  states = state ∷ [];
  slices = slice (codes "s1") SliceSide.quote_side ∷ slice (codes "s2") SliceSide.base_side ∷ [];
  rules = [];
  liquidity_rules = [];
  policies = [];
}

list_active-IsView_example :
    All (IsView (codes "operator") acs) (list_active (codes "operator") acs)
list_active-IsView_example = list_active-IsView (codes "operator") acs

-- Times are single code units.
abbrev parse_time : Time → Option ℤ
parse_time [] = none
parse_time (c ∷ s) = some (pos c)

abbrev quote : DealerTier → Str → RfqQuote
quote tier dealer = record {
  contract_id = codes "q";
  dealer = dealer;
  trader = codes "trader";
  operator = codes "operator";
  rfq_id = codes "rfq";
  price = text 20_000_000_000;
  expires_at = codes "9";
  posted_at = codes "1";
  tier = tier;
}

abbrev args : ReceiptArgs
args = record {
  rfq_id = codes "rfq";
  quotes =
      quote DealerTier.tier_whitelist (codes "bob")
      ∷ quote DealerTier.tier_trusted (codes "carol")
      ∷ [];
  accepted_dealer = codes "bob";
  signed_by = codes "operator";
  signed_at = codes "5";
  now = none;
}

abbrev sign : PolicyReceipt → Str
sign r = codes "0x"

abbrev receipt : PolicyReceipt
receipt = record {
  policy_version = codes "v2.0";
  policy_hash = codes "sha256:rfq-policy-v2.0";
  rfq_id = codes "rfq";
  ranked_dealers =
      record {
        party = codes "carol";
        rank = 1;
        price = text 20_000_000_000;
        tier = codes "trusted";
      }
      ∷ record {
        party = codes "bob";
        rank = 2;
        price = text 20_000_000_000;
        tier = codes "whitelist";
      }
      ∷ [];
  accepted_dealer = codes "bob";
  accepted_rank = 2;
  considered_count = 2;
  signed_by = codes "operator";
  signed_at = codes "5";
  signature = codes "0x";
}

built : build_receipt parse_time sign args ≡ returns receipt
unfolding build_receipt rank_quotes quote_before compare_quotes text_before is_valid_at
    ranked_dealers_of ranked_from index_from ◌===◌ sort canton_dex_reference_imp.Prelude.Sort.insert
built = refl

build_receipt-RankedAs_example :
    (1 ≤ receipt.accepted_rank)
    × (receipt.accepted_rank ≤ receipt.considered_count)
    × (receipt.considered_count ≡ length (filterb (is_valid_at parse_time (codes "5")) args.quotes))
    × RankedAs receipt.ranked_dealers receipt.accepted_rank args.accepted_dealer
build_receipt-RankedAs_example = build_receipt-RankedAs parse_time sign args receipt built
