-- ===== src/Examples/Trading.antt =====
-- The theorems on matching at two orders that cross.
use Prim.Native.String.{String}
use canton_dex_reference_imp.Prelude.{
  ℕ, ◌≤◌, ◌≡◌, refl, arith, Bool, true, false, Option, none, some, List, [], ◌∷◌, All,
}
use canton_dex_reference_imp.Prelude.Int.{pos}
use canton_dex_reference_imp.Prelude.Outcome.{returns}
use canton_dex_reference_imp.Prelude.Text.{codes, ◌===◌}
use canton_dex_reference_imp.Prelude.Sort.{sort}
use canton_dex_reference_imp.Prelude.Assoc.{lookup, insert}
use canton_dex_reference_imp.Digits.{
  is_space, trim_start, trim_end, trim, digit_value, read_digits, read_number, prefixed, literal,
  big_int, show_go, show, pad_start, split_dot,
}
use canton_dex_reference_imp.Decimal.{
  format_decimal, pad_fraction, parse_parts, parse_trimmed, parse_decimal, round_up_half,
  div_round_half_even, div,
}
use canton_dex_reference_imp.Decimal.RoundTrip.{parse_decimal-format_decimal}
use canton_dex_reference_imp.Types.{
  Order, Side, OrderStatus, InstrumentId, Decimal, same_instrument,
}
use canton_dex_reference_imp.Matching.{
  Host, Match, PairKey, price_of, match_loop, match_orders_for_pair, resting_since, clearing_price,
  is_open_at, is_expired, eq_pair, eligible_orders, is_bid, is_ask, check_prices, read_prices,
  initial_remaining, remaining_of, bid_before, ask_before, by_resting_time, midpoint,
}
use canton_dex_reference_imp.Matching.Legal.{IsTrade, IsOpenFor, match_orders_for_pair-IsTrade}
use canton_dex_reference_imp.Matching.Filled.{filled, largest_rest, match_orders_for_pair-filled}
use canton_dex_reference_imp.Matching.Price.{IsBetween, clearing_price-IsBetween}
use canton_dex_reference_imp.Matching.Total.{match_orders_for_pair-returns}
use canton_dex_reference_imp.Matching.SelfTrade.{match_loop-own_asks}

-- A host that reads no date and orders no text.
abbrev host : Host
host = record { date_parse = λ s. none; locale_compare = λ a b. pos 0 }

abbrev instrument : String → InstrumentId
instrument id = record { admin = codes "admin"; id = codes id }

abbrev pair : PairKey
pair = record { base = instrument "CC"; quote = instrument "USD" }

-- A price or a quantity of `n` units of the last place.
abbrev text : ℕ → Decimal
text n = format_decimal (pos n)

abbrev order : String → String → Side → ℕ → ℕ → Order
order cid trader side price rest = record {
  contract_id = codes cid;
  operator = codes "operator";
  trader = codes trader;
  base_instrument_id = instrument "CC";
  quote_instrument_id = instrument "USD";
  side = side;
  limit_price = text price;
  remaining_qty = text rest;
  expiry = none;
  status = OrderStatus.funded;
  allocation_cids_by_admin = [];
  settlement_ref = record { id = codes cid; cid = none };
  ledger_created_at = none;
}

abbrev bid_1 : Order
bid_1 = order "b1" "alice" Side.bid 25_000_000_000 40_000_000_000

abbrev ask_1 : Order
ask_1 = order "a1" "bob" Side.ask 20_000_000_000 30_000_000_000

abbrev orders : List Order
orders = bid_1 ∷ ask_1 ∷ []

abbrev the_match : Match
the_match = record {
  buy = bid_1;
  sell = ask_1;
  price = text 22_500_000_000;
  quantity = text 30_000_000_000;
}

run : match_orders_for_pair host orders pair (pos 0) ≡ returns (the_match ∷ [])
unfolding match_orders_for_pair eligible_orders eq_pair same_instrument ◌===◌ is_open_at is_expired
    check_prices read_prices initial_remaining remaining_of price_of bid_before ask_before
    by_resting_time resting_since clearing_price midpoint match_loop sort insert lookup div
    div_round_half_even round_up_half format_decimal show show_go pad_start parse_decimal
    parse_trimmed parse_parts pad_fraction split_dot big_int literal trim trim_start trim_end
    is_space prefixed read_number read_digits digit_value
    canton_dex_reference_imp.Prelude.Sort.insert
run = refl

match_orders_for_pair-IsTrade_example :
    All
      (IsTrade host
        (λ o. IsOpenFor host pair (pos 0) o × (is_bid o.side ≡ true))
        (λ o. IsOpenFor host pair (pos 0) o × (is_ask o.side ≡ true)))
      (the_match ∷ [])
match_orders_for_pair-IsTrade_example =
    match_orders_for_pair-IsTrade host orders pair (pos 0) (the_match ∷ []) run

match_orders_for_pair-filled_example :
    filled (codes "b1") (the_match ∷ []) ≤ largest_rest (codes "b1") orders
match_orders_for_pair-filled_example =
    match_orders_for_pair-filled host (codes "b1") orders pair (pos 0) (the_match ∷ []) run

price_is : (n : ℕ) (o : Order) → o.limit_price ≡ text n → price_of o ≡ returns (pos n)
unfolding price_of
price_is n o e = rw e (parse_decimal-format_decimal (pos n))

clearing_price-IsBetween_example :
    IsBetween 20_000_000_000 25_000_000_000 (clearing_price host bid_1 ask_1)
clearing_price-IsBetween_example =
    clearing_price-IsBetween host bid_1 ask_1 25_000_000_000 20_000_000_000
      (price_is 25_000_000_000 bid_1 refl) (price_is 20_000_000_000 ask_1 refl) (omega arith)

match_orders_for_pair-returns_example :
    (ms : List Match) × (match_orders_for_pair host orders pair (pos 0) ≡ returns ms)
match_orders_for_pair-returns_example = match_orders_for_pair-returns host orders pair (pos 0) (
  (
    (25_000_000_000, price_is 25_000_000_000 bid_1 refl),
    (pos 40_000_000_000, parse_decimal-format_decimal (pos 40_000_000_000)),
  ),
  (
    (
      (20_000_000_000, price_is 20_000_000_000 ask_1 refl),
      (pos 30_000_000_000, parse_decimal-format_decimal (pos 30_000_000_000)),
    ),
    tt,
  ),
)

-- Bob's bid stands in front of Alice's, and the ask is Bob's.
abbrev own_bid : Order
own_bid = order "b2" "bob" Side.bid 30_000_000_000 10_000_000_000

match_loop-own_asks_example :
    match_loop host 3 (own_bid ∷ bid_1 ∷ []) (ask_1 ∷ []) ((codes "a1", pos 30_000_000_000) ∷ [])
    ≡ returns []
unfolding ◌===◌
match_loop-own_asks_example =
    match_loop-own_asks host 3 own_bid (bid_1 ∷ []) (ask_1 ∷ [])
      ((codes "a1", pos 30_000_000_000) ∷ []) (omega arith)
      (30_000_000_000, price_is 30_000_000_000 own_bid refl)
      (((20_000_000_000, price_is 20_000_000_000 ask_1 refl), refl), tt)
