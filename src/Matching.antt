-- ===== src/Matching.antt =====
-- services/operator-backend/src/order/matching.ts: price-time matching over open orders.
pub mod Rounds
pub mod Legal
pub mod Filled
pub mod Price
pub mod Total
pub mod SelfTrade
use canton_dex_reference_imp.Prelude.{
  ℕ, zero, suc, ◌+◌, Bool, true, false, not, ◌&&◌, ◌||◌, Option, none, some, List, [], ◌∷◌, filterb,
  length, if◌then◌else◌,
}
use canton_dex_reference_imp.Prelude.Int.{ℤ, pos, negsuc, ◌+ℤ◌, ◌-ℤ◌, ◌*ℤ◌, ltb_ℤ, leb_ℤ, eqb_ℤ}
use canton_dex_reference_imp.Prelude.Outcome.{Outcome, returns, throws, error, ◌>>=◌, ◌>>◌}
use canton_dex_reference_imp.Prelude.Text.{Str, ◌===◌}
use canton_dex_reference_imp.Prelude.Sort.{sort}
use canton_dex_reference_imp.Prelude.Assoc.{lookup, insert}
use canton_dex_reference_imp.Decimal.{scale, parse_decimal, format_decimal, div, min_ℤ}
use canton_dex_reference_imp.Types.{
  Decimal, InstrumentId, Side, OrderStatus, Order, same_instrument,
}

-- What the engine supplies: `Date.parse` in milliseconds, with `none` for NaN, and the sign of
-- `a.localeCompare(b)`, which depends on the host's locale.
pub record Host : Type 0 where
  pub date_parse : Str → Option ℤ
  pub locale_compare : Str → Str → ℤ

pub record Match : Type 0 where
  pub buy : Order
  pub sell : Order
  pub price : Decimal
  pub quantity : Decimal

pub record PairKey : Type 0 where
  pub base : InstrumentId
  pub quote : InstrumentId

abbrev pub pair_of : Order → PairKey
pair_of o = record { base = o.base_instrument_id; quote = o.quote_instrument_id }

unfoldable pub eq_pair : PairKey → PairKey → Bool
eq_pair a b = same_instrument a.base b.base && same_instrument a.quote b.quote

unfoldable pub price_of : Order → Outcome ℤ
price_of o = parse_decimal o.limit_price

-- `a < b ? -1 : a > b ? 1 : 0`
abbrev pub cmp_bigint : ℤ → ℤ → ℤ
cmp_bigint a b = if ltb_ℤ a b then negsuc 0 else if ltb_ℤ b a then pos 1 else pos 0

-- A date that is missing or an empty text counts as absent.
abbrev pub parsed_date : (Str → Option ℤ) → Option Str → Option ℤ
parsed_date parse none = none
parsed_date parse (some []) = none
parsed_date parse (some (c ∷ s)) = parse (c ∷ s)

abbrev pub is_bid : Side → Bool
is_bid Side.bid = true
is_bid Side.ask = false

abbrev pub is_ask : Side → Bool
is_ask Side.bid = false
is_ask Side.ask = true

abbrev pub open_status : OrderStatus → Bool
open_status OrderStatus.pending = false
open_status OrderStatus.funded = true
open_status OrderStatus.partially_filled = true
open_status (OrderStatus.other s) = false

-- The price of an order in a comparison, once `check_prices` has read the prices of the list.
abbrev pub value_or_zero : Outcome ℤ → ℤ
value_or_zero (returns z) = z
value_or_zero (throws e) = pos 0

-- Sorting two orders or more compares each of them, so it throws where one price cannot be read.
unfoldable pub read_prices : List Order → Outcome (Unit {0})
read_prices [] = returns tt
read_prices (o ∷ os) = do p ← price_of o; read_prices os

unfoldable pub check_prices : List Order → Outcome (Unit {0})
check_prices [] = returns tt
check_prices (o ∷ []) = returns tt
check_prices (o ∷ p ∷ os) = read_prices (o ∷ p ∷ os)

abbrev pub Remaining : Type 0
Remaining = List (Str × ℤ)

-- `remaining.get(cid) ?? 0n`
unfoldable pub remaining_of : Str → Remaining → ℤ
remaining_of cid remaining = elim (lookup cid remaining) [ none ↦ pos 0 | some q ↦ q ]

-- `if (exhausted) index += 1`
abbrev pub advance {ℓ} : {A : Type ℓ} → Bool → A → List A → List A
advance exhausted x xs = if exhausted then xs else x ∷ xs

unfoldable pub initial_remaining : Remaining → List Order → Outcome Remaining
initial_remaining remaining [] = returns remaining
initial_remaining remaining (o ∷ os) = do
  q ← parse_decimal o.remaining_qty
  initial_remaining (insert o.contract_id q remaining) os

module _ (host : Host) where
  open host use {date_parse, locale_compare}

  unfoldable pub resting_since : Order → Option ℤ
  resting_since o = parsed_date date_parse o.ledger_created_at

  unfoldable pub is_expired : Order → ℤ → Bool
  is_expired o now_ms = elim (parsed_date date_parse o.expiry) [
    | none ↦ false
    | some t ↦ leb_ℤ t now_ms
  ]

  unfoldable pub is_open_at : Order → ℤ → Bool
  is_open_at o now_ms = open_status o.status && not (is_expired o now_ms)

  -- The cases of `byRestingTime` on the two create times.
  abbrev by_times : Option ℤ → Option ℤ → ℤ → ℤ
  by_times (some ta) (some tb) ids = if eqb_ℤ ta tb then ids else ta -ℤ tb
  by_times none (some tb) ids = pos 1
  by_times (some ta) none ids = negsuc 0
  by_times none none ids = ids

  unfoldable pub by_resting_time : Order → Order → ℤ
  by_resting_time a b =
      by_times (resting_since a) (resting_since b) (locale_compare a.contract_id b.contract_id)

  -- `cmpBigint(...) || byRestingTime(a, b)`
  abbrev compare_by : ℤ → ℤ → ℤ
  compare_by price time = if eqb_ℤ price (pos 0) then time else price

  unfoldable pub bid_before : Order → Order → Bool
  bid_before a b =
      ltb_ℤ
        (compare_by (cmp_bigint (value_or_zero (price_of b)) (value_or_zero (price_of a)))
          (by_resting_time a b))
        (pos 0)

  unfoldable pub ask_before : Order → Order → Bool
  ask_before a b =
      ltb_ℤ
        (compare_by (cmp_bigint (value_or_zero (price_of a)) (value_or_zero (price_of b)))
          (by_resting_time a b))
        (pos 0)

  unfoldable pub midpoint : Order → Order → Outcome Decimal
  midpoint buy sell = do
    pb ← price_of buy
    ps ← price_of sell
    mid ← div (pb +ℤ ps) (pos 2 *ℤ pos scale)
    returns (format_decimal mid)

  abbrev clearing_at : Option ℤ → Option ℤ → Order → Order → Outcome Decimal
  clearing_at (some tb) (some ts) buy sell =
      if eqb_ℤ tb ts
      then midpoint buy sell
      else returns (if ltb_ℤ tb ts then buy.limit_price else sell.limit_price)
  clearing_at none ts buy sell = midpoint buy sell
  clearing_at (some tb) none buy sell = midpoint buy sell

  unfoldable pub clearing_price : Order → Order → Outcome Decimal
  clearing_price buy sell = clearing_at (resting_since buy) (resting_since sell) buy sell

  -- The loop over the two sides, which are what is left of the lists from `bi` and from `ai`. Each
  -- round drops an order, so the number of orders is enough fuel.
  unfoldable pub match_loop : ℕ → List Order → List Order → Remaining → Outcome (List Match)
  match_loop fuel [] asks remaining = returns []
  match_loop fuel (buy ∷ bids) [] remaining = returns []
  match_loop zero (buy ∷ bids) (sell ∷ asks) remaining = throws (error "out of fuel")
  match_loop (suc fuel) (buy ∷ bids) (sell ∷ asks) remaining = do
    pb ← price_of buy
    ps ← price_of sell
    let buy_rem = remaining_of buy.contract_id remaining
    let sell_rem = remaining_of sell.contract_id remaining
    let qty = min_ℤ buy_rem sell_rem
    let skip_ask = match_loop fuel (buy ∷ bids) asks remaining
    let drop_empty =
        match_loop fuel (advance (leb_ℤ buy_rem (pos 0)) buy bids)
          (advance (leb_ℤ sell_rem (pos 0)) sell asks) remaining
    let after =
        match_loop fuel (advance (leb_ℤ (buy_rem -ℤ qty) (pos 0)) buy bids)
          (advance (leb_ℤ (sell_rem -ℤ qty) (pos 0)) sell asks)
          (insert sell.contract_id (sell_rem -ℤ qty)
            (insert buy.contract_id (buy_rem -ℤ qty) remaining))
    let fill = (do
      price ← clearing_price buy sell
      rest ← after
      returns
          (record { buy = buy; sell = sell; price = price; quantity = format_decimal qty } ∷ rest))
    if ltb_ℤ pb ps
        then returns []
        else if buy.trader === sell.trader
        then skip_ask
        else if leb_ℤ qty (pos 0)
        then drop_empty
        else fill

  -- The filter of `matchOrdersForPair`; the quantity is read where the two tests before it pass.
  unfoldable pub eligible_orders : PairKey → ℤ → List Order → Outcome (List Order)
  eligible_orders pair now_ms [] = returns []
  eligible_orders pair now_ms (o ∷ os) =
      let rest = eligible_orders pair now_ms os in
      let with_quantity = (do
        q ← parse_decimal o.remaining_qty
        more ← rest
        returns (if ltb_ℤ (pos 0) q then o ∷ more else more)) in
      if eq_pair (pair_of o) pair && is_open_at o now_ms then with_quantity else rest

  unfoldable pub match_orders_for_pair : List Order → PairKey → ℤ → Outcome (List Match)
  match_orders_for_pair orders pair now_ms = do
    eligible ← eligible_orders pair now_ms orders
    let bid_side = filterb (λ (o : Order). is_bid o.side) eligible
    let ask_side = filterb (λ (o : Order). is_ask o.side) eligible
    check_prices bid_side
    check_prices ask_side
    remaining ← initial_remaining [] eligible
    match_loop (length bid_side + length ask_side) (sort bid_before bid_side)
        (sort ask_before ask_side) remaining
