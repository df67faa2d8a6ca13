-- ===== src/Matching/Total.antt =====
-- When a run of services/operator-backend/src/order/matching.ts returns.
use canton_dex_reference_imp.Prelude.{
  ℕ, zero, suc, ◌+◌, ◌≤◌, ◌≡◌, refl, arith, Bool, true, false, List, [], ◌∷◌, All, filterb, length,
  Bool-cases, inl, inr, ◌||◌, ◌&&◌, ltb→le,
}
use canton_dex_reference_imp.Prelude.Int.{ℤ, pos, ◌-ℤ◌, ltb_ℤ, leb_ℤ}
use canton_dex_reference_imp.Prelude.Outcome.{Outcome, returns}
use canton_dex_reference_imp.Prelude.Text.{◌===◌}
use canton_dex_reference_imp.Prelude.Sort.{sort, sort-All, sort-length}
use canton_dex_reference_imp.Prelude.Assoc.{insert}
use canton_dex_reference_imp.Decimal.{min_ℤ, parse_decimal}
use canton_dex_reference_imp.Types.{Order}
use canton_dex_reference_imp.Matching.{
  Host, Match, PairKey, Remaining, price_of, advance, remaining_of, bid_before, ask_before, is_bid,
  is_ask, is_open_at, eq_pair, pair_of, match_loop, eligible_orders, read_prices, check_prices,
  initial_remaining, match_orders_for_pair,
}
use canton_dex_reference_imp.Matching.Rounds.{round_qty, match_loop-no_bids, match_loop-no_asks}
use canton_dex_reference_imp.Matching.Legal.{All-advance}
use canton_dex_reference_imp.Matching.Price.{clearing_price-IsBetween}

-- An order whose price reads as a number that is not negative.
abbrev pub IsPriced : Order → Type 0
IsPriced o = (p : ℕ) × (price_of o ≡ returns (pos p))

abbrev pub Returns {ℓ} : {A : Type ℓ} → Outcome A → Type ℓ
Returns {A = A} m = (a : A) × (m ≡ returns a)

-- A round drops an order.
drop_one :
    (fuel : ℕ) (eb ea : Bool) (buy sell : Order) (bids asks : List Order)
    → (eb || ea) ≡ true
    → length (buy ∷ bids) + length (sell ∷ asks) ≤ suc fuel
    → length (advance eb buy bids) + length (advance ea sell asks) ≤ fuel
drop_one fuel true true buy sell bids asks e h = omega arith
drop_one fuel true false buy sell bids asks e h = omega arith
drop_one fuel false true buy sell bids asks e h = omega arith
drop_one fuel false false buy sell bids asks e h = cc

empty_side :
    (a b : ℤ) → leb_ℤ (min_ℤ a b) (pos 0) ≡ true → (leb_ℤ a (pos 0) || leb_ℤ b (pos 0)) ≡ true
empty_side a b h = ground arith

used_side : (a b : ℤ) → (leb_ℤ (a -ℤ min_ℤ a b) (pos 0) || leb_ℤ (b -ℤ min_ℤ a b) (pos 0)) ≡ true
used_side a b = ground arith

module _ (host : Host) where
  -- A round returns if the round that it goes on with does.
  round-returns :
      (fuel p s : ℕ) (buy sell : Order) (bids asks : List Order) (rem : Remaining)
      → price_of buy ≡ returns (pos p)
      → price_of sell ≡ returns (pos s)
      → Returns (match_loop host fuel (buy ∷ bids) asks rem)
      → (leb_ℤ (round_qty host buy sell rem) (pos 0) ≡ true
          → Returns (
              match_loop host fuel
                (advance (leb_ℤ (remaining_of buy.contract_id rem) (pos 0)) buy bids)
                (advance (leb_ℤ (remaining_of sell.contract_id rem) (pos 0)) sell asks)
                rem))
      → Returns (
          match_loop host fuel
            (advance
              (leb_ℤ (remaining_of buy.contract_id rem -ℤ round_qty host buy sell rem) (pos 0))
              buy
              bids)
            (advance
              (leb_ℤ (remaining_of sell.contract_id rem -ℤ round_qty host buy sell rem) (pos 0))
              sell
              asks)
            (insert sell.contract_id
              (remaining_of sell.contract_id rem -ℤ round_qty host buy sell rem)
              (insert buy.contract_id
                (remaining_of buy.contract_id rem -ℤ round_qty host buy sell rem)
                rem)))
      → Returns (match_loop host (suc fuel) (buy ∷ bids) (sell ∷ asks) rem)
  unfolding match_loop
  round-returns fuel p s buy sell bids asks rem eb es skip empty after =
      elim (Bool-cases (ltb_ℤ (pos p) (pos s))) [
        | inl apart ↦ rw (eb, es, apart) ([], refl)
        | inr cross ↦ elim (Bool-cases (buy.trader === sell.trader)) [
          | inl own ↦ rw (eb, es, cross, own) skip
          | inr other ↦ elim (Bool-cases (leb_ℤ (round_qty host buy sell rem) (pos 0))) [
            | inl none_left ↦ rw (eb, es, cross, other, none_left) (empty none_left)
            | inr some_qty ↦
                let (price, m, ep, text, low, high) =
                  clearing_price-IsBetween host buy sell p s eb es (ltb→le p s cross) in
                let (ms, em) = after in rw (eb, es, cross, other, some_qty, ep, em) (_, refl)
          ]
        ]
      ]

  match_loop-Returns :
      (fuel : ℕ) (bids asks : List Order) (rem : Remaining)
      → length bids + length asks ≤ fuel
      → All IsPriced bids
      → All IsPriced asks
      → Returns (match_loop host fuel bids asks rem)
  match_loop-Returns fuel [] asks rem h hb ha = ([], match_loop-no_bids host fuel asks rem)
  match_loop-Returns fuel (buy ∷ bids) [] rem h hb ha =
      ([], match_loop-no_asks host fuel (buy ∷ bids) rem)
  match_loop-Returns zero (buy ∷ bids) (sell ∷ asks) rem h hb ha = absurd (omega arith)
  match_loop-Returns (suc fuel) (buy ∷ bids) (sell ∷ asks) rem h hb ha =
      let ((p, eb), _) = hb in
      let ((s, es), _) = ha in
      let bid_rest = remaining_of buy.contract_id rem in
      let ask_rest = remaining_of sell.contract_id rem in
      round-returns fuel p s buy sell bids asks rem eb es
        (match_loop-Returns fuel (buy ∷ bids) asks rem (omega arith) hb ha.1)
        (λ e.
          match_loop-Returns fuel _ _ rem
            (drop_one fuel _ _ buy sell bids asks (empty_side bid_rest ask_rest e) h)
            (All-advance IsPriced _ buy bids hb) (All-advance IsPriced _ sell asks ha))
        (match_loop-Returns fuel _ _ _
          (drop_one fuel _ _ buy sell bids asks (used_side bid_rest ask_rest) h)
          (All-advance IsPriced _ buy bids hb) (All-advance IsPriced _ sell asks ha))

  -- An order that a run can read: a price and a rest that are numbers, the price not negative.
  abbrev pub IsReadable : Order → Type 0
  IsReadable o = IsPriced o × Returns (parse_decimal o.remaining_qty)

  eligible_orders-returns :
      (pair : PairKey) (now_ms : ℤ) (os : List Order)
      → All IsReadable os
      → (es : List Order) × (eligible_orders host pair now_ms os ≡ returns es) × All IsReadable es
  unfolding eligible_orders
  eligible_orders-returns pair now_ms [] h = ([], refl, tt)
  eligible_orders-returns pair now_ms (o ∷ os) h =
      let (es, ee, he) = eligible_orders-returns pair now_ms os h.1 in
      let (q, eq) = h.0.1 in
      elim (Bool-cases (eq_pair (pair_of o) pair && is_open_at host o now_ms)) [
        | inr e ↦ rw e (es, ee, he)
        | inl e ↦ elim (Bool-cases (ltb_ℤ (pos 0) q)) [
          | inl p ↦ rw (e, eq, ee, p) (o ∷ es, refl, (h.0, he))
          | inr p ↦ rw (e, eq, ee, p) (es, refl, he)
        ]
      ]

  initial_remaining-Returns :
      (rem : Remaining) (os : List Order) → All IsReadable os → Returns (initial_remaining rem os)
  unfolding initial_remaining
  initial_remaining-Returns rem [] h = (rem, refl)
  initial_remaining-Returns rem (o ∷ os) h =
      let ((_, (q, eq)), _) = h in
      rw eq (initial_remaining-Returns (insert o.contract_id q rem) os h.1)

  read_prices-returns : (os : List Order) → All IsReadable os → read_prices os ≡ returns tt
  unfolding read_prices
  read_prices-returns [] h = refl
  read_prices-returns (o ∷ os) h = let (((p, ep), _), _) = h in rw ep (read_prices-returns os h.1)

  check_prices-returns : (os : List Order) → All IsReadable os → check_prices os ≡ returns tt
  unfolding check_prices
  check_prices-returns [] h = refl
  check_prices-returns (o ∷ []) h = refl
  check_prices-returns (o ∷ p ∷ os) h = read_prices-returns (o ∷ p ∷ os) h

  IsReadable-IsPriced :
      (p : Order → Bool) (os : List Order) → All IsReadable os → All IsPriced (filterb p os)
  IsReadable-IsPriced p [] h = tt
  IsReadable-IsPriced p (o ∷ os) h = elim (Bool-cases (p o)) [
    | inl e ↦ rw e (h.0.0, IsReadable-IsPriced p os h.1)
    | inr e ↦ rw e (IsReadable-IsPriced p os h.1)
  ]

  IsReadable-filterb :
      (p : Order → Bool) (os : List Order) → All IsReadable os → All IsReadable (filterb p os)
  IsReadable-filterb p [] h = tt
  IsReadable-filterb p (o ∷ os) h = elim (Bool-cases (p o)) [
    | inl e ↦ rw e (h.0, IsReadable-filterb p os h.1)
    | inr e ↦ rw e (IsReadable-filterb p os h.1)
  ]

  -- Where the price and the rest of each order are texts of numbers and no price is negative, a run
  -- returns its matches: it throws nothing, and the number of orders is enough rounds.
  pub match_orders_for_pair-returns :
      (orders : List Order) (pair : PairKey) (now_ms : ℤ)
      → All IsReadable orders
      → (ms : List Match) × (match_orders_for_pair host orders pair now_ms ≡ returns ms)
  unfolding match_orders_for_pair
  match_orders_for_pair-returns orders pair now_ms h =
      let (es, ee, he) = eligible_orders-returns pair now_ms orders h in
      let bids = filterb (λ (o : Order). is_bid o.side) es in
      let asks = filterb (λ (o : Order). is_ask o.side) es in
      let (rem, er) = initial_remaining-Returns [] es he in
      let (ms, em) =
        match_loop-Returns (length bids + length asks) (sort (bid_before host) bids)
          (sort (ask_before host) asks) rem
          (omega (arith, sort-length (bid_before host) bids, sort-length (ask_before host) asks))
          (sort-All (bid_before host) IsPriced bids
            (IsReadable-IsPriced (λ (o : Order). is_bid o.side) es he))
          (sort-All (ask_before host) IsPriced asks
            (IsReadable-IsPriced (λ (o : Order). is_ask o.side) es he)) in
      rw
        (
          ee,
          check_prices-returns bids (IsReadable-filterb (λ (o : Order). is_bid o.side) es he),
          check_prices-returns asks (IsReadable-filterb (λ (o : Order). is_ask o.side) es he),
          er,
        )
        (ms, em)
