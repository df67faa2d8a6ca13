-- ===== src/Matching/Legal.antt =====
-- The two orders of a match of services/operator-backend/src/order/matching.ts.
use canton_dex_reference_imp.Prelude.{
  ℕ, zero, suc, ◌≡◌, refl, sym, ap, Bool, true, false, List, [], ◌∷◌, All, filterb, if◌then◌else◌,
  Bool-cases, and-eq-true, inl, inr, ◌&&◌,
}
use canton_dex_reference_imp.Prelude.Int.{ℤ, pos, negsuc, ltb_ℤ, leb_ℤ}
use canton_dex_reference_imp.Prelude.Outcome.{returns, >>=-eq-returns, returns-injective}
use canton_dex_reference_imp.Prelude.Text.{◌===◌}
use canton_dex_reference_imp.Prelude.Sort.{sort-All}
use canton_dex_reference_imp.Decimal.{format_decimal, parse_decimal}
use canton_dex_reference_imp.Types.{Order}
use canton_dex_reference_imp.Matching.{
  Host, Match, PairKey, Remaining, price_of, eq_pair, is_bid, is_ask, is_open_at, bid_before,
  ask_before, pair_of, clearing_price, advance, match_loop, eligible_orders, check_prices,
  initial_remaining, match_orders_for_pair,
}
use canton_dex_reference_imp.Matching.Rounds.{Round, match_loop-Round}

pub All-advance {ℓ κ} :
    {A : Type ℓ} (P : A → Type κ) (e : Bool) (x : A) (xs : List A)
    → All P (x ∷ xs)
    → All P (advance e x xs)
All-advance P true x xs h = h.1
All-advance P false x xs h = h

pub All-filterb {ℓ κ} :
    {A : Type ℓ} (P : A → Type κ) (p : A → Bool) (xs : List A)
    → All P xs
    → All (λ (x : A). P x × (p x ≡ true)) (filterb p xs)
All-filterb P p [] h = h
All-filterb P p (x ∷ xs) h = elim (Bool-cases (p x)) [
  | inl e ↦ rw e ((h.0, e), All-filterb P p xs h.1)
  | inr e ↦ rw e (All-filterb P p xs h.1)
]

pub positive : (q : ℤ) → leb_ℤ q (pos 0) ≡ false → (k : ℕ) × (q ≡ pos (suc k))
positive (pos zero) h = cc
positive (pos (suc k)) h = (k, refl)
positive (negsuc k) h = cc

positive_lt : (q : ℤ) → ltb_ℤ (pos 0) q ≡ true → (k : ℕ) × (q ≡ pos (suc k))
positive_lt (pos zero) h = cc
positive_lt (pos (suc k)) h = (k, refl)
positive_lt (negsuc k) h = cc

kept-All :
    (P : Order → Type 0) (c : Bool) (o : Order) (more es : List Order)
    → (if c then o ∷ more else more) ≡ es
    → (c ≡ true → P o)
    → All P more
    → All P es
kept-All P true o more es e p h = rw (← e) (p refl, h)
kept-All P false o more es e p h = rw (← e) h

-- The limits of two orders meet.
pub LimitsMeet : Match → Type 0
LimitsMeet m =
    (pb : ℤ) × (ps : ℤ) × (price_of m.buy ≡ returns pb)
    × (price_of m.sell ≡ returns ps)
    × (ltb_ℤ pb ps ≡ false)

module _ (host : Host) where
  -- A match of a buy order with `Bid` and a sell order with `Ask`.
  pub IsTrade : (Order → Type 0) → (Order → Type 0) → Match → Type 0
  IsTrade Bid Ask m =
      Bid m.buy
      × Ask m.sell
      × ((m.buy.trader === m.sell.trader) ≡ false)
      × LimitsMeet m
      × ((k : ℕ) × (m.quantity ≡ format_decimal (pos (suc k))))
      × (clearing_price host m.buy m.sell ≡ returns m.price)

  module _ (Bid Ask : Order → Type 0) where
    pub match_loop-IsTrade :
        (fuel : ℕ) (bids asks : List Order) (rem : Remaining) (ms : List Match)
        → All Bid bids
        → All Ask asks
        → match_loop host fuel bids asks rem ≡ returns ms
        → All (IsTrade Bid Ask) ms
    unfolding match_loop IsTrade LimitsMeet
    match_loop-IsTrade fuel [] asks rem ms hb ha h = rw (sym (returns-injective h)) tt
    match_loop-IsTrade fuel (buy ∷ bids) [] rem ms hb ha h = rw (sym (returns-injective h)) tt
    match_loop-IsTrade zero (buy ∷ bids) (sell ∷ asks) rem ms hb ha h = cc
    match_loop-IsTrade (suc fuel) (buy ∷ bids) (sell ∷ asks) rem ms hb ha h =
        elim (match_loop-Round host fuel buy bids sell asks rem ms h) [
          | Round.no_cross e ↦ rw e tt
          | Round.own_order own g ↦ match_loop-IsTrade fuel (buy ∷ bids) asks rem ms hb ha.1 g
          | Round.exhausted g ↦
              match_loop-IsTrade fuel _ _ rem ms (All-advance Bid _ buy bids hb)
                (All-advance Ask _ sell asks ha) g
          | Round.crossed pb ps price rest eb es cross other some_qty ep g e ↦
              let (k, ek) = positive _ some_qty in
              rw e (
                (hb.0, ha.0, other, (pb, ps, eb, es, cross), (k, ap format_decimal ek), ep),
                match_loop-IsTrade fuel _ _ _ rest (All-advance Bid _ buy bids hb)
                    (All-advance Ask _ sell asks ha) g,
              )
        ]

  -- An order that a run for `pair` at `now_ms` may match.
  pub IsOpenFor : PairKey → ℤ → Order → Type 0
  IsOpenFor pair now_ms o =
      (eq_pair (pair_of o) pair ≡ true)
      × (is_open_at host o now_ms ≡ true)
      × ((k : ℕ) × (parse_decimal o.remaining_qty ≡ returns (pos (suc k))))

  eligible_orders-All :
      (pair : PairKey) (now_ms : ℤ) (os es : List Order)
      → eligible_orders host pair now_ms os ≡ returns es
      → All (IsOpenFor pair now_ms) es
  unfolding eligible_orders IsOpenFor
  eligible_orders-All pair now_ms [] es h = rw (sym (returns-injective h)) tt
  eligible_orders-All pair now_ms (o ∷ os) es h =
      elim (Bool-cases (eq_pair (pair_of o) pair && is_open_at host o now_ms)) [
        | inr e ↦ eligible_orders-All pair now_ms os es (rw e at h)
        | inl e ↦
            let (q, eq, h1) = >>=-eq-returns (parse_decimal o.remaining_qty) _ (rw e at h) in
            let (more, em, h2) = >>=-eq-returns (eligible_orders host pair now_ms os) _ h1 in
            let (own, now) = and-eq-true _ _ e in
            let rest = eligible_orders-All pair now_ms os more em in
            kept-All (IsOpenFor pair now_ms) (ltb_ℤ (pos 0) q) o more es (returns-injective h2)
              (λ p. let (k, ek) = positive_lt q p in (own, now, (k, rw (← ek) eq))) rest
      ]

  -- Each match of a run is between a bid and an ask of the pair that are open at the time of the
  -- run, with a positive rest each, of two traders; the bid's limit is not below the ask's, the
  -- quantity is positive, and the price is the clearing price of the two.
  pub match_orders_for_pair-IsTrade :
      (orders : List Order) (pair : PairKey) (now_ms : ℤ) (ms : List Match)
      → match_orders_for_pair host orders pair now_ms ≡ returns ms
      → All
          (IsTrade
            (λ o. IsOpenFor pair now_ms o × (is_bid o.side ≡ true))
            (λ o. IsOpenFor pair now_ms o × (is_ask o.side ≡ true)))
          ms
  unfolding match_orders_for_pair
  match_orders_for_pair-IsTrade orders pair now_ms ms h =
      let (es, ee, h1) = >>=-eq-returns (eligible_orders host pair now_ms orders) _ h in
      let (u, eu, h2) = >>=-eq-returns (check_prices _) _ h1 in
      let (v, ev, h3) = >>=-eq-returns (check_prices _) _ h2 in
      let (rem, er, h4) = >>=-eq-returns (initial_remaining _ _) _ h3 in
      let open_ = eligible_orders-All pair now_ms orders es ee in
      match_loop-IsTrade _ _ _ _ _ rem ms
        (sort-All (bid_before host) _ _ (All-filterb _ _ es open_))
        (sort-All (ask_before host) _ _ (All-filterb _ _ es open_)) h4
