-- ===== src/Matching/Filled.antt =====
-- How much of an order the matches of services/operator-backend/src/order/matching.ts take.
use canton_dex_reference_imp.Prelude.{
  ℕ, zero, suc, ◌+◌, ◌≤◌, ◌≡◌, refl, sym, ◌∙◌, arith, Bool, true, false, List, [], ◌∷◌, max,
  if◌then◌else◌, Bool-cases, inl, inr, ◌||◌, ◌&&◌,
}
use canton_dex_reference_imp.Prelude.Int.{ℤ, pos, pos_part, ◌-ℤ◌, ltb_ℤ, leb_ℤ}
use canton_dex_reference_imp.Prelude.Outcome.{returns, >>=-eq-returns, returns-injective}
use canton_dex_reference_imp.Prelude.Text.{Str, ◌===◌, ===→eq}
use canton_dex_reference_imp.Prelude.Assoc.{insert, lookup-empty, lookup-insert}
use canton_dex_reference_imp.Decimal.{format_decimal, parse_decimal, min_ℤ}
use canton_dex_reference_imp.Decimal.RoundTrip.{parse_decimal-format_decimal}
use canton_dex_reference_imp.Types.{Order}
use canton_dex_reference_imp.Matching.{
  Host, Match, PairKey, Remaining, value_or_zero, remaining_of, match_loop, is_open_at, eq_pair,
  pair_of, eligible_orders, check_prices, initial_remaining, match_orders_for_pair,
}
use canton_dex_reference_imp.Matching.Rounds.{
  Round, match_loop-Round, match_loop-no_bids, match_loop-no_asks, match_loop-no_fuel, round_qty,
}

-- The amount that the text of a quantity stands for, with 0 for one below it.
abbrev pub amount : Str → ℕ
amount s = pos_part (value_or_zero (parse_decimal s))

-- What the matches take of the order with the contract id `cid`.
unfoldable pub filled : Str → List Match → ℕ
filled cid [] = 0
filled cid (m ∷ ms) =
    (if (m.buy.contract_id === cid) || (m.sell.contract_id === cid) then amount m.quantity else 0)
    + filled cid ms

-- The largest rest of the orders with the contract id `cid`.
unfoldable pub largest_rest : Str → List Order → ℕ
largest_rest cid [] = 0
largest_rest cid (o ∷ os) =
    max (if o.contract_id === cid then amount o.remaining_qty else 0) (largest_rest cid os)

remaining_of-insert :
    (k cid : Str) (v : ℤ) (rem : Remaining)
    → remaining_of cid (insert k v rem) ≡ (if k === cid then v else remaining_of cid rem)
unfolding remaining_of
remaining_of-insert k cid v rem = ground (arith, lookup-insert k cid v rem)

remaining_of-empty : (cid : Str) → remaining_of cid [] ≡ pos 0
unfolding remaining_of
remaining_of-empty cid = ground (arith, lookup-empty {V = ℤ} cid)

-- The amounts of a round, with the rests of the two orders and the quantity.
spend-left :
    (a b : ℤ)
    → leb_ℤ (min_ℤ a b) (pos 0) ≡ false
    → pos_part (a -ℤ min_ℤ a b) + pos_part (min_ℤ a b) ≤ pos_part a
spend-left a b h = ground arith

spend-right :
    (a b : ℤ)
    → leb_ℤ (min_ℤ a b) (pos 0) ≡ false
    → pos_part (b -ℤ min_ℤ a b) + pos_part (min_ℤ a b) ≤ pos_part b
spend-right a b h = ground arith

amount-format : (q : ℤ) → amount (format_decimal q) ≡ pos_part q
amount-format q = rw (parse_decimal-format_decimal q)

-- The rest of an order after a round, by whether it is the round's bid or its ask.
pick-le :
    (b s : Bool) (old bid_left ask_left q : ℤ) (bid_old ask_old : ℤ)
    → (b ≡ true → old ≡ bid_old)
    → (s ≡ true → old ≡ ask_old)
    → pos_part bid_left + pos_part q ≤ pos_part bid_old
    → pos_part ask_left + pos_part q ≤ pos_part ask_old
    → pos_part (if s then ask_left else if b then bid_left else old)
        + (if b || s then pos_part q else 0)
      ≤ pos_part old
pick-le true true old bid_left ask_left q bid_old ask_old eb es hb hs = rw (es refl) hs
pick-le true false old bid_left ask_left q bid_old ask_old eb es hb hs = rw (eb refl) hb
pick-le false true old bid_left ask_left q bid_old ask_old eb es hb hs = rw (es refl) hs
pick-le false false old bid_left ask_left q bid_old ask_old eb es hb hs = omega arith

same_rest :
    (k cid : Str) (rem : Remaining) → (k === cid) ≡ true → remaining_of cid rem ≡ remaining_of k rem
same_rest k cid rem h = rw (===→eq k cid h)

-- One round takes from an order at most what its rest falls by.
round_step :
    (buy sell cid : Str) (rem : Remaining) (q : ℤ)
    → q ≡ min_ℤ (remaining_of buy rem) (remaining_of sell rem)
    → leb_ℤ q (pos 0) ≡ false
    → pos_part (
          remaining_of cid
            (insert sell (remaining_of sell rem -ℤ q) (insert buy (remaining_of buy rem -ℤ q) rem)))
        + (if (buy === cid) || (sell === cid) then pos_part q else 0)
      ≤ pos_part (remaining_of cid rem)
round_step buy sell cid rem q e h =
    rw
      (
        remaining_of-insert sell cid (remaining_of sell rem -ℤ q)
            (insert buy (remaining_of buy rem -ℤ q) rem),
        remaining_of-insert buy cid (remaining_of buy rem -ℤ q) rem,
      )
      (pick-le (buy === cid) (sell === cid) (remaining_of cid rem) (remaining_of buy rem -ℤ q)
        (remaining_of sell rem -ℤ q) q (remaining_of buy rem) (remaining_of sell rem)
        (same_rest buy cid rem) (same_rest sell cid rem)
        (rw e (spend-left (remaining_of buy rem) (remaining_of sell rem) (rw e at h)))
        (rw e (spend-right (remaining_of buy rem) (remaining_of sell rem) (rw e at h))))

filled-cons :
    (buy sell cid : Str) (q : ℤ) (taken rest before after : ℕ)
    → taken ≡ pos_part q
    → after + (if (buy === cid) || (sell === cid) then pos_part q else 0) ≤ before
    → rest ≤ after
    → (if (buy === cid) || (sell === cid) then taken else 0) + rest ≤ before
filled-cons buy sell cid q taken rest before after e h k = ground arith

module _ (host : Host) (cid : Str) where
  match_loop-filled :
      (fuel : ℕ) (bids asks : List Order) (rem : Remaining) (ms : List Match)
      → match_loop host fuel bids asks rem ≡ returns ms
      → filled cid ms ≤ pos_part (remaining_of cid rem)
  unfolding filled
  match_loop-filled fuel [] asks rem ms h =
      rw (sym (returns-injective (sym (match_loop-no_bids host fuel asks rem) ∙ h))) (omega arith)
  match_loop-filled fuel (buy ∷ bids) [] rem ms h =
      rw (sym (returns-injective (sym (match_loop-no_asks host fuel (buy ∷ bids) rem) ∙ h)))
        (omega arith)
  match_loop-filled zero (buy ∷ bids) (sell ∷ asks) rem ms h =
      absurd (match_loop-no_fuel host buy bids sell asks rem ms h)
  match_loop-filled (suc fuel) (buy ∷ bids) (sell ∷ asks) rem ms h =
      elim (match_loop-Round host fuel buy bids sell asks rem ms h) [
        | Round.no_cross e ↦ rw e (omega arith)
        | Round.own_order own g ↦ match_loop-filled fuel _ _ rem ms g
        | Round.exhausted g ↦ match_loop-filled fuel _ _ rem ms g
        | Round.crossed pb ps price rest eb es cross other some_qty ep g e ↦ rw e (
            filled-cons buy.contract_id sell.contract_id cid (round_qty host buy sell rem) _
              (filled cid rest) _ _ (amount-format (round_qty host buy sell rem))
              (round_step buy.contract_id sell.contract_id cid rem (round_qty host buy sell rem)
                refl some_qty)
              (match_loop-filled fuel _ _ _ rest g))
      ]

-- The rests at the start of a run.
rest-le :
    (c : Bool) (bound tail : ℕ) (q old : ℤ)
    → pos_part old ≤ bound
    → max (if c then pos_part q else 0) tail ≤ bound
    → (pos_part (if c then q else old) ≤ bound) × (tail ≤ bound)
rest-le true bound tail q old h l = omega arith
rest-le false bound tail q old h l = omega arith

initial_remaining-le :
    (cid : Str) (bound : ℕ) (os : List Order) (rem left : Remaining)
    → initial_remaining rem os ≡ returns left
    → pos_part (remaining_of cid rem) ≤ bound
    → largest_rest cid os ≤ bound
    → pos_part (remaining_of cid left) ≤ bound
unfolding initial_remaining largest_rest
initial_remaining-le cid bound [] rem left h k l = rw (sym (returns-injective h)) k
initial_remaining-le cid bound (o ∷ os) rem left h k l =
    let (q, eq, h1) = >>=-eq-returns (parse_decimal o.remaining_qty) _ h in
    let both =
      rest-le (o.contract_id === cid) bound (largest_rest cid os) q (remaining_of cid rem) k
        (rw eq at l) in
    initial_remaining-le cid bound os (insert o.contract_id q rem) left h1
      (rw (remaining_of-insert o.contract_id cid q rem) both.0) both.1

le_max_right : (a b c : ℕ) → a ≤ c → a ≤ max b c
le_max_right a b c h = omega (arith, h)

module _ (host : Host) (cid : Str) where
  -- The orders that the filter drops make no rest larger.
  kept-le :
      (c : Bool) (x tail more : ℕ) → more ≤ tail → (if c then max x more else more) ≤ max x tail
  kept-le true x tail more h = omega arith
  kept-le false x tail more h = omega arith

  largest_rest-kept :
      (c : Bool) (o : Order) (more : List Order)
      → largest_rest cid (if c then o ∷ more else more) ≡ (
          if c
          then max
              (if o.contract_id === cid then amount o.remaining_qty else 0)
              (largest_rest cid more)
          else largest_rest cid more)
  unfolding largest_rest
  largest_rest-kept true o more = refl
  largest_rest-kept false o more = refl

  eligible_orders-largest_rest :
      (pair : PairKey) (now_ms : ℤ) (os es : List Order)
      → eligible_orders host pair now_ms os ≡ returns es
      → largest_rest cid es ≤ largest_rest cid os
  unfolding eligible_orders largest_rest
  eligible_orders-largest_rest pair now_ms [] es h = rw (sym (returns-injective h)) (omega arith)
  eligible_orders-largest_rest pair now_ms (o ∷ os) es h =
      elim (Bool-cases (eq_pair (pair_of o) pair && is_open_at host o now_ms)) [
        | inr e ↦ le_max_right _ _ _ (eligible_orders-largest_rest pair now_ms os es (rw e at h))
        | inl e ↦
            let (q, eq, h1) = >>=-eq-returns (parse_decimal o.remaining_qty) _ (rw e at h) in
            let (more, em, h2) = >>=-eq-returns (eligible_orders host pair now_ms os) _ h1 in
            let rest = eligible_orders-largest_rest pair now_ms os more em in
            rw (sym (returns-injective h2), largest_rest-kept (ltb_ℤ (pos 0) q) o more)
              (kept-le (ltb_ℤ (pos 0) q) _ (largest_rest cid os) (largest_rest cid more) rest)
      ]

  -- A run never matches more of the orders with one contract id, as bids and as asks together, than
  -- the largest rest that an order of the input with this contract id has.
  pub match_orders_for_pair-filled :
      (orders : List Order) (pair : PairKey) (now_ms : ℤ) (ms : List Match)
      → match_orders_for_pair host orders pair now_ms ≡ returns ms
      → filled cid ms ≤ largest_rest cid orders
  unfolding match_orders_for_pair
  match_orders_for_pair-filled orders pair now_ms ms h =
      let (es, ee, h1) = >>=-eq-returns (eligible_orders host pair now_ms orders) _ h in
      let (u, eu, h2) = >>=-eq-returns (check_prices _) _ h1 in
      let (v, ev, h3) = >>=-eq-returns (check_prices _) _ h2 in
      let (rem, er, h4) = >>=-eq-returns (initial_remaining _ _) _ h3 in
      let start =
        initial_remaining-le cid (largest_rest cid orders) es [] rem er
          (rw (remaining_of-empty cid) (omega arith))
          (eligible_orders-largest_rest pair now_ms orders es ee) in
      omega (arith, match_loop-filled host cid _ _ _ rem ms h4, start)
