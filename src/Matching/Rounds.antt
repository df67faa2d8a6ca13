-- ===== src/Matching/Rounds.antt =====
-- One round of the matching loop, taken apart: what it means that the loop returned.
use canton_dex_reference_imp.Prelude.{
  ℕ, zero, suc, ◌≡◌, ◌≢◌, refl, sym, ◌∙◌, true, false, List, [], ◌∷◌, Bool-cases, inl, inr,
}
use canton_dex_reference_imp.Prelude.Int.{ℤ, pos, ◌-ℤ◌, ltb_ℤ, leb_ℤ}
use canton_dex_reference_imp.Prelude.Outcome.{returns, >>=-eq-returns, returns-injective}
use canton_dex_reference_imp.Prelude.Text.{◌===◌}
use canton_dex_reference_imp.Prelude.Assoc.{insert}
use canton_dex_reference_imp.Decimal.{format_decimal, min_ℤ}
use canton_dex_reference_imp.Types.{Decimal, Order}
use canton_dex_reference_imp.Matching.{
  Host, Match, Remaining, price_of, remaining_of, advance, clearing_price, match_loop,
}

module _ (host : Host) where
  -- The quantity of a round.
  abbrev pub round_qty : Order → Order → Remaining → ℤ
  round_qty buy sell rem =
      min_ℤ (remaining_of buy.contract_id rem) (remaining_of sell.contract_id rem)

  -- The ways in which a round that returned has gone on.
  pub data Round (fuel : ℕ) (buy : Order) (bids : List Order) (sell : Order) (asks : List Order)
      (rem : Remaining) (ms : List Match) : Type 0 where
    no_cross : ms ≡ [] → Round fuel buy bids sell asks rem ms
    own_order :
        (buy.trader === sell.trader) ≡ true
        → match_loop host fuel (buy ∷ bids) asks rem ≡ returns ms
        → Round fuel buy bids sell asks rem ms
    exhausted :
        match_loop host fuel
            (advance (leb_ℤ (remaining_of buy.contract_id rem) (pos 0)) buy bids)
            (advance (leb_ℤ (remaining_of sell.contract_id rem) (pos 0)) sell asks)
            rem
          ≡ returns ms
        → Round fuel buy bids sell asks rem ms
    crossed :
        (pb ps : ℤ) (price : Decimal) (rest : List Match)
        → price_of buy ≡ returns pb
        → price_of sell ≡ returns ps
        → ltb_ℤ pb ps ≡ false
        → (buy.trader === sell.trader) ≡ false
        → leb_ℤ (round_qty buy sell rem) (pos 0) ≡ false
        → clearing_price host buy sell ≡ returns price
        → match_loop host fuel
            (advance
              (leb_ℤ (remaining_of buy.contract_id rem -ℤ round_qty buy sell rem) (pos 0))
              buy
              bids)
            (advance
              (leb_ℤ (remaining_of sell.contract_id rem -ℤ round_qty buy sell rem) (pos 0))
              sell
              asks)
            (insert sell.contract_id (remaining_of sell.contract_id rem -ℤ round_qty buy sell rem) (
              insert buy.contract_id
                (remaining_of buy.contract_id rem -ℤ round_qty buy sell rem)
                rem))
          ≡ returns rest
        → ms
          ≡ record {
            buy = buy;
            sell = sell;
            price = price;
            quantity = format_decimal (round_qty buy sell rem);
          }
            ∷ rest
        → Round fuel buy bids sell asks rem ms

  pub match_loop-no_bids :
      (fuel : ℕ) (asks : List Order) (rem : Remaining)
      → match_loop host fuel [] asks rem ≡ returns []
  unfolding match_loop
  match_loop-no_bids fuel asks rem = refl

  pub match_loop-no_asks :
      (fuel : ℕ) (bids : List Order) (rem : Remaining)
      → match_loop host fuel bids [] rem ≡ returns []
  unfolding match_loop
  match_loop-no_asks fuel [] rem = refl
  match_loop-no_asks fuel (buy ∷ bids) rem = refl

  pub match_loop-no_fuel :
      (buy : Order) (bids : List Order) (sell : Order) (asks : List Order) (rem : Remaining)
      (ms : List Match)
      → match_loop host zero (buy ∷ bids) (sell ∷ asks) rem ≢ returns ms
  unfolding match_loop
  match_loop-no_fuel buy bids sell asks rem ms h = cc

  pub match_loop-Round :
      (fuel : ℕ) (buy : Order) (bids : List Order) (sell : Order) (asks : List Order)
      (rem : Remaining) (ms : List Match)
      → match_loop host (suc fuel) (buy ∷ bids) (sell ∷ asks) rem ≡ returns ms
      → Round fuel buy bids sell asks rem ms
  unfolding match_loop
  match_loop-Round fuel buy bids sell asks rem ms h =
      let (pb, eb, h1) = >>=-eq-returns (price_of buy) _ h in
      let (ps, es, h2) = >>=-eq-returns (price_of sell) _ h1 in
      elim (Bool-cases (ltb_ℤ pb ps)) [
        | inl apart ↦ no_cross (returns-injective (sym h2 ∙ (rw apart)))
        | inr cross ↦ elim (Bool-cases (buy.trader === sell.trader)) [
          | inl own ↦ own_order own (rw (cross, own) at h2)
          | inr other ↦ elim (Bool-cases (leb_ℤ (round_qty buy sell rem) (pos 0))) [
            | inl empty ↦ exhausted (rw (cross, other, empty) at h2)
            | inr some_qty ↦
                let (price, ep, h3) =
                  >>=-eq-returns (clearing_price host buy sell) _
                    (rw (cross, other, some_qty) at h2) in
                let (rest, er, h4) = >>=-eq-returns (match_loop host fuel _ _ _) _ h3 in
                crossed pb ps price rest eb es cross other some_qty ep er
                  (sym (returns-injective h4))
          ]
        ]
      ]
