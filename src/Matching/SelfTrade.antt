-- ===== src/Matching/SelfTrade.antt =====
-- The self-trade rule of services/operator-backend/src/order/matching.ts: a best bid whose trader
-- also holds all asks.
use canton_dex_reference_imp.Prelude.{
  ℕ, zero, suc, ◌≤◌, ◌≡◌, refl, arith, true, List, [], ◌∷◌, All, length, Bool-cases, inl, inr,
}
use canton_dex_reference_imp.Prelude.Int.{pos, ltb_ℤ}
use canton_dex_reference_imp.Prelude.Outcome.{returns}
use canton_dex_reference_imp.Prelude.Text.{◌===◌}
use canton_dex_reference_imp.Types.{Order}
use canton_dex_reference_imp.Matching.{Host, Remaining, match_loop}
use canton_dex_reference_imp.Matching.Total.{IsPriced}

-- Where the trader of the first bid has placed every ask, the loop returns no match, whatever the
-- other bids are: a cross of another bid with these asks is not found, and a run on the same orders
-- finds none either.
pub match_loop-own_asks :
    (host : Host) (fuel : ℕ) (buy : Order) (bids asks : List Order) (rem : Remaining)
    → length asks ≤ fuel
    → IsPriced buy
    → All (λ (o : Order). IsPriced o × ((buy.trader === o.trader) ≡ true)) asks
    → match_loop host fuel (buy ∷ bids) asks rem ≡ returns []
unfolding match_loop
match_loop-own_asks host fuel buy bids [] rem h hb ha = refl
match_loop-own_asks host zero buy bids (sell ∷ asks) rem h hb ha = absurd (omega arith)
match_loop-own_asks host (suc fuel) buy bids (sell ∷ asks) rem h hb ha =
    let (p, ep) = hb in
    let (((s, es), own), rest) = ha in
    elim (Bool-cases (ltb_ℤ (pos p) (pos s))) [
      | inl apart ↦ rw (ep, es, apart)
      | inr cross ↦
          rw (ep, es, cross, own)
            (match_loop-own_asks host fuel buy bids asks rem (omega arith) hb rest)
    ]
