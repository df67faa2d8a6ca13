-- ===== src/Matching/Price.antt =====
-- The clearing price of services/operator-backend/src/order/matching.ts.
use canton_dex_reference_imp.Prelude.{
  ℕ, ◌+◌, ◌*◌, ◌≤◌, ◌≡◌, refl, arith, Option, none, some, Bool-cases, inl, inr,
}
use canton_dex_reference_imp.Prelude.Int.{ℤ, pos, ltb_ℤ, eqb_ℤ}
use canton_dex_reference_imp.Prelude.Outcome.{Outcome, returns}
use canton_dex_reference_imp.Decimal.{scale, format_decimal, parse_decimal}
use canton_dex_reference_imp.Decimal.Rounding.{round_even, round_even-nearest, div-pos}
use canton_dex_reference_imp.Decimal.RoundTrip.{parse_decimal-format_decimal}
use canton_dex_reference_imp.Types.{Decimal, Order}
use canton_dex_reference_imp.Matching.{
  Host, price_of, resting_since, midpoint, clearing_at, clearing_price,
}

-- The midpoint, rounded to the scale of a price, stays between two prices.
between :
    (p s m : ℕ)
    → s ≤ p
    → 2 * (m * (2 * scale)) ≤ 2 * ((p + s) * scale) + 2 * scale
    → 2 * ((p + s) * scale) ≤ 2 * (m * (2 * scale)) + 2 * scale
    → (s ≤ m) × (m ≤ p)
between p s m h l u = omega arith

-- A price that is returned and lies between the two limits.
abbrev pub IsBetween : ℕ → ℕ → Outcome Decimal → Type 0
IsBetween s p result =
    (price : Decimal) × (m : ℕ) × (result ≡ returns price)
    × (parse_decimal price ≡ returns (pos m))
    × (s ≤ m)
    × (m ≤ p)

module _ (host : Host) (buy sell : Order) (p s : ℕ) where
  midpoint-IsBetween :
      price_of buy ≡ returns (pos p)
      → price_of sell ≡ returns (pos s)
      → s ≤ p
      → IsBetween s p (midpoint host buy sell)
  unfolding midpoint
  midpoint-IsBetween eb es meet =
      let (l, u, ties, ties') = round_even-nearest ((p + s) * scale) (2 * scale) (omega arith) in
      let m = round_even ((p + s) * scale) (2 * scale) in
      let (lo, hi) = between p s m meet u l in
      rw (eb, es, div-pos (p + s) (2 * scale) (omega arith))
        (format_decimal (pos m), m, refl, parse_decimal-format_decimal (pos m), lo, hi)

  clearing_at-IsBetween :
      (tb ts : Option ℤ)
      → price_of buy ≡ returns (pos p)
      → price_of sell ≡ returns (pos s)
      → s ≤ p
      → IsBetween s p (clearing_at host tb ts buy sell)
  unfolding price_of
  clearing_at-IsBetween none ts eb es meet = midpoint-IsBetween eb es meet
  clearing_at-IsBetween (some tb) none eb es meet = midpoint-IsBetween eb es meet
  clearing_at-IsBetween (some tb) (some ts) eb es meet = elim (Bool-cases (eqb_ℤ tb ts)) [
    | inl e ↦ rw e (midpoint-IsBetween eb es meet)
    | inr e ↦ elim (Bool-cases (ltb_ℤ tb ts)) [
      | inl lt ↦ rw (e, lt) (buy.limit_price, p, refl, eb, meet, omega arith)
      | inr ge ↦ rw (e, ge) (sell.limit_price, s, refl, es, omega arith, meet)
    ]
  ]

  -- For a bid and an ask with limits that are not negative, the bid's not below the ask's, the
  -- clearing price is computed, and it lies between the two limits.
  pub clearing_price-IsBetween :
      price_of buy ≡ returns (pos p)
      → price_of sell ≡ returns (pos s)
      → s ≤ p
      → IsBetween s p (clearing_price host buy sell)
  unfolding clearing_price
  clearing_price-IsBetween eb es meet =
      clearing_at-IsBetween (resting_since host buy) (resting_since host sell) eb es meet
