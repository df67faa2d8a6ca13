-- ===== src/Pool/Deposit.antt =====
-- `matchLiquidity`: what a deposit puts into the pool and what comes back.
use canton_dex_reference_imp.Prelude.{
  ℕ, zero, suc, ◌+◌, ◌-◌, ◌*◌, ◌≤◌, ◌<◌, ◌≡◌, refl, arith, ltb, ltb→lt, ltb→le, le→ltb, ne→==,
  Bool-cases, inl, inr, ◌⊎◌,
}
use canton_dex_reference_imp.Prelude.Int.{pos, sub_ℕ-pos}
use canton_dex_reference_imp.Prelude.Outcome.{returns}
use canton_dex_reference_imp.Decimal.{scale, parse_decimal, format_decimal, min_ℤ, max_ℤ}
use canton_dex_reference_imp.Decimal.Rounding.{
  ceil_mul_div-least, round_even, round_even-le, mul-pos, div-pos,
}
use canton_dex_reference_imp.Types.{Decimal, Pool}
use canton_dex_reference_imp.Pool.Liquidity.{LiquidityMatch, bps_of, matched_legs, match_liquidity}

-- One leg goes in whole; the other, which is over the reserve ratio, only as far as it pairs with
-- it, rounded up to the last place. No leg gives more than was supplied.
pub record IsMatch (b q rb rq mb mq : ℕ) : Type 0 where
  pub base_supplied : mb ≤ b
  pub quote_supplied : mq ≤ q
  pub whole_leg : (mb ≡ b) ⊎ (mq ≡ q)
  pub base_paired : mb * rq < mq * rb + rq
  pub quote_paired : mq * rb < mb * rq + rb

ceil_lt : (n c d : ℕ) → 0 < d → ((k : ℕ) → n ≤ k * d → c ≤ k) → c * d < n + d
ceil_lt n zero d p least = omega arith
ceil_lt n (suc k) d p least = elim (Bool-cases (ltb (k * d) n)) [
  | inl lt ↦ let l = ltb→lt (k * d) n lt in omega arith
  | inr ge ↦ absurd (let a = least k (ltb→le (k * d) n ge) in omega arith)
]

-- A leg that is over the ratio is cut to the other, so the smaller of the two amounts is the cut.
min_cut : (b c : ℕ) → c ≤ b → min_ℤ (pos b) (pos c) ≡ pos c
min_cut b c h = rw (le→ltb b c h)

-- On a pool with two reserves that are not empty, the legs that enter match: one leg whole, and
-- the other within one unit of the last place of the reserve ratio.
pub matched_legs-IsMatch :
    (b q rb rq : ℕ)
    → 0 < rb
    → 0 < rq
    → (mb : ℕ) × (mq : ℕ) × (matched_legs (pos b) (pos q) (pos rb) (pos rq)
        ≡ returns (pos mb, pos mq))
      × IsMatch b q rb rq mb mq
unfolding matched_legs
matched_legs-IsMatch b q rb rq pb pq = elim (Bool-cases (ltb (q * rb) (b * rq))) [
  | inl over ↦
      let (c, e, up, least) = ceil_mul_div-least q rb rq pq in
      let h = ltb→lt (q * rb) (b * rq) over in
      let cut : c ≤ b = least b (omega arith) in
      let top = ceil_lt (q * rb) c rq pq least in
      (
        c,
        q,
        rw (over, e) (rw (min_cut b c cut)),
        record {
          base_supplied = cut;
          quote_supplied = omega arith;
          whole_leg = inr refl;
          base_paired = top;
          quote_paired = omega arith;
        },
      )
  | inr under ↦
      let (c, e, up, least) = ceil_mul_div-least b rq rb pb in
      let cut : c ≤ q = least q (ltb→le (q * rb) (b * rq) under) in
      let top = ceil_lt (b * rq) c rb pb least in
      (
        b,
        c,
        rw (under, e) (rw (min_cut q c cut)),
        record {
          base_supplied = omega arith;
          quote_supplied = cut;
          whole_leg = inl refl;
          base_paired = omega arith;
          quote_paired = top;
        },
      )
]

bps_of-pos :
    (r s : ℕ)
    → r ≤ s
    → (v : ℕ) × (bps_of (pos r) (pos s) ≡ returns (pos v)) × (v ≤ 100_000_000_000_000)
unfolding bps_of
bps_of-pos r zero h = (0, refl, omega arith)
bps_of-pos r (suc s) h =
    let scaled = round_even (r * 100_000_000_000_000) scale in
    let exact : scaled ≤ r * 10_000 =
      round_even-le (r * 100_000_000_000_000) scale (r * 10_000) (omega arith) (omega arith) in
    (
      round_even (scaled * scale) (suc s),
      rw (
        ne→== (suc s) 0 (omega arith),
        mul-pos r 100_000_000_000_000,
        div-pos scaled (suc s) (omega arith),
      ),
      round_even-le (scaled * scale) (suc s) 100_000_000_000_000 (omega arith) (omega arith),
    )

max_ℤ-pos : (u v k : ℕ) → u ≤ k → v ≤ k → (w : ℕ) × (max_ℤ (pos u) (pos v) ≡ pos w) × (w ≤ k)
max_ℤ-pos u v k h l = elim (Bool-cases (ltb v u)) [ inl e ↦ (u, rw e, h) | inr e ↦ (v, rw e, l) ]

-- What the caller is told: matched and refunded legs that add up to the deposit, and how far the
-- deposit is off the ratio.
pub record IsQuoteOf (b q rb rq : ℕ) (m : LiquidityMatch) : Type 0 where
  pub mb : ℕ
  pub mq : ℕ
  pub off : ℕ
  pub matches : IsMatch b q rb rq mb mq
  pub matched_base : m.matched_base_amount ≡ format_decimal (pos mb)
  pub matched_quote : m.matched_quote_amount ≡ format_decimal (pos mq)
  pub refunded_base : m.refunded_base_amount ≡ format_decimal (pos (b - mb))
  pub refunded_quote : m.refunded_quote_amount ≡ format_decimal (pos (q - mq))
  pub off_ratio : m.off_ratio_bps ≡ format_decimal (pos off)
  pub off_bounded : off ≤ 100_000_000_000_000

-- On a funded pool with two reserves that are not empty, `matchLiquidity` always answers; the
-- matched legs are in the reserve ratio up to the last place, one of them is the whole leg, what is
-- refunded is the rest of each leg, and the off-ratio figure is at most 10000 basis points.
pub match_liquidity-funded :
    (pool : Pool) (base_amount quote_amount : Decimal) (b q supply rb rq : ℕ)
    → parse_decimal base_amount ≡ returns (pos b)
    → parse_decimal quote_amount ≡ returns (pos q)
    → parse_decimal pool.total_lp_supply ≡ returns (pos supply)
    → parse_decimal pool.reserves.base_amount ≡ returns (pos rb)
    → parse_decimal pool.reserves.quote_amount ≡ returns (pos rq)
    → 0 < supply
    → 0 < rb
    → 0 < rq
    → (m : LiquidityMatch) × (match_liquidity pool base_amount quote_amount ≡ returns m)
      × IsQuoteOf b q rb rq m
unfolding match_liquidity
match_liquidity-funded pool base_amount quote_amount b q supply rb rq eb eq es erb erq ps pb pq =
    let (mb, mq, e, ok) = matched_legs-IsMatch b q rb rq pb pq in
    let (ob, obe, obl) = bps_of-pos (b - mb) b (omega arith) in
    let (oq, oqe, oql) = bps_of-pos (q - mq) q (omega arith) in
    let (off, offe, offl) = max_ℤ-pos ob oq 100_000_000_000_000 obl oql in
    let lb = round_even (round_even (b * supply) scale * scale) rb in
    let lq = round_even (round_even (q * supply) scale * scale) rq in
    (
      record {
        lp_amount = format_decimal (min_ℤ (pos lb) (pos lq));
        matched_base_amount = format_decimal (pos mb);
        matched_quote_amount = format_decimal (pos mq);
        refunded_base_amount = format_decimal (pos (b - mb));
        refunded_quote_amount = format_decimal (pos (q - mq));
        off_ratio_bps = format_decimal (pos off);
      },
      rw (
        eb,
        eq,
        es,
        ne→== supply 0 (omega arith),
        erb,
        erq,
        mul-pos b supply,
        div-pos (round_even (b * supply) scale) rb pb,
        mul-pos q supply,
        div-pos (round_even (q * supply) scale) rq pq,
        e,
        sub_ℕ-pos b mb ok.base_supplied,
        sub_ℕ-pos q mq ok.quote_supplied,
        obe,
        oqe,
        offe,
      ),
      record {
        mb = mb;
        mq = mq;
        off = off;
        matches = ok;
        matched_base = refl;
        matched_quote = refl;
        refunded_base = refl;
        refunded_quote = refl;
        off_ratio = refl;
        off_bounded = offl;
      },
    )
