-- ===== src/Pool/Curve.antt =====
-- `computeQuote` of services/operator-backend/src/pool/index.ts against the constant product.
use canton_dex_reference_imp.Prelude.{
  ℕ, ◌+◌, ◌-◌, ◌*◌, ◌/◌, ◌≤◌, ◌<◌, ◌≡◌, arith, ap, subst, leb, ltb, ltb→lt, ltb→le, leb→le, leb→lt,
  Bool-cases, inl, inr,
}
use canton_dex_reference_imp.Prelude.Int.{pos, sub_ℕ-pos}
use canton_dex_reference_imp.Prelude.Outcome.{returns}
use native.Mathlib.Nat.{div-mul-le_self}
use canton_dex_reference_imp.Decimal.{scale, parse_decimal, format_decimal}
use canton_dex_reference_imp.Decimal.Rounding.{mul_floor-pos, div_floor-pos}
use canton_dex_reference_imp.Types.{Decimal, InstrumentId, Pool, same_instrument}
use canton_dex_reference_imp.Pool.Quote.{reserves_of, quote_out, compute_quote}
use canton_dex_reference_imp.Pool.Numerals.{parse_decimal-int_text, ten_thousand}

-- The input after the fee.
abbrev pub net_input : ℕ → ℕ → ℕ
net_input fee a = a * ((10000 - fee) * scale) / scale * scale / (10000 * scale)

abbrev pub curve_out : ℕ → ℕ → ℕ → ℕ
curve_out r_in r_out dx = r_out * dx / scale * scale / (r_in + dx)

quote_out-pos :
    (r_in r_out fee a : ℕ)
    → 0 < r_in
    → quote_out (pos r_in) (pos r_out) (pos ((10000 - fee) * scale)) (pos (10000 * scale)) (pos a)
      ≡ returns (pos (curve_out r_in r_out (net_input fee a)))
unfolding quote_out
quote_out-pos r_in r_out fee a h =
    rw
      (
        mul_floor-pos a ((10000 - fee) * scale),
        div_floor-pos (a * ((10000 - fee) * scale) / scale) (10000 * scale) (omega arith),
      )
      (rw (mul_floor-pos r_out (net_input fee a))
        (div_floor-pos (r_out * net_input fee a / scale) (r_in + net_input fee a) (omega arith)))

net_input_le_of :
    (f g a x dx : ℕ) → f + g ≡ 10000 → x ≤ a * (f * scale) → dx * (10000 * scale) ≤ x → dx ≤ a
net_input_le_of f g a x dx e h k = omega (arith, ap (λ (t : ℕ). a * t) e)

net_input-le : (fee a : ℕ) → net_input fee a ≤ a
net_input-le fee a =
    net_input_le_of (10000 - fee) (10000 - (10000 - fee)) a
      (a * ((10000 - fee) * scale) / scale * scale) (net_input fee a) (omega arith)
      (div-mul-le_self (a * ((10000 - fee) * scale)) scale)
      (div-mul-le_self (a * ((10000 - fee) * scale) / scale * scale) (10000 * scale))

curve_out-le : (r_in r_out dx : ℕ) → curve_out r_in r_out dx * (r_in + dx) ≤ r_out * dx
curve_out-le r_in r_out dx = omega (
  arith,
  div-mul-le_self (r_out * dx) scale,
  div-mul-le_self (r_out * dx / scale * scale) (r_in + dx),
)

-- A payout that is paid for leaves the reserve, and keeps the product.
payout_not_above : (r_in r_out dx j : ℕ) → 0 < r_in → ¬ ((r_out + 1 + j) * (r_in + dx) ≤ r_out * dx)
payout_not_above r_in r_out dx j p h = omega arith

payout_below : (r_in r_out dx out : ℕ) → 0 < r_in → out * (r_in + dx) ≤ r_out * dx → out ≤ r_out
payout_below r_in r_out dx out p h = elim (Bool-cases (leb out r_out)) [
  | inl le ↦ leb→le out r_out le
  | inr gt ↦
      let l = leb→lt out r_out gt in
      absurd (
        payout_not_above r_in r_out dx (out - r_out - 1) p
          (subst (λ (t : ℕ). t * (r_in + dx) ≤ r_out * dx) (omega arith) h))
]

payout_keeps_product_net :
    (r_in dx j out k : ℕ)
    → out * (r_in + dx) ≤ (out + k) * dx
    → r_in * (out + k) ≤ (r_in + (dx + j)) * k
payout_keeps_product_net r_in dx j out k h = omega arith

payout_keeps_product :
    (r_in a dx out k : ℕ)
    → dx ≤ a
    → out * (r_in + dx) ≤ (out + k) * dx
    → r_in * (out + k) ≤ (r_in + a) * k
payout_keeps_product r_in a dx out k d h =
    subst (λ (t : ℕ). r_in * (out + k) ≤ (r_in + t) * k)
      (let e : dx + (a - dx) ≡ a = omega arith in e)
      (payout_keeps_product_net r_in dx (a - dx) out k h)

payout_not_all :
    (r_in r_out dx j : ℕ) → 0 < r_in → 0 < r_out → ¬ ((r_out + j) * (r_in + dx) ≤ r_out * dx)
payout_not_all r_in r_out dx j p q h = let prod : 0 < r_out * r_in = grind arith in omega arith

payout_lt :
    (r_in r_out dx out : ℕ) → 0 < r_in → out * (r_in + dx) ≤ r_out * dx → 0 < r_out → out < r_out
payout_lt r_in r_out dx out p h q = elim (Bool-cases (ltb out r_out)) [
  | inl lt ↦ ltb→lt out r_out lt
  | inr ge ↦
      let l = ltb→le out r_out ge in
      absurd (
        payout_not_all r_in r_out dx (out - r_out) p q
          (subst (λ (t : ℕ). t * (r_in + dx) ≤ r_out * dx) (omega arith) h))
]

-- What the curve pays: within the reserve, never all of it, and the product does not fall.
curve_facts :
    (r_in r_out fee a : ℕ)
    → 0 < r_in
    → let out = curve_out r_in r_out (net_input fee a) in
      (out ≤ r_out) × (0 < r_out → out < r_out) × (r_in * r_out ≤ (r_in + a) * (r_out - out))
curve_facts r_in r_out fee a p =
    let dx = net_input fee a in
    let out = curve_out r_in r_out dx in
    let paid = curve_out-le r_in r_out dx in
    let below = payout_below r_in r_out dx out p paid in
    (
      below,
      payout_lt r_in r_out dx out p paid,
      subst (λ (t : ℕ). r_in * t ≤ (r_in + a) * (r_out - out)) (omega arith)
          (payout_keeps_product r_in a dx out (r_out - out) (net_input-le fee a)
            (subst (λ (t : ℕ). out * (r_in + dx) ≤ t * dx) (omega arith) paid)),
    )

-- `computeQuote` on reserves that are readable numbers, the input's not zero, with a fee of at most
-- 10000 basis points and a readable input, none of them negative, returns a formatted output within
-- the output's reserve, never the whole of it unless it is empty, and the product of the reserves
-- after the swap is not below the product before.
pub compute_quote-keeps_product :
    (pool : Pool) (iid : InstrumentId) (input_amount : Decimal) (r_in r_out fee a : ℕ)
    → parse_decimal (reserves_of pool (same_instrument iid pool.base_instrument_id)).0
      ≡ returns (pos r_in)
    → parse_decimal (reserves_of pool (same_instrument iid pool.base_instrument_id)).1
      ≡ returns (pos r_out)
    → pool.fee_bps ≡ pos fee
    → fee ≤ 10000
    → parse_decimal input_amount ≡ returns (pos a)
    → 0 < r_in
    → (out : ℕ) × (compute_quote pool iid input_amount ≡ returns (format_decimal (pos out)))
      × (out ≤ r_out)
      × (0 < r_out → out < r_out)
      × (r_in * r_out ≤ (r_in + a) * (r_out - out))
unfolding compute_quote
compute_quote-keeps_product pool iid input_amount r_in r_out fee a e_in e_out e_fee low e_a p =
    let out = curve_out r_in r_out (net_input fee a) in
    let (below, partial, product) = curve_facts r_in r_out fee a p in
    (
      out,
      rw (
        e_in,
        e_out,
        e_fee,
        sub_ℕ-pos 10000 fee low,
        parse_decimal-int_text (pos (10000 - fee)),
        ten_thousand,
        e_a,
        quote_out-pos r_in r_out fee a p,
      ),
      below,
      partial,
      product,
    )
