-- ===== src/Pool/ProRata.antt =====
-- `deriveRemovePlan` of services/operator-backend/src/pool/index.ts as a whole: the redeemed share
-- of each reserve.
use canton_dex_reference_imp.Prelude.{List, ℕ, ◌*◌, ◌/◌, ◌≤◌, ◌<◌, ◌≡◌, arith}
use canton_dex_reference_imp.Prelude.Int.{pos}
use canton_dex_reference_imp.Prelude.Outcome.{returns}
use native.Mathlib.Nat.{div-mul-le_self}
use canton_dex_reference_imp.Decimal.{scale, parse_decimal}
use canton_dex_reference_imp.Decimal.Rounding.{div-le_of_lt-mul, mul_floor-pos, div_floor-pos}
use canton_dex_reference_imp.Types.{Decimal, Pool}
use canton_dex_reference_imp.Pool.Liquidity.{RemovePlan, derive_remove_plan}
use canton_dex_reference_imp.Pool.Redeem.{Parses, slice_amounts, sum, Draws, remove_side-covers}

-- The amount drawn from a reserve.
abbrev pub drawn : ℕ → ℕ → ℕ → ℕ
drawn reserve lp supply = reserve * (lp * scale / supply) / scale

mul_mono : (r a b : ℕ) → a ≤ b → r * a ≤ r * b
mul_mono r a b h = grind arith

drawn_of :
    (r lp supply share out : ℕ)
    → share * supply ≤ lp * scale
    → out * scale ≤ r * share
    → out * supply ≤ r * lp
drawn_of r lp supply share out h k =
    let a = mul_mono r (share * supply) (lp * scale) h in
    let b = mul_mono supply (out * scale) (r * share) k in omega arith

pub drawn-le : (r lp supply : ℕ) → drawn r lp supply * supply ≤ r * lp
drawn-le r lp supply =
    drawn_of r lp supply (lp * scale / supply) (drawn r lp supply)
      (div-mul-le_self (lp * scale) supply) (div-mul-le_self (r * (lp * scale / supply)) scale)

drawn-le_reserve : (r lp supply : ℕ) → 0 < supply → lp ≤ supply → drawn r lp supply ≤ r
drawn-le_reserve r lp supply p h =
    let a = mul_mono r lp supply h in
    div-le_of_lt-mul (drawn r lp supply) (r * supply) r supply (omega arith)
      (omega (arith, drawn-le r lp supply))

-- For readable amounts, a supply that is not zero and not below what is redeemed, and slices whose
-- amounts add up to the two reserves, the plan exists; each side draws at most the redeemed share of
-- its reserve, head-first and within each slice.
pub derive_remove_plan-pro_rata :
    (pool : Pool) (lp_text supply_text : Decimal) (lp supply rb rq : ℕ) (nb nq : List ℕ)
    → parse_decimal lp_text ≡ returns (pos lp)
    → parse_decimal supply_text ≡ returns (pos supply)
    → parse_decimal pool.reserves.base_amount ≡ returns (pos rb)
    → parse_decimal pool.reserves.quote_amount ≡ returns (pos rq)
    → Parses (slice_amounts pool.base_slices) nb
    → Parses (slice_amounts pool.quote_slices) nq
    → 0 < supply
    → lp ≤ supply
    → sum nb ≡ rb
    → sum nq ≡ rq
    → (plan : RemovePlan) × (base_out : ℕ) × (quote_out : ℕ) × (derive_remove_plan pool lp_text
          supply_text
        ≡ returns plan)
      × Draws pool.base_slices nb base_out plan.base
      × Draws pool.quote_slices nq quote_out plan.quote
      × (base_out * supply ≤ rb * lp)
      × (quote_out * supply ≤ rq * lp)
unfolding derive_remove_plan
derive_remove_plan-pro_rata pool lp_text supply_text lp supply rb rq nb nq el es erb erq pb pq p le
      eb eq =
    let (base, be, bd) =
      remove_side-covers pool.base_slices nb (drawn rb lp supply) pb
        (omega (arith, drawn-le_reserve rb lp supply p le)) in
    let (quote, qe, qd) =
      remove_side-covers pool.quote_slices nq (drawn rq lp supply) pq
        (omega (arith, drawn-le_reserve rq lp supply p le)) in
    (
      record { base = base; quote = quote },
      drawn rb lp supply,
      drawn rq lp supply,
      rw (
        el,
        es,
        div_floor-pos lp supply p,
        erb,
        mul_floor-pos rb (lp * scale / supply),
        erq,
        mul_floor-pos rq (lp * scale / supply),
        be,
        qe,
      ),
      bd,
      qd,
      drawn-le rb lp supply,
      drawn-le rq lp supply,
    )
