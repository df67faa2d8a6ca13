-- ===== src/Pool/Sides.antt =====
-- The slices of a pool on one side, as `combine` of pool/index.ts selects them.
use canton_dex_reference_imp.Prelude.{
  ◌≡◌, refl, Bool, true, false, ◌&&◌, map, filterb, List, [], ◌∷◌, if◌then◌else◌,
}
use canton_dex_reference_imp.Prelude.Text.{Str, ◌===◌}
use canton_dex_reference_imp.Types.{PoolSliceContract, PoolSlice, SliceSide}
use canton_dex_reference_imp.Pool.Views.{is_base, is_quote, to_slice}

abbrev same_side : SliceSide → SliceSide → Bool
same_side SliceSide.base_side SliceSide.base_side = true
same_side SliceSide.base_side SliceSide.quote_side = false
same_side SliceSide.quote_side SliceSide.base_side = false
same_side SliceSide.quote_side SliceSide.quote_side = true

-- The slices of one pool that are on one side, in their order.
abbrev pub slices_of_side : SliceSide → Str → List PoolSliceContract → List PoolSlice
slices_of_side side pool_id [] = []
slices_of_side side pool_id (s ∷ slices) =
    if s.pool_id === pool_id && same_side s.side side
    then record {
      contract_id = s.contract_id;
      allocation_cid = s.allocation_cid;
      amount = s.amount;
      side = s.side;
    }
      ∷ slices_of_side side pool_id slices
    else slices_of_side side pool_id slices

is_base_lem : (side : SliceSide) → is_base side ≡ same_side side SliceSide.base_side
is_base_lem SliceSide.base_side = refl
is_base_lem SliceSide.quote_side = refl

is_quote_lem : (side : SliceSide) → is_quote side ≡ same_side side SliceSide.quote_side
is_quote_lem SliceSide.base_side = refl
is_quote_lem SliceSide.quote_side = refl

-- One slice, kept where it is of the pool (`c`) and of the side (`d`).
one_slice :
    (f : PoolSliceContract → Bool) (c d : Bool) (s : PoolSliceContract)
    (slices : List PoolSliceContract)
    → f s ≡ d
    → map to_slice (filterb f (if c then s ∷ slices else slices)) ≡ (
        if c && d
        then to_slice s ∷ map to_slice (filterb f slices)
        else map to_slice (filterb f slices))
one_slice f true true s slices e = rw e refl
one_slice f true false s slices e = rw e refl
one_slice f false d s slices e = refl

pub base_slices_lem :
    (pool_id : Str) (slices : List PoolSliceContract)
    → map to_slice (
        filterb
          (λ (s : PoolSliceContract). is_base s.side)
          (filterb (λ (s : PoolSliceContract). s.pool_id === pool_id) slices))
      ≡ slices_of_side SliceSide.base_side pool_id slices
base_slices_lem pool_id [] = refl
base_slices_lem pool_id (s ∷ slices) = rw (← base_slices_lem pool_id slices) (
    one_slice (λ (t : PoolSliceContract). is_base t.side) (s.pool_id === pool_id) _ s _
      (is_base_lem s.side))

pub quote_slices_lem :
    (pool_id : Str) (slices : List PoolSliceContract)
    → map to_slice (
        filterb
          (λ (s : PoolSliceContract). is_quote s.side)
          (filterb (λ (s : PoolSliceContract). s.pool_id === pool_id) slices))
      ≡ slices_of_side SliceSide.quote_side pool_id slices
quote_slices_lem pool_id [] = refl
quote_slices_lem pool_id (s ∷ slices) = rw (← quote_slices_lem pool_id slices) (
    one_slice (λ (t : PoolSliceContract). is_quote t.side) (s.pool_id === pool_id) _ s _
      (is_quote_lem s.side))
