-- ===== src/Pool/Redeem.antt =====
-- `deriveRemovePlan` and `selectCoveringPrefix`: what a redemption draws from which slices.
use canton_dex_reference_imp.Prelude.{
  ℕ, zero, suc, ◌+◌, ◌-◌, ◌≤◌, ◌<◌, ◌≡◌, refl, arith, ap, ◌∙◌, ltb, ltb→lt, ltb→le, le→ltb, lt→ltb,
  Bool-cases, inl, inr, List, [], ◌∷◌, map, take, length, true, false,
}
use canton_dex_reference_imp.Prelude.Int.{ℤ, pos, sub_ℕ-pos}
use canton_dex_reference_imp.Prelude.Outcome.{Outcome, returns, throws, error}
use canton_dex_reference_imp.Decimal.{parse_decimal, format_decimal}
use canton_dex_reference_imp.Decimal.RoundTrip.{parse_decimal-format_decimal}
use canton_dex_reference_imp.Types.{Decimal, ContractId, PoolSlice}
use canton_dex_reference_imp.Pool.Liquidity.{RemoveSidePlan, side_from, remove_side}

-- Decimals that parse to these numbers, one by one.
abbrev pub Parses : List Decimal → List ℕ → Type 0
Parses [] [] = Unit
Parses [] (n ∷ ns) = ⊥
Parses (d ∷ ds) [] = ⊥
Parses (d ∷ ds) (n ∷ ns) = (parse_decimal d ≡ returns (pos n)) × Parses ds ns

abbrev pub slice_amounts : List PoolSlice → List Decimal
slice_amounts slices = map (λ (s : PoolSlice). s.amount) slices

abbrev pub slice_ids : List PoolSlice → List ContractId
slice_ids slices = map (λ (s : PoolSlice). s.contract_id) slices

abbrev pub sum : List ℕ → ℕ
sum [] = 0
sum (n ∷ ns) = n + sum ns

-- No draw is larger than the slice it is taken from, and there are no more draws than slices.
abbrev pub Within : List ℕ → List ℕ → Type 0
Within [] ns = Unit
Within (o ∷ os) [] = ⊥
Within (o ∷ os) (n ∷ ns) = (o ≤ n) × Within os ns

-- A plan whose draws come head-first from the slices and add up to `total`.
pub record Draws (slices : List PoolSlice) (ns : List ℕ) (total : ℕ) (plan : RemoveSidePlan)
    : Type 0 where
  pub draws : List ℕ
  pub parsed : Parses plan.outs draws
  pub adds_up : sum draws ≡ total
  pub within : Within draws ns
  pub from_head : plan.slice_cids ≡ take (length draws) (slice_ids slices)

abbrev empty_plan : RemoveSidePlan
empty_plan = record { slice_cids = []; outs = [] }

abbrev add_draw : PoolSlice → RemoveSidePlan → Decimal → RemoveSidePlan
add_draw s plan out = record {
  slice_cids = s.contract_id ∷ plan.slice_cids;
  outs = out ∷ plan.outs;
}

same_rest :
    (plan : RemoveSidePlan) {j k : ℕ}
    → j ≡ k
    → ◌≡◌ {A = Outcome (RemoveSidePlan × ℤ)} (returns (plan, pos j)) (returns (plan, pos k))
same_rest plan e = ap (λ (k : ℕ). returns (plan, pos k)) e

-- One round of the loop: the rest of the target comes from this slice, or the whole slice goes.
side_from-part :
    (s : PoolSlice) (slices : List PoolSlice) (n t : ℕ) (plan : RemoveSidePlan) (r : ℤ)
    → parse_decimal s.amount ≡ returns (pos n)
    → ltb (suc t) n ≡ true
    → side_from (pos 0) slices ≡ returns (plan, r)
    → side_from (pos (suc t)) (s ∷ slices)
      ≡ returns (add_draw s plan (format_decimal (pos (suc t))), r)
unfolding side_from
side_from-part s slices n t plan r e part p =
    rw (lt→ltb 0 (suc t) (omega arith), side_from) (rw (e, part) (rw p))

side_from-whole :
    (s : PoolSlice) (slices : List PoolSlice) (n t : ℕ) (plan : RemoveSidePlan) (r : ℤ)
    → parse_decimal s.amount ≡ returns (pos n)
    → ltb (suc t) n ≡ false
    → side_from (pos (suc t - n)) slices ≡ returns (plan, r)
    → side_from (pos (suc t)) (s ∷ slices) ≡ returns (add_draw s plan s.amount, r)
unfolding side_from
side_from-whole s slices n t plan r e whole p =
    rw (lt→ltb 0 (suc t) (omega arith), side_from)
      (rw (e, whole) (rw (sub_ℕ-pos (suc t) n (ltb→le _ _ whole)) (rw p)))

-- The loop draws as much as there is, up to the target.
side_from-Draws :
    (slices : List PoolSlice) (ns : List ℕ) (t total : ℕ)
    → Parses (slice_amounts slices) ns
    → t ≡ total + (t - sum ns)
    → (plan : RemoveSidePlan) × (side_from (pos t) slices ≡ returns (plan, pos (t - sum ns)))
      × Draws slices ns total plan
side_from-Draws [] [] t total h e = (
  empty_plan,
  unfold side_from in rw (let z : t - 0 ≡ t = omega arith in z),
  record { draws = []; parsed = tt; adds_up = omega arith; within = tt; from_head = refl },
)
side_from-Draws [] (n ∷ ns) t total h e = absurd h
side_from-Draws (s ∷ slices) [] t total h e = absurd h
side_from-Draws (s ∷ slices) (n ∷ ns) zero total h e = (
  empty_plan,
  unfold side_from in ap (λ (k : ℕ). returns (empty_plan, pos k)) (omega arith),
  record { draws = []; parsed = tt; adds_up = omega arith; within = tt; from_head = refl },
)
side_from-Draws (s ∷ slices) (n ∷ ns) (suc t) total h e = elim (Bool-cases (ltb (suc t) n)) [
  | inl part ↦
      let (plan, p, d) = side_from-Draws slices ns 0 0 h.1 (omega arith) in
      (
        add_draw s plan (format_decimal (pos (suc t))),
        side_from-part s slices n t plan _ h.0 part p
            ∙ same_rest _ (omega (arith, ltb→lt _ _ part)),
        record {
          draws = suc t ∷ d.draws;
          parsed = (parse_decimal-format_decimal (pos (suc t)), d.parsed);
          adds_up = omega (arith, d.adds_up, ltb→lt _ _ part);
          within = (omega (arith, ltb→lt _ _ part), d.within);
          from_head = ap (λ (c : List ContractId). s.contract_id ∷ c) d.from_head;
        },
      )
  | inr whole ↦
      let (plan, p, d) =
        side_from-Draws slices ns (suc t - n) (total - n) h.1 (omega (arith, ltb→le _ _ whole)) in
      (
        add_draw s plan s.amount,
        side_from-whole s slices n t plan _ h.0 whole p
            ∙ same_rest _ (omega (arith, ltb→le _ _ whole)),
        record {
          draws = n ∷ d.draws;
          parsed = (h.0, d.parsed);
          adds_up = omega (arith, d.adds_up, ltb→le _ _ whole);
          within = (omega arith, d.within);
          from_head = ap (λ (c : List ContractId). s.contract_id ∷ c) d.from_head;
        },
      )
]

module _ (slices : List PoolSlice) (target : ℕ) (plan : RemoveSidePlan) (r : ℕ)
    (p : side_from (pos target) slices ≡ returns (plan, pos r)) where
  finish_covered : r ≡ 0 → remove_side slices (pos target) ≡ returns plan
  unfolding remove_side
  finish_covered e = rw p (rw (le→ltb 0 r (omega arith)))

  finish_short :
      0 < r
      → remove_side slices (pos target) ≡ throws (error "pool slices cannot cover the redemption")
  unfolding remove_side
  finish_short e = rw p (rw (lt→ltb 0 r e))

-- A target that the slices cover is drawn exactly: the draws add up to it, each within its slice,
-- taken head-first.
pub remove_side-covers :
    (slices : List PoolSlice) (ns : List ℕ) (target : ℕ)
    → Parses (slice_amounts slices) ns
    → target ≤ sum ns
    → (plan : RemoveSidePlan) × (remove_side slices (pos target) ≡ returns plan)
      × Draws slices ns target plan
remove_side-covers slices ns target h c =
    let (plan, p, d) = side_from-Draws slices ns target target h (omega arith) in
    (plan, finish_covered slices target plan (target - sum ns) p (omega arith), d)

-- A target that the slices do not cover is refused.
pub remove_side-short :
    (slices : List PoolSlice) (ns : List ℕ) (target : ℕ)
    → Parses (slice_amounts slices) ns
    → sum ns < target
    → remove_side slices (pos target) ≡ throws (error "pool slices cannot cover the redemption")
remove_side-short slices ns target h c =
    let (plan, p, d) = side_from-Draws slices ns target (sum ns) h (omega arith) in
    finish_short slices target plan (target - sum ns) p (omega arith)
