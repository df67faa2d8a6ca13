-- ===== src/Pool/Binding.antt =====
-- The binding that `requestSwap` of services/operator-backend/src/pool/index.ts quotes, and the pool
-- that it is quoted on.
use canton_dex_reference_imp.Prelude.{
  ◌≡◌, refl, sym, arith, Bool, true, false, not, ◌||◌, ◌&&◌, List, [], ◌∷◌, map, any, All,
  Bool-cases, inl, inr,
}
use canton_dex_reference_imp.Prelude.Int.{ℤ, pos, ◌+ℤ◌, leb_ℤ, ltb_ℤ}
use canton_dex_reference_imp.Prelude.Outcome.{
  returns, >>=-eq-returns, returns-injective, throw_if_passes,
}
use canton_dex_reference_imp.Prelude.Text.{◌===◌, ===-refl}
use canton_dex_reference_imp.Decimal.{parse_decimal}
use canton_dex_reference_imp.Types.{ContractId, Pool, PoolSlice, same_instrument}
use canton_dex_reference_imp.Pool.Quote.{compute_quote}
use canton_dex_reference_imp.Pool.Liquidity.{covering_from, select_covering_prefix}
use canton_dex_reference_imp.Pool.Swap.{
  PoolSwapQuoteBinding, PoolRequestSwapInput, cid_of, slices_of, first_slice, quote_binding, is_nil,
  has_cid,
}

pub or-eq-false : (a b : Bool) → (a || b) ≡ false → (a ≡ false) × (b ≡ false)
or-eq-false a b h = ground arith

pub not-true : (b : Bool) → b ≡ true → not b ≡ false
not-true b h = rw h

pub not-false : (b : Bool) → not b ≡ false → b ≡ true
not-false b h = ground arith

first_slice-active :
    (slices : List PoolSlice) (s : PoolSlice)
    → first_slice slices ≡ returns s
    → has_cid (map cid_of slices) s.contract_id ≡ true
first_slice-active [] s h = cc
first_slice-active (x ∷ slices) s h = rw (sym (returns-injective h)) (rw (===-refl x.contract_id))

-- Every id is among the ids of the slices.
abbrev pub Active : List PoolSlice → List ContractId → Type 0
Active slices cids = All (λ (c : ContractId). has_cid (map cid_of slices) c ≡ true) cids

or-true : (a b : Bool) → b ≡ true → (a || b) ≡ true
or-true a b h = ground arith

Active-cons :
    (s : PoolSlice) (slices : List PoolSlice) (cids : List ContractId)
    → Active slices cids
    → Active (s ∷ slices) cids
Active-cons s slices [] h = tt
Active-cons s slices (c ∷ cids) h =
    (or-true (s.contract_id === c) _ h.0, Active-cons s slices cids h.1)

own-active :
    (s : PoolSlice) (slices : List PoolSlice)
    → has_cid (map cid_of (s ∷ slices)) s.contract_id ≡ true
own-active s slices = rw (===-refl s.contract_id)

covering_from-Active :
    (target acc : ℤ) (slices : List PoolSlice) (cids : List ContractId)
    → covering_from target acc slices ≡ returns cids
    → Active slices cids
unfolding covering_from
covering_from-Active target acc [] cids h = rw (sym (returns-injective h)) tt
covering_from-Active target acc (s ∷ slices) cids h =
    let (amount, e, h1) = >>=-eq-returns (parse_decimal s.amount) _ h in
    elim (Bool-cases (leb_ℤ target (acc +ℤ amount))) [
      | inl last ↦ rw (sym (returns-injective (rw last at h1))) (own-active s slices, tt)
      | inr more ↦
          let (rest, er, h2) =
            >>=-eq-returns (covering_from target (acc +ℤ amount) slices) _ (rw more at h1) in
          rw (sym (returns-injective h2)) (
            own-active s slices,
            Active-cons s slices rest (covering_from-Active target (acc +ℤ amount) slices rest er),
          )
    ]

covering_from-not_nil :
    (target acc : ℤ) (s : PoolSlice) (slices : List PoolSlice) (cids : List ContractId)
    → covering_from target acc (s ∷ slices) ≡ returns cids
    → is_nil cids ≡ false
unfolding covering_from
covering_from-not_nil target acc s slices cids h =
    let (amount, e, h1) = >>=-eq-returns (parse_decimal s.amount) _ h in
    elim (Bool-cases (leb_ℤ target (acc +ℤ amount))) [
      | inl last ↦ rw (sym (returns-injective (rw last at h1)))
      | inr more ↦
          let (rest, er, h2) =
            >>=-eq-returns (covering_from target (acc +ℤ amount) slices) _ (rw more at h1) in
          rw (sym (returns-injective h2))
    ]

prefix-not_nil :
    (target : ℤ) (slices : List PoolSlice) (cids : List ContractId)
    → is_nil slices ≡ false
    → select_covering_prefix slices target ≡ returns cids
    → is_nil cids ≡ false
unfolding select_covering_prefix
prefix-not_nil target [] cids n h = cc
prefix-not_nil target (s ∷ slices) cids n h = covering_from-not_nil target (pos 0) s slices cids h

pub none_missing :
    (slices : List PoolSlice) (cids : List ContractId)
    → Active slices cids
    → any (λ (c : ContractId). not (has_cid (map cid_of slices) c)) cids ≡ false
none_missing slices [] h = refl
none_missing slices (c ∷ cids) h = rw (h.0, none_missing slices cids h.1)

pub all_there :
    (slices : List PoolSlice) (cids : List ContractId)
    → any (λ (c : ContractId). not (has_cid (map cid_of slices) c)) cids ≡ false
    → Active slices cids
all_there slices [] h = tt
all_there slices (c ∷ cids) h = elim (Bool-cases (has_cid (map cid_of slices) c)) [
  | inl e ↦ (e, all_there slices cids (rw e at h))
  | inr e ↦ absurd (cc (rw e at h))
]

-- The facts of a binding on a pool, for the side of its input.
pub record IsBindingOn (pool : Pool) (input_is_base : Bool) (b : PoolSwapQuoteBinding)
    : Type 0 where
  pub same_pool : b.expected_pool_id ≡ pool.pool_id
  pub same_state : b.pool_state_cid ≡ pool.pool_state_cid
  pub input_active : has_cid (map cid_of (slices_of pool input_is_base).0) b.input_slice_cid ≡ true
  pub some_output : is_nil b.output_slice_cids ≡ false
  pub outputs_active : Active (slices_of pool input_is_base).1 b.output_slice_cids

-- What `requestSwap` quotes on a pool with output slices is a binding on this pool, with the minimum
-- that was asked for, and that minimum is a readable number.
pub quote_binding-IsBindingOn :
    (pool : Pool) (input : PoolRequestSwapInput) (b : PoolSwapQuoteBinding)
    → quote_binding pool input ≡ returns b
    → is_nil (slices_of pool (same_instrument input.input_instrument_id pool.base_instrument_id)).1
      ≡ false
    → IsBindingOn pool (same_instrument input.input_instrument_id pool.base_instrument_id) b
      × (b.min_output_amount ≡ input.min_output_amount)
      × ((m : ℤ) × (parse_decimal input.min_output_amount ≡ returns m))
unfolding quote_binding select_covering_prefix
quote_binding-IsBindingOn pool input b h some_out =
    let base_in = same_instrument input.input_instrument_id pool.base_instrument_id in
    let (e1, h1) =
      throw_if_passes
        (not base_in && not (same_instrument input.input_instrument_id pool.quote_instrument_id)) _
        _ h in
    let (s, es, h2) = >>=-eq-returns (first_slice (slices_of pool base_in).0) _ h1 in
    let (out, eo, h3) =
      >>=-eq-returns (compute_quote pool input.input_instrument_id input.input_amount) _ h2 in
    let (amount, ea, h4) = >>=-eq-returns (parse_decimal out) _ h3 in
    let (e2, h5) = throw_if_passes (leb_ℤ amount (pos 0)) _ _ h4 in
    let (m, em, h6) = >>=-eq-returns (parse_decimal input.min_output_amount) _ h5 in
    let (e3, h7) = throw_if_passes (ltb_ℤ amount m) _ _ h6 in
    let (cids, ec, h8) =
      >>=-eq-returns (select_covering_prefix (slices_of pool base_in).1 amount) _ h7 in
    let made = returns-injective h8 in
    rw (← made) (
      record {
        same_pool = refl;
        same_state = refl;
        input_active = first_slice-active _ s es;
        some_output = prefix-not_nil amount _ cids some_out ec;
        outputs_active = covering_from-Active amount (pos 0) _ cids ec;
      },
      refl,
      (m, em),
    )
