-- ===== src/Pool/Acceptance.antt =====
-- What `swap` of pool/index.ts accepts.
use canton_dex_reference_imp.Prelude.{
  ◌≡◌, refl, ap, Option, true, false, not, ◌||◌, ◌==◌, eq→==, ==→eq, ℕ, Bool-cases, inl, inr, none,
  some, List, map, any, length,
}
use canton_dex_reference_imp.Prelude.Int.{ℤ, eqb_ℤ, eqb_ℤ-refl, eqb_ℤ→eq}
use canton_dex_reference_imp.Prelude.Outcome.{
  returns, Thrown, or_throw, >>=-eq-returns, returns-injective, throw_if_passes,
}
use canton_dex_reference_imp.Prelude.Text.{◌===◌, ===-refl, ===→eq}
use canton_dex_reference_imp.Decimal.{parse_decimal}
use canton_dex_reference_imp.Types.{Party, ContractId, Pool, same_instrument}
use canton_dex_reference_imp.Recover.{TreeReader}
use canton_dex_reference_imp.Pool.Swap.{
  PoolSwapQuoteBinding, PoolRequestSwapInput, PoolSwapInput, SwapArgument, V2Account, cid_of,
  slices_of, quote_binding, swap_admins, given_cids, swapper_cids, exactly, zip, is_nil, has_cid,
  swap_argument, invalid,
}
use canton_dex_reference_imp.Pool.Binding.{
  IsBindingOn, none_missing, all_there, or-eq-false, not-false, quote_binding-IsBindingOn,
}

-- The call of `swap` that a wallet makes with a quote: its own allocations, one per admin.
abbrev pub swap_with :
    PoolRequestSwapInput → V2Account → PoolSwapQuoteBinding → List ContractId → PoolSwapInput
swap_with request account binding cids = record {
  pool_cid = request.pool_cid;
  swapper_account = account;
  input_instrument_id = request.input_instrument_id;
  input_amount = request.input_amount;
  min_output_amount = request.min_output_amount;
  quote_binding = some binding;
  swapper_allocation_cids = some cids;
  swapper_allocation_cid = none;
  update_id = none;
  swap_allocation_request_cids = none;
  idempotency_key = none;
}

-- The argument of a swap names the pool and its state as they are, what the call asked for, and the
-- slices of the call's binding.
pub record IsBoundTo (pool : Pool) (input : PoolSwapInput) (arg : SwapArgument) : Type 0 where
  pub binding : input.quote_binding ≡ some arg.quote_binding
  pub on :
      IsBindingOn pool
        (same_instrument input.input_instrument_id pool.base_instrument_id)
        arg.quote_binding
  pub pool_id : arg.expected_pool_id ≡ pool.pool_id
  pub pool_cid : arg.pool_cid ≡ input.pool_cid
  pub pool_state_cid : arg.pool_state_cid ≡ pool.pool_state_cid
  pub swapper_account : arg.swapper_account ≡ input.swapper_account
  pub input_instrument_id : arg.input_instrument_id ≡ input.input_instrument_id
  pub input_amount : arg.input_amount ≡ input.input_amount
  pub min_output_amount : arg.min_output_amount ≡ input.min_output_amount
  pub input_slice : arg.input_slice_cid ≡ arg.quote_binding.input_slice_cid
  pub output_slices : arg.output_slice_cids ≡ arg.quote_binding.output_slice_cids
  pub cids : List ContractId
  pub one_each :
      length cids
      ≡ length
          (swap_admins pool (same_instrument input.input_instrument_id pool.base_instrument_id))
  pub by_admin :
      arg.swapper_allocation_cids_by_admin
      ≡ zip
          (swap_admins pool (same_instrument input.input_instrument_id pool.base_instrument_id))
          cids
  pub minimum : ℤ
  pub quoted_minimum : parse_decimal arg.quote_binding.min_output_amount ≡ returns minimum
  pub asked_minimum : parse_decimal input.min_output_amount ≡ returns minimum

or_throw-eq-returns {ℓ} :
    {A : Type ℓ} (o : Option A) (e : Thrown) {a : A} → or_throw o e ≡ returns a → o ≡ some a
or_throw-eq-returns none e h = absurd (cc)
or_throw-eq-returns (some a) e h = ap some (returns-injective h)

exactly-length :
    (n : ℕ) (found : Option (List ContractId)) {cids : List ContractId}
    → exactly n found ≡ returns cids
    → length cids ≡ n
exactly-length n none h = absurd (cc)
exactly-length n (some given) h = elim (Bool-cases (length given == n)) [
  | inl same ↦
      let made = returns-injective (rw same at h) in rw (← made) (==→eq (length given) n same)
  | inr other ↦ absurd (cc (rw other at h))
]

module _ (ledger : TreeReader) (operator : Party) (pool : Pool) where
  accepts-binding :
      (request : PoolRequestSwapInput) (account : V2Account) (b : PoolSwapQuoteBinding)
      (cids : List ContractId) (m : ℤ)
      → IsBindingOn pool (same_instrument request.input_instrument_id pool.base_instrument_id) b
      → parse_decimal b.min_output_amount ≡ returns m
      → parse_decimal request.min_output_amount ≡ returns m
      → (length cids
          == length (
              swap_admins pool
                (same_instrument request.input_instrument_id pool.base_instrument_id)))
        ≡ true
      → (arg : SwapArgument) × (swap_argument ledger operator pool
            (swap_with request account b cids)
          ≡ returns arg)
        × (arg.swapper_allocation_cids_by_admin
            ≡ zip
                (swap_admins pool
                  (same_instrument request.input_instrument_id pool.base_instrument_id))
                cids)
        × (arg.quote_binding ≡ b)
  unfolding swap_argument
  accepts-binding request account b cids m on eb er len =
      let same = IsBindingOn.same_pool on in
      let state = IsBindingOn.same_state on in
      rw
        (
          same,
          ===-refl pool.pool_id,
          state,
          ===-refl pool.pool_state_cid,
          eb,
          er,
          eqb_ℤ-refl m,
          len,
          IsBindingOn.input_active on,
          IsBindingOn.some_output on,
          none_missing _ b.output_slice_cids (IsBindingOn.outputs_active on),
        )
        (_, refl, refl, refl)

  -- A quote of `requestSwap` on a pool with output slices is accepted by `swap` on the same snapshot
  -- of the pool, for a call with the quoted minimum and one allocation per admin: the argument pairs
  -- the admins with these allocations and carries the quoted binding.
  pub swap_argument-quote_binding :
      (request : PoolRequestSwapInput) (account : V2Account) (b : PoolSwapQuoteBinding)
      (cids : List ContractId)
      → quote_binding pool request ≡ returns b
      → is_nil
          (slices_of pool (same_instrument request.input_instrument_id pool.base_instrument_id)).1
        ≡ false
      → length cids
        ≡ length
            (swap_admins pool (same_instrument request.input_instrument_id pool.base_instrument_id))
      → (arg : SwapArgument) × (swap_argument ledger operator pool
            (swap_with request account b cids)
          ≡ returns arg)
        × (arg.swapper_allocation_cids_by_admin
            ≡ zip
                (swap_admins pool
                  (same_instrument request.input_instrument_id pool.base_instrument_id))
                cids)
        × (arg.quote_binding ≡ b)
  swap_argument-quote_binding request account b cids h out len =
      let (on, min, (m, em)) = quote_binding-IsBindingOn pool request b h out in
      accepts-binding request account b cids m on (rw min em) em (eq→== _ _ len)

  -- What `swap` submits is bound to the pool as it is and to the call. The argument names this pool's
  -- id and its current state; its input slice and its output slices are those of the caller's
  -- binding, active on the sides of the swap, with at least one output. The pool, the account, the
  -- instrument, the amount and the minimum are the caller's, the minimum reads as the same number as
  -- the quoted one, and there is one allocation for each admin of the swap.
  pub swap_argument-IsBindingOn :
      (input : PoolSwapInput) (arg : SwapArgument)
      → swap_argument ledger operator pool input ≡ returns arg
      → IsBoundTo pool input arg
  unfolding swap_argument
  swap_argument-IsBindingOn input arg h =
      let (b, eb, h1) =
        >>=-eq-returns (or_throw input.quote_binding (invalid "swap: quoteBinding is required")) _
          h in
      let (e1, h2) = throw_if_passes (not (b.expected_pool_id === pool.pool_id)) _ _ h1 in
      let (e2, h3) = throw_if_passes (not (b.pool_state_cid === pool.pool_state_cid)) _ _ h2 in
      let (qm, eq, h4) = >>=-eq-returns (parse_decimal b.min_output_amount) _ h3 in
      let (im, ei, h5) = >>=-eq-returns (parse_decimal input.min_output_amount) _ h4 in
      let (e3, h6) = throw_if_passes (not (eqb_ℤ qm im)) _ _ h5 in
      let base_in = same_instrument input.input_instrument_id pool.base_instrument_id in
      let n = length (swap_admins pool base_in) in
      let (found, ef, h7) =
        >>=-eq-returns
          (swapper_cids ledger operator n
            (given_cids input.swapper_allocation_cids input.swapper_allocation_cid) input.update_id)
          _ h6 in
      let (cids, ec, h8) = >>=-eq-returns (exactly n found) _ h7 in
      let (e4, h9) =
        throw_if_passes (not (has_cid (map cid_of (slices_of pool base_in).0) b.input_slice_cid)) _
          _ h8 in
      let missing =
        any (λ (cid : ContractId). not (has_cid (map cid_of (slices_of pool base_in).1) cid))
          b.output_slice_cids in
      let (e5, h10) = throw_if_passes (is_nil b.output_slice_cids || missing) _ _ h9 in
      let outs = or-eq-false (is_nil b.output_slice_cids) missing e5 in
      let same_min = eqb_ℤ→eq qm im (not-false _ e3) in
      let made = returns-injective h10 in
      rw (← made) (record {
        binding = or_throw-eq-returns _ _ eb;
        on = record {
          same_pool = ===→eq _ _ (not-false _ e1);
          same_state = ===→eq _ _ (not-false _ e2);
          input_active = not-false _ e4;
          some_output = outs.0;
          outputs_active = all_there _ _ outs.1;
        };
        pool_id = refl;
        pool_cid = refl;
        pool_state_cid = ===→eq _ _ (not-false _ e2);
        swapper_account = refl;
        input_instrument_id = refl;
        input_amount = refl;
        min_output_amount = refl;
        input_slice = refl;
        output_slices = refl;
        cids = cids;
        one_each = exactly-length n found ec;
        by_admin = refl;
        minimum = im;
        quoted_minimum = rw (← same_min) eq;
        asked_minimum = ei;
      })
