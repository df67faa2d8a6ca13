-- ===== src/Pool/Listing.antt =====
-- What the pools of `listActive` of pool/index.ts are.
use mathlib.Core.List.{Memᴰ}
use canton_dex_reference_imp.Pool.Views
use canton_dex_reference_imp.Prelude.{
  ◌≡◌, refl, Bool, true, false, Option, none, some, List, [], ◌∷◌, All, if◌then◌else◌, Bool-cases,
  inl, inr,
}
use canton_dex_reference_imp.Prelude.Text.{Str, codes, ◌===◌, ===→eq}
use canton_dex_reference_imp.Prelude.Assoc.{
  lookup, insert, lookup-empty, lookup-insert, some-injective,
}
use canton_dex_reference_imp.Types.{Party, PoolConfigContract, PoolStateContract, SliceSide, Pool}
use canton_dex_reference_imp.Pool.Views.{
  Contracts, is_base, is_quote, to_slice, cid_or_empty, liquidity_rules_cid_for,
  normalize_pool_status, state_by_pool, combine, with_state, combine_all, list_active,
}
use canton_dex_reference_imp.Pool.Sides.{slices_of_side, base_slices_lem, quote_slices_lem}

-- What is in the map under a key is one of the states, and has this pool id.
abbrev KeyedBy : List PoolStateContract → List (Str × PoolStateContract) → Type 0
KeyedBy states m =
    (k : Str) (s : PoolStateContract) → lookup k m ≡ some s → (s.pool_id ≡ k) × Memᴰ s states

keyed-step :
    (states : List PoolStateContract) (c : Bool) (x s : PoolStateContract)
    (old : Option PoolStateContract) (k : Str)
    → (c ≡ true → (x.pool_id ≡ k) × Memᴰ x states)
    → (old ≡ some s → (s.pool_id ≡ k) × Memᴰ s states)
    → (if c then some x else old) ≡ some s
    → (s.pool_id ≡ k) × Memᴰ s states
keyed-step states true x s old k p q h = let e : x ≡ s = some-injective h in rw (← e) (p refl)
keyed-step states false x s old k p q h = q h

state_by_pool-KeyedBy :
    (all : List PoolStateContract) (m : List (Str × PoolStateContract))
    (states : List PoolStateContract)
    → ((s : PoolStateContract) → Memᴰ s states → Memᴰ s all)
    → KeyedBy all m
    → KeyedBy all (state_by_pool m states)
unfolding state_by_pool
state_by_pool-KeyedBy all m [] sub h = h
state_by_pool-KeyedBy all m (x ∷ states) sub h =
    state_by_pool-KeyedBy all (insert x.pool_id x m) states (λ s i. sub s (Memᴰ.tail i))
      (λ k s e.
        keyed-step all (x.pool_id === k) x s (lookup k m) k
          (λ c. (===→eq x.pool_id k c, sub x (Memᴰ.head refl))) (h k s)
          (rw (lookup-insert x.pool_id k x m) at e))

-- A status that is not normalized to `Paused` has neither spelling of it.
not_paused_lem :
    (status : Str)
    → (normalize_pool_status status === codes "Paused") ≡ false
    → (¬ (status ≡ codes "Paused")) × (¬ (status ≡ codes "PS_Paused"))
unfolding normalize_pool_status ◌===◌
not_paused_lem status h = (λ e. absurd (cc (rw e at h)), λ e. absurd (cc (rw e at h)))

module _ (operator_party : Party) (acs : Contracts) where
  -- A view of a config of the ledger and of a state of the ledger with its pool id that is not
  -- paused.
  pub record IsView (p : Pool) : Type 0 where
    pub cfg : PoolConfigContract
    pub config_there : Memᴰ cfg acs.configs
    pub state : PoolStateContract
    pub state_there : Memᴰ state acs.states
    pub same_pool : state.pool_id ≡ cfg.pool_id
    pub not_paused : ¬ (state.status ≡ codes "Paused")
    pub not_ps_paused : ¬ (state.status ≡ codes "PS_Paused")
    pub contract_id : p.contract_id ≡ cfg.contract_id
    pub pool_id : p.pool_id ≡ cfg.pool_id
    pub pool_state_cid : p.pool_state_cid ≡ state.contract_id
    pub operator : p.operator ≡ cfg.operator
    pub lp_registrar : p.lp_registrar ≡ cfg.lp_registrar
    pub base_instrument_id : p.base_instrument_id ≡ cfg.base_instrument_id
    pub quote_instrument_id : p.quote_instrument_id ≡ cfg.quote_instrument_id
    pub lp_instrument_id : p.lp_instrument_id ≡ cfg.lp_instrument_id
    pub fee_bps : p.fee_bps ≡ cfg.fee_bps
    pub reserves : p.reserves ≡ state.reserves
    pub status : p.status ≡ normalize_pool_status state.status
    pub rules_cid : p.rules_cid ≡ cid_or_empty (Views.rules_cid operator_party acs)
    pub pool_liquidity_rules_cid :
        p.pool_liquidity_rules_cid ≡ liquidity_rules_cid_for operator_party acs cfg.lp_registrar
    pub total_lp_supply : p.total_lp_supply ≡ state.total_lp_supply
    pub public_readers : p.public_readers ≡ state.public_readers
    pub base_slices : p.base_slices ≡ slices_of_side SliceSide.base_side cfg.pool_id acs.slices
    pub quote_slices : p.quote_slices ≡ slices_of_side SliceSide.quote_side cfg.pool_id acs.slices

  combine-IsView :
      (cfg : PoolConfigContract) (state : PoolStateContract)
      → Memᴰ cfg acs.configs
      → (state.pool_id ≡ cfg.pool_id) × Memᴰ state acs.states
      → (normalize_pool_status state.status === codes "Paused") ≡ false
      → IsView (combine operator_party acs cfg state)
  unfolding combine
  combine-IsView cfg state i k open_ =
      let (not_plain, not_prefixed) = not_paused_lem state.status open_ in
      record {
        cfg = cfg;
        config_there = i;
        state = state;
        state_there = k.1;
        same_pool = k.0;
        not_paused = not_plain;
        not_ps_paused = not_prefixed;
        contract_id = refl;
        pool_id = refl;
        pool_state_cid = refl;
        operator = refl;
        lp_registrar = refl;
        base_instrument_id = refl;
        quote_instrument_id = refl;
        lp_instrument_id = refl;
        fee_bps = refl;
        reserves = refl;
        status = refl;
        rules_cid = refl;
        pool_liquidity_rules_cid = refl;
        total_lp_supply = refl;
        public_readers = refl;
        base_slices = base_slices_lem cfg.pool_id acs.slices;
        quote_slices = quote_slices_lem cfg.pool_id acs.slices;
      }

  empty-KeyedBy : KeyedBy acs.states []
  empty-KeyedBy k s e = absurd (cc (e, lookup-empty {V = PoolStateContract} k))

  with_state-IsView :
      (cfg : PoolConfigContract) (found : Option PoolStateContract) (rest : List Pool)
      → Memᴰ cfg acs.configs
      → ((s : PoolStateContract) → found ≡ some s → (s.pool_id ≡ cfg.pool_id) × Memᴰ s acs.states)
      → All IsView rest
      → All IsView (with_state operator_party acs cfg found rest)
  with_state-IsView cfg none rest i k h = h
  with_state-IsView cfg (some s) rest i k h =
      elim (Bool-cases (normalize_pool_status s.status === codes "Paused")) [
        | inl paused ↦ rw paused h
        | inr open_ ↦ rw open_ (combine-IsView cfg s i (k s refl) open_, h)
      ]

  combine_all-IsView :
      (configs : List PoolConfigContract)
      → ((cfg : PoolConfigContract) → Memᴰ cfg configs → Memᴰ cfg acs.configs)
      → All IsView (combine_all operator_party acs configs)
  unfolding combine_all
  combine_all-IsView [] sub = tt
  combine_all-IsView (cfg ∷ configs) sub =
      with_state-IsView cfg _ _ (sub cfg (Memᴰ.head refl))
        (λ s e.
          state_by_pool-KeyedBy acs.states [] acs.states (λ x i. i) empty-KeyedBy cfg.pool_id s e)
        (combine_all-IsView configs (λ c i. sub c (Memᴰ.tail i)))

  -- Each pool that `listActive` returns is the view of a config of the ledger and of a state of the
  -- ledger with its pool id, which is paused in neither spelling of the status. The view's contract
  -- ids, parties, instruments, fee, reserves, supply and readers are those of the config and the
  -- state; its base slices are the slices of the ledger with its pool id on the base side, in their
  -- order, and its quote slices those on the quote side.
  pub list_active-IsView : All IsView (list_active operator_party acs)
  unfolding list_active
  list_active-IsView = combine_all-IsView acs.configs (λ c i. i)
