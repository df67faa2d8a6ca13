-- ===== src/Recover.antt =====
-- services/operator-backend/src/ledger/recover.ts: contract ids recovered from the transaction tree
-- of an update. The ledger's two optional reads are parameters.
pub mod Counted
pub mod Only
use canton_dex_reference_imp.Prelude.{
  ℕ, ◌-◌, Bool, not, ◌&&◌, ◌==◌, leb, Option, none, some, List, [], ◌∷◌, map, filterb, find, length,
  drop,
}
use canton_dex_reference_imp.Prelude.Outcome.{
  Outcome, returns, throws, error, ◌>>=◌, ◌>>◌, throw_if, or_throw,
}
use canton_dex_reference_imp.Prelude.Text.{Str, codes, ◌===◌}
use canton_dex_reference_imp.Types.{Party, ContractId}

pub record CreatedEventRef : Type 0 where
  pub contract_id : ContractId
  pub template_id : Str

-- The optional methods of a `LedgerSubmitter` that read trees.
pub record TreeReader : Type 0 where
  pub tree_created_events : Option (Str → Party → Outcome (List CreatedEventRef))
  pub tree_allocation_cids : Option (Str → Party → ℕ → Outcome (List ContractId))

abbrev pub allocation_suffix : Str
allocation_suffix = codes "CantonDex.Registry.V2:Allocation"

abbrev pub acceptance_suffix : Str
acceptance_suffix = codes "CantonDex.Dex.LiquidityAllocationRequest:LiquidityAllocationAcceptance"

abbrev pub order_funding_request_suffix : Str
order_funding_request_suffix = codes "CantonDex.Dex.OrderFundingRequest:OrderFundingRequest"

-- `s.endsWith(suffix)`
unfoldable pub ends_with : Str → Str → Bool
ends_with s suffix = leb (length suffix) (length s) && drop (length s - length suffix) s === suffix

unfoldable pub has_template : Str → CreatedEventRef → Bool
has_template suffix e = ends_with e.template_id suffix

-- The events of a template, as contract ids.
unfoldable pub cids_of : Str → List CreatedEventRef → List ContractId
cids_of suffix created =
    map (λ (e : CreatedEventRef). e.contract_id) (filterb (has_template suffix) created)

abbrev no_trees : {A : Type 0} → Outcome A
no_trees = throws (error "ledger does not support transaction-tree recovery (treeCreatedEvents)")

-- The allocation ids, with the created events where they were read for them.
abbrev pub read_allocations :
    TreeReader → Party → Str → ℕ → Outcome (List ContractId × Option (List CreatedEventRef))
read_allocations ledger party update_id expected =
    read ledger.tree_allocation_cids ledger.tree_created_events
  where
    read :
        Option (Str → Party → ℕ → Outcome (List ContractId))
        → Option (Str → Party → Outcome (List CreatedEventRef))
        → Outcome (List ContractId × Option (List CreatedEventRef))
    read (some cids_at) events_at = do cids ← cids_at update_id party expected; returns (cids, none)
    read none none = no_trees
    read none (some events_at) = do
      created ← events_at update_id party
      returns (cids_of allocation_suffix created, some created)

-- The events already read, or read now if the ledger can.
abbrev pub read_created :
    TreeReader
    → Party
    → Str
    → Option (List CreatedEventRef)
    → Outcome (Option (List CreatedEventRef))
read_created ledger party update_id (some created) = returns (some created)
read_created ledger party update_id none = read ledger.tree_created_events
  where
    read :
        Option (Str → Party → Outcome (List CreatedEventRef))
        → Outcome (Option (List CreatedEventRef))
    read none = returns none
    read (some events_at) = do created ← events_at update_id party; returns (some created)

abbrev acceptance_of : Option (List CreatedEventRef) → Option ContractId
acceptance_of none = none
acceptance_of (some created) = cid (find (has_template acceptance_suffix) created)
  where
    cid : Option CreatedEventRef → Option ContractId
    cid none = none
    cid (some e) = some e.contract_id

unfoldable pub recover_created_allocations :
    TreeReader → Party → Str → ℕ → Outcome (List ContractId × Option ContractId)
recover_created_allocations ledger party update_id expected = do
  found ← read_allocations ledger party update_id expected
  throw_if (not (length found.0 == expected))
      (error "recoverCreatedAllocations: wrong number of Allocation creates")
  created ← read_created ledger party update_id found.1
  returns (found.0, acceptance_of created)

abbrev pub single : List ContractId → Outcome ContractId
single [] = throws (error "recoverCreatedFundingRequest: expected 1 OrderFundingRequest create")
single (cid ∷ []) = returns cid
single (cid ∷ next ∷ cids) =
    throws (error "recoverCreatedFundingRequest: expected 1 OrderFundingRequest create")

unfoldable pub recover_created_funding_request : TreeReader → Party → Str → Outcome ContractId
recover_created_funding_request ledger party update_id = do
  events_at ←
      or_throw ledger.tree_created_events
        (error "ledger does not support transaction-tree recovery (treeCreatedEvents)")
  created ← events_at update_id party
  single (cids_of order_funding_request_suffix created)
