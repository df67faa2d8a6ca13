-- ===== src/Examples/Recovery.antt =====
-- The theorems on recovery at concrete inputs.
use canton_dex_reference_imp.Prelude.{◌≡◌, ◌↔◌, refl, none, some, List, [], ◌∷◌, length}
use canton_dex_reference_imp.Prelude.Outcome.{Outcome, returns}
use canton_dex_reference_imp.Prelude.Text.{Str, codes, ◌===◌}
use canton_dex_reference_imp.Types.{Party, ContractId}
use canton_dex_reference_imp.Recover.{
  CreatedEventRef, TreeReader, ends_with, has_template, cids_of, recover_created_allocations,
  recover_created_funding_request,
}
use canton_dex_reference_imp.Recover.Counted.{recover_created_allocations-length}
use canton_dex_reference_imp.Recover.Only.{IsOnly, recover_created_funding_request-IsOnly}

abbrev event : ContractId → Str → CreatedEventRef
event cid template_id = record { contract_id = cid; template_id = template_id }

-- An update that created an allocation and a funding request.
abbrev created : List CreatedEventRef
created =
    event (codes "a1") (codes "pkg:CantonDex.Registry.V2:Allocation")
    ∷ event (codes "f1") (codes "pkg:CantonDex.Dex.OrderFundingRequest:OrderFundingRequest")
    ∷ []

abbrev events_at : Str → Party → Outcome (List CreatedEventRef)
events_at update_id party = returns created

abbrev ledger : TreeReader
ledger = record { tree_created_events = some events_at; tree_allocation_cids = none }

allocations :
    recover_created_allocations ledger (codes "operator") (codes "u1") 1
    ≡ returns (codes "a1" ∷ [], none)
unfolding recover_created_allocations cids_of has_template ends_with ◌===◌
allocations = refl

recover_created_allocations-length_example : length (codes "a1" ∷ []) ≡ 1
recover_created_allocations-length_example =
    recover_created_allocations-length ledger (codes "operator") (codes "u1") 1
      (codes "a1" ∷ [], none) allocations

funding_request :
    recover_created_funding_request ledger (codes "operator") (codes "u1") ≡ returns (codes "f1")
unfolding recover_created_funding_request cids_of has_template ends_with ◌===◌
funding_request = refl

recover_created_funding_request-IsOnly_example :
    (recover_created_funding_request ledger (codes "operator") (codes "u1") ≡ returns (codes "f1"))
    ↔ IsOnly (codes "CantonDex.Dex.OrderFundingRequest:OrderFundingRequest") created (codes "f1")
recover_created_funding_request-IsOnly_example =
    recover_created_funding_request-IsOnly ledger (codes "operator") (codes "u1") events_at created
      (codes "f1") refl refl
