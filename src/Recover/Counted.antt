-- ===== src/Recover/Counted.antt =====
-- What services/operator-backend/src/ledger/recover.ts hands back.
use canton_dex_reference_imp.Prelude.{
  ℕ, ◌≡◌, refl, Bool, true, false, not, ◌==◌, ==→eq, Option, List, length,
}
use canton_dex_reference_imp.Prelude.Outcome.{
  returns, >>=-eq-returns, throw_if_passes, returns-injective,
}
use canton_dex_reference_imp.Prelude.Text.{Str}
use canton_dex_reference_imp.Types.{Party, ContractId}
use canton_dex_reference_imp.Recover.{
  TreeReader, read_allocations, read_created, recover_created_allocations,
}

not-false : (b : Bool) → not b ≡ false → b ≡ true
not-false true h = refl
not-false false h = cc

-- A recovery that returns has as many allocation ids as were expected, from either way of reading
-- the tree.
pub recover_created_allocations-length :
    (ledger : TreeReader) (party : Party) (update_id : Str) (expected : ℕ)
    (r : List ContractId × Option ContractId)
    → recover_created_allocations ledger party update_id expected ≡ returns r
    → length r.0 ≡ expected
unfolding recover_created_allocations
recover_created_allocations-length ledger party update_id expected r h =
    let (found, ef, h1) = >>=-eq-returns (read_allocations ledger party update_id expected) _ h in
    let (count, h2) = throw_if_passes (not (length found.0 == expected)) _ _ h1 in
    let (created, ec, h3) = >>=-eq-returns (read_created ledger party update_id found.1) _ h2 in
    let made = returns-injective h3 in rw (← made) (==→eq _ _ (not-false _ count))
