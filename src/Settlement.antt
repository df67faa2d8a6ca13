-- ===== src/Settlement.antt =====
-- services/operator-backend/src/settlement/index.ts and ledger/choice-context.ts: transfer legs by
-- admin, and the settlement factories of a preview. The registry's answer is an argument.
pub mod Grouped
use canton_dex_reference_imp.Prelude.{ℕ, Bool, Option, none, some, List, [], ◌∷◌, ◌++◌, map}
use canton_dex_reference_imp.Prelude.Outcome.{Outcome}
use canton_dex_reference_imp.Prelude.Flow.{Flow, answer, lift, ◌>>=◌}
use canton_dex_reference_imp.Prelude.Text.{Str, codes, ◌===◌}
use canton_dex_reference_imp.Prelude.Assoc.{lookup, insert}
use canton_dex_reference_imp.Json.{JsonValue, JsonFields, object, no_fields, field}
use canton_dex_reference_imp.Types.{Party, ContractId}
use canton_dex_reference_imp.Ledger.{DisclosedContract, merge_disclosures}

-- `ChoiceContext` of ledger/choice-context.ts, and the registry's answer that it is made of.
pub record ChoiceContextRef : Type 0 where
  pub choice_context : JsonValue
  pub disclosed : List DisclosedContract

pub record ChoiceContext : Type 0 where
  pub extra_args : JsonFields
  pub disclosure : List DisclosedContract

abbrev no_values : JsonValue
no_values = object (field (codes "values") (object no_fields) no_fields)

unfoldable pub as_choice_context : ChoiceContextRef → ChoiceContext
as_choice_context ctx = record {
  extra_args =
      field (codes "context") ctx.choice_context (field (codes "meta") no_values no_fields);
  disclosure = ctx.disclosed;
}

unfoldable pub empty_extra_args : JsonFields
empty_extra_args = field (codes "context") no_values (field (codes "meta") no_values no_fields)

pub record RegistryBatchInput : Type 0 where
  pub factory_cid : ContractId
  pub extra_args : JsonFields

pub record SettlementFactory : Type 0 where
  pub factory_cid : ContractId
  pub context : ChoiceContextRef

-- One entry of `perAdmin`.
pub record AdminBatch : Type 0 where
  pub admin : Party
  pub input : RegistryBatchInput
  pub disclosure : List DisclosedContract

abbrev batch_of : Party → SettlementFactory → AdminBatch
batch_of admin factory = record {
  admin = admin;
  input = record {
    factory_cid = factory.factory_cid;
    extra_args = (as_choice_context factory.context).extra_args;
  };
  disclosure = (as_choice_context factory.context).disclosure;
}

-- The legs of an admin with one more at the end; a `Map` keeps the admins in the order of their
-- first legs.
abbrev pub with_leg : {L : Type 0} → Option (List L) → L → List L
with_leg none leg = leg ∷ []
with_leg (some existing) leg = existing ++ (leg ∷ [])

unfoldable pub group_from :
    {L : Type 0} → (L → Party) → List L → List (Party × List L) → List (Party × List L)
group_from admin_of_leg [] out = out
group_from admin_of_leg (leg ∷ legs) out =
    group_from admin_of_leg legs
      (insert (admin_of_leg leg) (with_leg (lookup (admin_of_leg leg) out) leg) out)

unfoldable pub group_legs_by_admin : {L : Type 0} → List L → (L → Party) → List (Party × List L)
group_legs_by_admin legs admin_of_leg = group_from admin_of_leg legs []

module _ {S : Type 0} (settlement_factory : Party → JsonValue → Flow S SettlementFactory) where
  unfoldable pub discover_each : List (Party × JsonValue) → Flow S (List AdminBatch)
  discover_each [] = answer []
  discover_each (entry ∷ entries) = do
    factory ← settlement_factory entry.0 entry.1
    rest ← discover_each entries
    answer (batch_of entry.0 factory ∷ rest)

  -- The batches keyed by admin, and the disclosures of all of them.
  unfoldable pub discover_batches_by_admin :
      List (Party × JsonValue) → Flow S (List (Party × RegistryBatchInput) × List DisclosedContract)
  discover_batches_by_admin preview = do
    per_admin ← discover_each preview
    disclosure ← lift (merge_disclosures (map (λ (e : AdminBatch). e.disclosure) per_admin))
    answer (map (λ (e : AdminBatch). (e.admin, e.input)) per_admin, disclosure)
