-- ===== src/Ledger.antt =====
-- services/operator-backend/src/ledger/index.ts, disclosure.ts, submit-with-retry.ts: commands, the
-- disclosures that go with them, and the retry of a submission. An argument that the source types
-- as `unknown` is its JSON text.
pub mod Retry
pub mod ByContract
pub mod Disclosures
use canton_dex_reference_imp.Prelude.{
  ℕ, zero, suc, ◌*◌, min, Bool, true, false, not, ◌||◌, Option, none, some, List, [], ◌∷◌, ◌++◌,
  map, if◌then◌else◌,
}
use canton_dex_reference_imp.Prelude.Outcome.{
  Outcome, returns, throws, Thrown, error, ledger_error, auth_error, validation_error,
  session_error, undefined, LedgerErrorKind, ◌>>=◌,
}
use canton_dex_reference_imp.Prelude.Text.{Str, ◌===◌}
use canton_dex_reference_imp.Prelude.Assoc.{lookup, insert}
use canton_dex_reference_imp.Types.{Party, ContractId}

abbrev pub Json : Type 0
Json = Str

pub data LedgerCommand : Type 0 where
  create : Str → Json → LedgerCommand
  exercise : Str → ContractId → Str → Json → LedgerCommand
  exercise_interface : Str → ContractId → Str → Json → LedgerCommand
  create_and_exercise : Str → Json → Str → Json → LedgerCommand

pub record DisclosedContract : Type 0 where
  pub contract_id : ContractId
  pub template_id : Str
  pub contract_key_hash : Option Str
  pub created_event_blob : Str
  pub synchronizer_id : Option Str

pub record SubmitRequest : Type 0 where
  pub act_as : List Party
  pub read_as : Option (List Party)
  pub command_id : Str
  pub command : LedgerCommand
  pub disclosure : Option (List DisclosedContract)

-- `e instanceof LedgerError && e.kind === "contention"`
abbrev pub is_contention : Thrown → Bool
is_contention (ledger_error LedgerErrorKind.contention detail retryable) = true
is_contention (ledger_error LedgerErrorKind.authorization detail retryable) = false
is_contention (ledger_error LedgerErrorKind.validation detail retryable) = false
is_contention (ledger_error LedgerErrorKind.transport detail retryable) = false
is_contention (ledger_error LedgerErrorKind.unsupported detail retryable) = false
is_contention (error message) = false
is_contention (auth_error message) = false
is_contention (validation_error message) = false
is_contention (session_error message) = false
is_contention undefined = false

-- A call with effects on a state: what it ends with, the state after it, and how long it slept.
module _ {ℓ κ} {S : Type ℓ} {A : Type κ} (attempt : S → Outcome A × S) where
  -- What a round does with the attempt's outcome; `again` is the rest of the loop.
  abbrev pub after_attempt :
      Outcome A → S → ℕ → (Thrown → Outcome A × S × List ℕ) → Outcome A × S × List ℕ
  after_attempt (returns a) t delay again = (returns a, t, [])
  after_attempt (throws e) t delay again =
      if is_contention e then ((again e).0, (again e).1, delay ∷ (again e).2) else (throws e, t, [])

  -- The rounds of `retryOnContention`: what is left of `max`, and the last error.
  unfoldable pub retry_from : ℕ → ℕ → ℕ → Thrown → S → Outcome A × S × List ℕ
  retry_from zero delay max_delay last_err s = (throws last_err, s, [])
  retry_from (suc rounds) delay max_delay last_err s =
      after_attempt (attempt s).0 (attempt s).1 delay
        (λ e. retry_from rounds (min max_delay (delay * 2)) max_delay e (attempt s).1)

  -- With no round at all, `lastErr` is undefined.
  unfoldable pub retry_on_contention : ℕ → ℕ → ℕ → S → Outcome A × S × List ℕ
  retry_on_contention max_attempts initial_delay max_delay s =
      retry_from max_attempts initial_delay max_delay undefined s

-- A disclosure of one group: new, an exact repeat, or a conflict.
abbrev merge_found :
    Option DisclosedContract
    → DisclosedContract
    → List (Str × DisclosedContract)
    → Outcome (List (Str × DisclosedContract))
merge_found none d m = returns (insert d.contract_id d m)
merge_found (some existing) d m =
    if not (existing.template_id === d.template_id)
      || not (existing.created_event_blob === d.created_event_blob)
    then throws (error "conflicting disclosures for contract")
    else returns m

unfoldable pub merge_one :
    DisclosedContract → List (Str × DisclosedContract) → Outcome (List (Str × DisclosedContract))
merge_one d by_contract_id = merge_found (lookup d.contract_id by_contract_id) d by_contract_id

unfoldable pub merge_all :
    List DisclosedContract
    → List (Str × DisclosedContract)
    → Outcome (List (Str × DisclosedContract))
merge_all [] m = returns m
merge_all (d ∷ ds) m = do next ← merge_one d m; merge_all ds next

abbrev pub concat {ℓ} : {A : Type ℓ} → List (List A) → List A
concat [] = []
concat (xs ∷ xss) = xs ++ concat xss

abbrev pub values {ℓ} : {A : Type ℓ} → List (Str × A) → List A
values [] = []
values ((k, v) ∷ m) = v ∷ values m

-- The two nested loops visit the disclosures of the groups in order.
unfoldable pub merge_disclosures : List (List DisclosedContract) → Outcome (List DisclosedContract)
merge_disclosures groups = do m ← merge_all (concat groups) []; returns (values m)
