-- ===== src/Idempotency.antt =====
-- services/operator-backend/src/indexer/idempotency.ts: one row per command id that was submitted. The table is a map from the command id to its row; a row's times are
-- in milliseconds. The hash, and the JSON texts of results, come from the engine's libraries.
pub mod Exclusion
pub mod AtMostOnce
use canton_dex_reference_imp.Prelude.{
  Bool, true, false, not, ◌&&◌, Option, none, some, List, [], ◌∷◌, if◌then◌else◌,
}
use canton_dex_reference_imp.Prelude.Int.{ℤ, pos, ◌-ℤ◌, ltb_ℤ}
use canton_dex_reference_imp.Prelude.Outcome.{Outcome, returns, throws, Thrown, error, ◌>>=◌}
use canton_dex_reference_imp.Prelude.Text.{Str, ◌===◌}
use canton_dex_reference_imp.Prelude.Assoc.{lookup, insert, retain}
use canton_dex_reference_imp.Types.{Party}
use canton_dex_reference_imp.Ledger.{LedgerCommand, SubmitRequest}

abbrev pub pending_stale_ms : ℤ
pending_stale_ms = pos 60_000

abbrev pub ttl_ms : ℤ
ttl_ms = pos 86_400_000

pub data RowStatus : Type 0 where
  pending ok failed : RowStatus

pub record Row : Type 0 where
  pub submitted_at : ℤ
  pub status : RowStatus
  pub result_json : Option Str
  pub args_hash : Option Str
  pub completed_at : Option ℤ

abbrev pub Db : Type 0
Db = List (Str × Row)

-- What the engine's libraries supply: the SHA-256 digest of the JSON text of a command and its
-- parties, and the text of a thrown error.
pub record Library : Type 0 where
  pub digest : LedgerCommand → List Party → List Party → Str
  pub error_json : Thrown → Str

abbrev pub is_exercise : LedgerCommand → Bool
is_exercise (LedgerCommand.create t a) = false
is_exercise (LedgerCommand.exercise t c ch a) = true
is_exercise (LedgerCommand.exercise_interface t c ch a) = false
is_exercise (LedgerCommand.create_and_exercise t a ch b) = false

abbrev pub is_failed : RowStatus → Bool
is_failed RowStatus.pending = false
is_failed RowStatus.ok = false
is_failed RowStatus.failed = true

abbrev pub is_pending : RowStatus → Bool
is_pending RowStatus.pending = true
is_pending RowStatus.ok = false
is_pending RowStatus.failed = false

-- `existing.status === "ok" && existing.resultJson`: the result text, if there is one to replay.
abbrev pub cached_result : RowStatus → Option Str → Option Str
cached_result RowStatus.ok (some (c ∷ s)) = some (c ∷ s)
cached_result RowStatus.ok (some []) = none
cached_result RowStatus.ok none = none
cached_result RowStatus.pending json = none
cached_result RowStatus.failed json = none

-- `existing.argsHash !== null && existing.argsHash !== argsHash`
abbrev pub other_args : Option Str → Str → Bool
other_args none args_hash = false
other_args (some h) args_hash = not (h === args_hash)

abbrev pub or_empty : Option (List Party) → List Party
or_empty none = []
or_empty (some ps) = ps

-- What `once` finds before it executes: a result to replay, or leave to run.
pub data Decision : Type 0 where
  replay : Str → Decision
  run : Decision

-- The guards of `once` on a row that exists.
abbrev pub decide_cached : Option Str → Bool → Outcome Decision
decide_cached (some json) in_flight = returns (replay json)
decide_cached none in_flight =
    if in_flight then throws (error "idempotency: commandId already in flight") else returns run

abbrev pub decide : Bool → Bool → Bool → Option Str → Outcome Decision
decide changed exempt in_flight cached =
    if not exempt && changed
    then throws (error "idempotency: commandId replayed with different args")
    else decide_cached cached in_flight

-- The pending row that replaces whatever stood there.
abbrev pub pending_row : ℤ → Str → Row
pending_row now args_hash = record {
  submitted_at = now;
  status = RowStatus.pending;
  result_json = none;
  args_hash = some args_hash;
  completed_at = none;
}

-- `UPDATE … WHERE commandId = ?` leaves a table without the row as it is.
abbrev pub complete_found : Option Row → Str → RowStatus → Str → ℤ → Db → Db
complete_found none command_id status json at db = db
complete_found (some row) command_id status json at db =
    insert command_id
      (record {
        submitted_at = row.submitted_at;
        status = status;
        result_json = some json;
        args_hash = row.args_hash;
        completed_at = some at;
      })
      db

unfoldable pub complete : Str → RowStatus → Str → ℤ → Db → Db
complete command_id status json at db =
    complete_found (lookup command_id db) command_id status json at db

-- `sweep`: rows submitted before the cutoff are deleted.
unfoldable pub sweep : ℤ → Db → Db
sweep now db = retain (λ (row : Row). not (ltb_ℤ row.submitted_at (now -ℤ ttl_ms))) db

-- What happens to the table, one event at a time: a call of `once` reaches `exec` or ends before
-- it, an execution ends, a sweep runs.
pub data Event : Type 0 where
  start : ℤ → SubmitRequest → Event
  succeed : Str → Str → ℤ → Event
  fail : Str → Str → ℤ → Event
  swept : ℤ → Event

module _ (library : Library) where
  open library use {digest, error_json}

  unfoldable pub hash_submit_request : SubmitRequest → Str
  hash_submit_request req = digest req.command req.act_as (or_empty req.read_as)

  abbrev decide_row : ℤ → SubmitRequest → Option Row → Outcome Decision
  decide_row now req none = returns run
  decide_row now req (some row) =
      decide (other_args row.args_hash (hash_submit_request req))
        (is_failed row.status && is_exercise req.command)
        (is_pending row.status && ltb_ℤ (now -ℤ row.submitted_at) pending_stale_ms)
        (cached_result row.status row.result_json)

  -- Where `once` goes on to execute, the row is pending from here.
  abbrev claim : ℤ → SubmitRequest → Outcome Decision → Db → Db
  claim now req (returns run) db =
      insert req.command_id (pending_row now (hash_submit_request req)) db
  claim now req (returns (replay json)) db = db
  claim now req (throws e) db = db

  -- `once` up to the call of `exec`: nothing else runs in between.
  unfoldable pub begin : ℤ → SubmitRequest → Db → Outcome Decision × Db
  begin now req db =
      let decision = decide_row now req (lookup req.command_id db) in
      (decision, claim now req decision db)

  module _ {ℓ κ} {S : Type ℓ} {A : Type κ} (to_json : A → Str) (of_json : Str → Outcome A)
      (done_at : ℤ) where
    -- After `exec`, with the table as it is then.
    abbrev finish : Str → Outcome A → Db × S → Outcome A × (Db × S)
    finish command_id (returns a) (db, s) =
        (returns a, (complete command_id RowStatus.ok (to_json a) done_at db, s))
    finish command_id (throws e) (db, s) =
        (throws e, (complete command_id RowStatus.failed (error_json e) done_at db, s))

    abbrev go_on :
        Outcome Decision
        → SubmitRequest
        → (Db × S → Outcome A × (Db × S))
        → Db × S
        → Outcome A × (Db × S)
    go_on (throws e) req exec st = (throws e, st)
    go_on (returns (replay json)) req exec st = (of_json json, st)
    go_on (returns run) req exec st = finish req.command_id (exec st).0 (exec st).1

    -- `once`; other calls may change the table while `exec` is awaited, which is part of `exec`.
    unfoldable pub once :
        ℤ → SubmitRequest → (Db × S → Outcome A × (Db × S)) → Db × S → Outcome A × (Db × S)
    once now req exec st = go_on (begin now req st.0).0 req exec ((begin now req st.0).1, st.1)

  unfoldable pub apply : Event → Db → Db
  apply (start now req) db = (begin now req db).1
  apply (succeed command_id json at) db = complete command_id RowStatus.ok json at db
  apply (fail command_id json at) db = complete command_id RowStatus.failed json at db
  apply (swept now) db = sweep now db

  unfoldable pub apply_all : List Event → Db → Db
  apply_all [] db = db
  apply_all (e ∷ es) db = apply_all es (apply e db)
