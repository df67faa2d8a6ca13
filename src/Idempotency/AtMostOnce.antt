-- ===== src/Idempotency/AtMostOnce.antt =====
-- What a call of `once` leaves in the table, and what a later call with its command id does.
use canton_dex_reference_imp.Prelude.{◌≡◌, true, none, some, List, ◌∷◌, All, Bool-cases, inl, inr}
use canton_dex_reference_imp.Prelude.Int.{ℤ}
use canton_dex_reference_imp.Prelude.Outcome.{Outcome, returns}
use canton_dex_reference_imp.Prelude.Text.{Str, ◌===◌, ===-refl}
use canton_dex_reference_imp.Prelude.Assoc.{lookup, insert, lookup-insert_self}
use canton_dex_reference_imp.Ledger.{SubmitRequest}
use canton_dex_reference_imp.Idempotency.{
  Library, Db, Row, RowStatus, Decision, Event, pending_row, hash_submit_request, decide_row, claim,
  complete, begin, once, apply_all,
}
use canton_dex_reference_imp.Idempotency.Exclusion.{leaves, begin-found, apply_all-leaves}

-- The row of a command that succeeded with the text `c ∷ json`.
abbrev pub ok_row : ℤ → ℤ → Str → Str → Row
ok_row submitted_at completed_at args_hash json = record {
  submitted_at = submitted_at;
  status = RowStatus.ok;
  result_json = some json;
  args_hash = some args_hash;
  completed_at = some completed_at;
}

module _ (library : Library) where
  replayed :
      (t at now : ℤ) (json : Str) (c : _) (req : SubmitRequest)
      → decide_row library now req (some (ok_row t at (hash_submit_request library req) (c ∷ json)))
        ≡ returns (Decision.replay (c ∷ json))
  replayed t at now json c req = rw (===-refl (hash_submit_request library req))

  ok-stops :
      (t at : ℤ) (args_hash json : Str) (c : _) (now : ℤ) (req : SubmitRequest) (db : Db)
      → claim library now req
          (decide_row library now req (some (ok_row t at args_hash (c ∷ json))))
          db
        ≡ db
  ok-stops t at args_hash json c now req db =
      elim (Bool-cases (args_hash === hash_submit_request library req)) [
        | inl same ↦ rw same
        | inr other ↦ rw other
      ]

  complete-pending :
      (k : Str) (t at : ℤ) (args_hash json : Str) (db : Db)
      → lookup k db ≡ some (pending_row t args_hash)
      → lookup k (complete k RowStatus.ok json at db) ≡ some (ok_row t at args_hash json)
  unfolding complete
  complete-pending k t at args_hash json db h =
      rw (h, lookup-insert_self k (ok_row t at args_hash json) db)

  module _ {ℓ κ} {S : Type ℓ} {A : Type κ} (to_json : A → Str) (of_json : Str → Outcome A)
      (done_at : ℤ) where
    -- A command id that is new is executed: `exec` gets the table with the pending row.
    pub once-fresh :
        (now : ℤ) (req : SubmitRequest) (exec : Db × S → Outcome A × (Db × S)) (db db' : Db)
        (s s' : S) (a : A)
        → lookup req.command_id db ≡ none
        → exec (insert req.command_id (pending_row now (hash_submit_request library req)) db, s)
          ≡ (returns a, (db', s'))
        → once library to_json of_json done_at now req exec (db, s)
          ≡ (returns a, (complete req.command_id RowStatus.ok (to_json a) done_at db', s'))
    unfolding once begin
    once-fresh now req exec db db' s s' a h e = rw (h, e)

    once-ok_row :
        (t at later : ℤ) (req : SubmitRequest) (exec : Db × S → Outcome A × (Db × S)) (db : Db)
        (s : S) (c : _) (json : Str)
        → lookup req.command_id db ≡ some (ok_row t at (hash_submit_request library req) (c ∷ json))
        → once library to_json of_json done_at later req exec (db, s)
          ≡ (of_json (c ∷ json), (db, s))
    unfolding once
    once-ok_row t at later req exec db s c json h =
        rw (begin-found library later req db _ _ h (replayed t at later json c req))

    -- A first call of a new command id that returns `a`, then any sequence of events that neither
    -- ends another execution of this id nor sweeps its row, then a second call with the same
    -- request: the second call does not execute, leaves table and state as they are, and returns
    -- what the text of `a` reads as. Calls with this id may be among the events.
    pub once-replays :
        (now later : ℤ) (req : SubmitRequest) (exec exec' : Db × S → Outcome A × (Db × S))
        (db db' : Db) (s s' s'' : S) (a : A) (c : _) (json : Str) (es : List Event)
        → lookup req.command_id db ≡ none
        → exec (insert req.command_id (pending_row now (hash_submit_request library req)) db, s)
          ≡ (returns a, (db', s'))
        → lookup req.command_id db' ≡ some (pending_row now (hash_submit_request library req))
        → to_json a ≡ c ∷ json
        → All (λ (e : Event). leaves (λ t. true) req.command_id now e ≡ true) es
        → let db₂ =
            apply_all library es (once library to_json of_json done_at now req exec (db, s)).1.0 in
          once library to_json of_json done_at later req exec' (db₂, s'')
          ≡ (of_json (c ∷ json), (db₂, s''))
    once-replays now later req exec exec' db db' s s' s'' a c json es fresh e kept j l =
        let first = once-fresh now req exec db db' s s' a fresh e in
        let stored =
          complete-pending req.command_id now done_at (hash_submit_request library req) (to_json a)
            db' kept in
        let row = ok_row now done_at (hash_submit_request library req) (c ∷ json) in
        rw (first, j)
          (once-ok_row now done_at later req exec' _ s'' c json (
            apply_all-leaves library req.command_id row (λ t. true)
              (λ t r d b. ok-stops now done_at (hash_submit_request library req) json c t r d) es _
              (rw j at stored) l))
