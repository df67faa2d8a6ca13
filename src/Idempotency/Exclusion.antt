-- ===== src/Idempotency/Exclusion.antt =====
-- What the row of a command id keeps in services/operator-backend/src/indexer/idempotency.ts while
-- other rows change.
use canton_dex_reference_imp.Prelude.{
  ◌≡◌, refl, arith, Bool, true, false, not, ◌||◌, some, List, [], ◌∷◌, All, Bool-cases,
  Option-cases, inl, inr,
}
use canton_dex_reference_imp.Prelude.Int.{ℤ, ◌-ℤ◌, ltb_ℤ}
use canton_dex_reference_imp.Prelude.Outcome.{Outcome, returns, throws, Thrown}
use canton_dex_reference_imp.Prelude.Text.{Str, ◌===◌, ===→eq}
use canton_dex_reference_imp.Prelude.Assoc.{lookup, lookup-insert, lookup-retain}
use canton_dex_reference_imp.Ledger.{SubmitRequest}
use canton_dex_reference_imp.Idempotency.{
  Library, Db, Row, RowStatus, Decision, Event, pending_row, pending_stale_ms, ttl_ms,
  hash_submit_request, decide_row, claim, complete, sweep, begin, once, apply, apply_all,
}

-- An event that leaves a row of `k`, submitted at `t`, alone: `blocked` says which calls with this
-- command id the row itself stops.
abbrev pub leaves : (ℤ → Bool) → Str → ℤ → Event → Bool
leaves blocked k t (Event.start now req) = not (req.command_id === k) || blocked now
leaves blocked k t (Event.succeed c json at) = not (c === k)
leaves blocked k t (Event.fail c json at) = not (c === k)
leaves blocked k t (Event.swept now) = not (ltb_ℤ t (now -ℤ ttl_ms))

not-or : (a b : Bool) → (not a || b) ≡ true → a ≡ true → b ≡ true
not-or a b h e = ground arith

not-not : (a : Bool) → not a ≡ true → a ≡ false
not-not a h = ground arith

module _ (library : Library) where
  -- A row that this call finds and that keeps it from executing is what the table has afterwards.
  pub begin-found :
      (now : ℤ) (req : SubmitRequest) (db : Db) (row : Row) (d : Outcome Decision)
      → lookup req.command_id db ≡ some row
      → decide_row library now req (some row) ≡ d
      → begin library now req db ≡ (d, claim library now req d db)
  unfolding begin
  begin-found now req db row d e h = rw (e, h)

  claim-other :
      (now : ℤ) (req : SubmitRequest) (d : Outcome Decision) (db : Db) (k : Str)
      → (req.command_id === k) ≡ false
      → lookup k (claim library now req d db) ≡ lookup k db
  claim-other now req (returns Decision.run) db k h =
      rw (lookup-insert req.command_id k (pending_row now (hash_submit_request library req)) db, h)
  claim-other now req (returns (Decision.replay json)) db k h = refl
  claim-other now req (throws e) db k h = refl

  begin-other :
      (now : ℤ) (req : SubmitRequest) (db : Db) (k : Str) (row : Row)
      → (req.command_id === k) ≡ false
      → lookup k db ≡ some row
      → lookup k (begin library now req db).1 ≡ some row
  unfolding begin
  begin-other now req db k row other h =
      rw (claim-other now req (decide_row library now req (lookup req.command_id db)) db k other) h

  begin-same :
      (now : ℤ) (req : SubmitRequest) (db : Db) (k : Str) (row : Row)
      → lookup req.command_id db ≡ some row
      → claim library now req (decide_row library now req (some row)) db ≡ db
      → lookup k db ≡ some row
      → lookup k (begin library now req db).1 ≡ some row
  begin-same now req db k row own stop h = rw (begin-found now req db row _ own refl, stop) h

  complete-other :
      (c : Str) (status : RowStatus) (json : Str) (at : ℤ) (db : Db) (k : Str)
      → (c === k) ≡ false
      → lookup k (complete c status json at db) ≡ lookup k db
  unfolding complete
  complete-other c status json at db k h = elim (Option-cases (lookup c db)) [
    | inl e ↦ rw e
    | inr (row, e) ↦ rw (e, lookup-insert c k _ db, h)
  ]

  sweep-keeps :
      (now : ℤ) (db : Db) (k : Str) (row : Row)
      → lookup k db ≡ some row
      → not (ltb_ℤ row.submitted_at (now -ℤ ttl_ms)) ≡ true
      → lookup k (sweep now db) ≡ some row
  unfolding sweep
  sweep-keeps now db k row h e =
      lookup-retain (λ (r : Row). not (ltb_ℤ r.submitted_at (now -ℤ ttl_ms))) k row db h e

  module _ (k : Str) (row : Row) (blocked : ℤ → Bool)
      (stops : (now : ℤ) (req : SubmitRequest) (db : Db)
        → blocked now ≡ true
        → claim library now req (decide_row library now req (some row)) db ≡ db) where
    apply-leaves :
        (e : Event) (db : Db)
        → lookup k db ≡ some row
        → leaves blocked k row.submitted_at e ≡ true
        → lookup k (apply library e db) ≡ some row
    unfolding apply
    apply-leaves (Event.start now req) db h l = elim (Bool-cases (req.command_id === k)) [
      | inl same ↦
          let own : lookup req.command_id db ≡ some row = rw (===→eq req.command_id k same) h in
          begin-same now req db k row own (stops now req db (not-or _ _ l same)) h
      | inr other ↦ begin-other now req db k row other h
    ]
    apply-leaves (Event.succeed c json at) db h l =
        rw (complete-other c RowStatus.ok json at db k (not-not _ l)) h
    apply-leaves (Event.fail c json at) db h l =
        rw (complete-other c RowStatus.failed json at db k (not-not _ l)) h
    apply-leaves (Event.swept now) db h l = sweep-keeps now db k row h l

    pub apply_all-leaves :
        (es : List Event) (db : Db)
        → lookup k db ≡ some row
        → All (λ (e : Event). leaves blocked k row.submitted_at e ≡ true) es
        → lookup k (apply_all library es db) ≡ some row
    unfolding apply_all
    apply_all-leaves [] db h l = h
    apply_all-leaves (e ∷ es) db h l =
        apply_all-leaves es (apply library e db) (apply-leaves e db h l.0) l.1

  -- The row of a command that is being executed stops every other call within the stale time.
  pending-stops :
      (t : ℤ) (args_hash : Str) (now : ℤ) (req : SubmitRequest) (db : Db)
      → ltb_ℤ (now -ℤ t) pending_stale_ms ≡ true
      → (e : Thrown) × (decide_row library now req (some (pending_row t args_hash)) ≡ throws e)
  pending-stops t args_hash now req db h =
      elim (Bool-cases (args_hash === hash_submit_request library req)) [
        | inl same ↦ rw same (rw h (_, refl))
        | inr other ↦ rw other (_, refl)
      ]

  -- While a command is executed, and for less than a minute after its call began, no other call with
  -- its command id executes, whatever other calls, ends of other executions and sweeps come in
  -- between: it throws, and leaves the table as it is.
  pub once-in_flight {ℓ κ} :
      {S : Type ℓ} {A : Type κ} (to_json : A → Str) (of_json : Str → Outcome A) (done_at : ℤ)
      (t now : ℤ) (args_hash : Str) (req : SubmitRequest) (es : List Event) (db : Db) (s : S)
      (exec : Db × S → Outcome A × (Db × S))
      → lookup req.command_id db ≡ some (pending_row t args_hash)
      → All
          (λ (e : Event).
            leaves (λ now'. ltb_ℤ (now' -ℤ t) pending_stale_ms) req.command_id t e ≡ true)
          es
      → ltb_ℤ (now -ℤ t) pending_stale_ms ≡ true
      → (e : Thrown) × (once library to_json of_json done_at now req exec
            (apply_all library es db, s)
          ≡ (throws e, (apply_all library es db, s)))
  unfolding once
  once-in_flight to_json of_json done_at t now args_hash req es db s exec h l w =
      let row = pending_row t args_hash in
      let there =
        apply_all-leaves req.command_id row _
          (λ now' req' db' b. let (e, d) = pending-stops t args_hash now' req' db' b in rw d) es db
          h l in
      let (e, d) = pending-stops t args_hash now req db w in
      (e, rw (begin-found now req (apply_all library es db) row (throws e) there d))
