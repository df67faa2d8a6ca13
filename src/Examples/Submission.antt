-- ===== src/Examples/Submission.antt =====
-- The theorems on submissions at concrete inputs.
use mathlib.Core.List.{Memᴰ}
use canton_dex_reference_imp.Prelude.{
  ℕ, zero, suc, ◌≡◌, refl, arith, true, none, some, List, [], ◌∷◌, All,
}
use canton_dex_reference_imp.Prelude.Int.{pos}
use canton_dex_reference_imp.Prelude.Outcome.{
  Outcome, returns, throws, Thrown, error, ledger_error, LedgerErrorKind,
}
use canton_dex_reference_imp.Prelude.Text.{Str, codes, ◌===◌}
use canton_dex_reference_imp.Prelude.Assoc.{lookup, insert}
use canton_dex_reference_imp.Ledger.{
  LedgerCommand, SubmitRequest, DisclosedContract, retry_on_contention, merge_disclosures,
  merge_one, merge_all,
}
use canton_dex_reference_imp.Ledger.Retry.{retry_on_contention-ends, retry_on_contention-exhausted}
use canton_dex_reference_imp.Ledger.Disclosures.{Kept, merge_disclosures-Kept}
use canton_dex_reference_imp.Idempotency.{
  Library, Db, Event, pending_row, hash_submit_request, once, apply_all,
}
use canton_dex_reference_imp.Idempotency.Exclusion.{once-in_flight}
use canton_dex_reference_imp.Idempotency.AtMostOnce.{once-replays}

-- A ledger that is busy for as many attempts as the number says.
abbrev busy : Thrown
busy = ledger_error LedgerErrorKind.contention "busy" true

abbrev attempt : ℕ → Outcome ℕ × ℕ
attempt zero = (returns 7, 0)
attempt (suc n) = (throws busy, n)

retry_on_contention-ends_example :
    retry_on_contention attempt 5 50 1000 2 ≡ (returns 7, 0, 50 ∷ 100 ∷ [])
retry_on_contention-ends_example =
    retry_on_contention-ends attempt 2 5 50 1000 busy 2 0 0 (returns 7) (omega arith)
      (1, busy, refl, refl, (0, busy, refl, refl, (refl, refl, tt))) refl refl

retry_on_contention-exhausted_example :
    retry_on_contention attempt 2 50 1000 4 ≡ (throws busy, 2, 50 ∷ 100 ∷ [])
retry_on_contention-exhausted_example =
    retry_on_contention-exhausted attempt 2 50 1000 busy 4 2
      (3, busy, refl, refl, (2, busy, refl, refl, (refl, refl, tt)))

abbrev disclosed : DisclosedContract
disclosed = record {
  contract_id = codes "c1";
  template_id = codes "T";
  contract_key_hash = none;
  created_event_blob = codes "blob";
  synchronizer_id = some (codes "sync");
}

merged : merge_disclosures ((disclosed ∷ []) ∷ (disclosed ∷ []) ∷ []) ≡ returns (disclosed ∷ [])
unfolding merge_disclosures merge_all merge_one lookup insert ◌===◌
merged = refl

merge_disclosures-Kept_example :
    All (Kept (disclosed ∷ [])) (disclosed ∷ disclosed ∷ [])
    × All (λ e. Memᴰ e (disclosed ∷ disclosed ∷ [])) (disclosed ∷ [])
merge_disclosures-Kept_example =
    merge_disclosures-Kept ((disclosed ∷ []) ∷ (disclosed ∷ []) ∷ []) (disclosed ∷ []) merged

-- A digest that keeps nothing.
abbrev library : Library
library = record { digest = λ c a r. codes "hash"; error_json = λ e. codes "error" }

abbrev request : SubmitRequest
request = record {
  act_as = codes "operator" ∷ [];
  read_as = none;
  command_id = codes "cmd-1";
  command = LedgerCommand.create (codes "T") (codes "{}");
  disclosure = none;
}

abbrev to_json : ℕ → Str
to_json n = n ∷ []

abbrev of_json : Str → Outcome ℕ
of_json [] = throws (error "Unexpected end of JSON input")
of_json (n ∷ s) = returns n

abbrev exec : Db × ℕ → Outcome ℕ × (Db × ℕ)
exec (db, runs) = (returns 7, (db, suc runs))

abbrev others : List Event
others =
    Event.start (pos 2000) request
    ∷ Event.succeed (codes "cmd-2") (codes "1") (pos 3000)
    ∷ Event.swept (pos 4000)
    ∷ []

once-in_flight_example :
    (e : Thrown) × (once library to_json of_json
        (pos 9000)
        (pos 5000)
        request
        exec
        (apply_all library others ((codes "cmd-1", pending_row (pos 1000) (codes "hash")) ∷ []), 0)
      ≡ (
        throws e,
        (apply_all library others ((codes "cmd-1", pending_row (pos 1000) (codes "hash")) ∷ []), 0),
      ))
unfolding lookup ◌===◌
once-in_flight_example =
    once-in_flight library to_json of_json (pos 9000) (pos 1000) (pos 5000) (codes "hash") request
      others ((codes "cmd-1", pending_row (pos 1000) (codes "hash")) ∷ []) 0 exec refl
      (refl, (refl, (refl, tt))) refl

once-replays_example :
    let db =
      apply_all library others
        (once library to_json of_json (pos 1500) (pos 1000) request exec ([], 0)).1.0 in
    once library to_json of_json (pos 1500) (pos 5000) request exec (db, 1)
    ≡ (of_json (7 ∷ []), (db, 1))
unfolding lookup ◌===◌ insert hash_submit_request
once-replays_example =
    once-replays library to_json of_json (pos 1500) (pos 1000) (pos 5000) request exec exec []
      ((codes "cmd-1", pending_row (pos 1000) (codes "hash")) ∷ []) 0 1 1 7 7 [] others refl refl
      refl refl (refl, (refl, (refl, tt)))
