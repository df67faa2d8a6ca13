-- ===== src/Rfq/Swept.antt =====
-- What the sweep of services/operator-backend/src/rfq/index.ts does with the requests that have expired.
use canton_dex_reference_imp.Prelude.{Bool, true, false, none, List, [], ◌∷◌, ◌++◌}
use canton_dex_reference_imp.Prelude.Outcome.{Outcome, returns, throws}
use canton_dex_reference_imp.Prelude.Text.{Str, codes}
use canton_dex_reference_imp.Types.{Party, Time}
use canton_dex_reference_imp.Order.{Submission}
use canton_dex_reference_imp.Rfq.{Rfq, ExpireArgument, RfqLedger}

abbrev pub id_of : Rfq → Str
id_of r = r.rfq_id

abbrev pub succeeds : Outcome (Unit {0}) → Bool
succeeds (returns u) = true
succeeds (throws e) = false

-- A ledger that answers a submission by `reply`, and takes note of it in the state.
module _ {S : Type 0} (ledger : RfqLedger S) (operator_party : Party) (now : Time)
    (reply : Submission ExpireArgument → Outcome (Unit {0}))
    (note : Submission ExpireArgument → S → S) where
  -- The operator's submission that expires one request at the time of the sweep.
  abbrev pub expiry_of : Rfq → Submission ExpireArgument
  expiry_of r = record {
    act_as = operator_party ∷ [];
    command_id = codes "rfq-expire:" ++ r.rfq_id;
    disclosure = none;
    argument = record { rfq_cid = r.contract_id; current_time = now };
  }

  -- The state after one submission for each request, in their order.
  abbrev pub note_all : List Rfq → S → S
  note_all [] s = s
  note_all (r ∷ rfqs) s = note_all rfqs (note (expiry_of r) s)
