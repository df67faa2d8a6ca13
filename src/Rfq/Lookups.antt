-- ===== src/Rfq/Lookups.antt =====
-- What the lookups of services/operator-backend/src/rfq/index.ts find.
use mathlib.Core.Path.{ap₂}
use mathlib.Core.List.{Memᴰ}
use canton_dex_reference_imp.Prelude.{
  each-Mem, ◌≡◌, refl, ap, ◌∙◌, Bool, true, true_of_not, Bool-cases, Option, none, some, inl, inr,
  ◌⊎◌, List, [], ◌∷◌, All, find, map, Option-cases,
}
use canton_dex_reference_imp.Prelude.Int.{ℤ}
use canton_dex_reference_imp.Prelude.Outcome.{
  Outcome, returns, throws, Thrown, or_throw, throw_if-eq-returns, returns-injective,
}
use canton_dex_reference_imp.Prelude.Flow.{follow-eq-returns, follow-keeps}
use canton_dex_reference_imp.Prelude.Text.{◌===◌, ===→eq}
use canton_dex_reference_imp.Prelude.Sort.{sort-All}
use canton_dex_reference_imp.Prelude.Assoc.{some-injective}
use canton_dex_reference_imp.Types.{Party, ContractId, Time, RfqQuote}
use canton_dex_reference_imp.Policy.{quote_before, is_valid_at, rank_quotes}
use canton_dex_reference_imp.Matching.Legal.{All-filterb}
use canton_dex_reference_imp.Rfq.{
  Rfq, RfqLedger, check_owner, quote_by_cid, pick_quotes, cid_of_quote, fetch_rfq, fetch_quotes,
}

pub or_throw-eq-returns {ℓ} :
    {A : Type ℓ} (o : Option A) (e : Thrown) {a : A} → or_throw o e ≡ returns a → o ≡ some a
or_throw-eq-returns none e h = absurd (cc)
or_throw-eq-returns (some a) e h = ap some (returns-injective h)

pub find-Mem {ℓ} :
    {A : Type ℓ} (p : A → Bool) (xs : List A) {a : A}
    → find p xs ≡ some a
    → Memᴰ a xs × (p a ≡ true)
find-Mem p [] e = absurd (cc)
find-Mem p (x ∷ xs) e = elim (Bool-cases (p x)) [
  | inl q ↦ let same = some-injective (rw q at e) in rw (← same) (Memᴰ.head refl, q)
  | inr q ↦ let (m, pa) = find-Mem p xs (rw q at e) in (Memᴰ.tail m, pa)
]

pub rank_quotes-valid :
    (date_parse : Time → Option ℤ) (quotes : List RfqQuote) (now : Time)
    → All
        (λ q. Memᴰ q quotes × (is_valid_at date_parse now q ≡ true))
        (rank_quotes date_parse quotes now)
unfolding rank_quotes
rank_quotes-valid date_parse quotes now = sort-All (quote_before date_parse) _ _ (
    All-filterb (λ q. Memᴰ q quotes) (is_valid_at date_parse now) quotes
      (each-Mem quotes quotes (λ q m. m)))

quote_by_cid-Mem :
    (cid : ContractId) (quotes : List RfqQuote) (q : RfqQuote)
    → quote_by_cid cid quotes ≡ some q
    → Memᴰ q quotes × (q.contract_id ≡ cid)
unfolding quote_by_cid
quote_by_cid-Mem cid [] q h = absurd (cc)
quote_by_cid-Mem cid (x ∷ quotes) q h = elim (Option-cases (quote_by_cid cid quotes)) [
  | inr (found, e) ↦
      let (m, same) = quote_by_cid-Mem cid quotes q (e ∙ (rw e at h)) in (Memᴰ.tail m, same)
  | inl e ↦ elim (Bool-cases (x.contract_id === cid)) [
    | inl c ↦
        let same = some-injective (rw (e, c) at h) in rw (← same) (Memᴰ.head refl, ===→eq _ _ c)
    | inr c ↦ absurd (cc (rw (e, c) at h))
  ]
]

Outcome-cases {ℓ} :
    {A : Type ℓ} (o : Outcome A) → ((a : A) × (o ≡ returns a)) ⊎ ((e : Thrown) × (o ≡ throws e))
Outcome-cases (returns a) = inl (a, refl)
Outcome-cases (throws e) = inr (e, refl)

-- The quotes of the ids are quotes of the ledger, one for each id, with these ids in their order.
pick_quotes-all :
    (all : List RfqQuote) (cids : List ContractId) (quotes : List RfqQuote)
    → pick_quotes all cids ≡ returns quotes
    → (map cid_of_quote quotes ≡ cids) × All (λ q. Memᴰ q all) quotes
unfolding pick_quotes
pick_quotes-all all [] quotes h = let none_left = returns-injective h in rw (← none_left) (refl, tt)
pick_quotes-all all (cid ∷ cids) quotes h = elim (Option-cases (quote_by_cid cid all)) [
  | inl missing ↦ absurd (cc (rw missing at h))
  | inr (q, found) ↦ elim (Outcome-cases (pick_quotes all cids)) [
    | inr (e, failed) ↦ absurd (cc (rw (found, failed) at h))
    | inl (rest, picked) ↦
        let made = returns-injective (rw (found, picked) at h) in
        let (ids, there) = pick_quotes-all all cids rest picked in
        let (m, same) = quote_by_cid-Mem cid all q found in
        rw (← made) (ap₂ ◌∷◌ same ids, (m, there))
  ]
]

pub check_owner-own :
    (rfq : Rfq) (required : Option Party) (trader : Party) (e : Thrown)
    → required ≡ some trader
    → check_owner rfq required e ≡ returns tt
    → rfq.trader ≡ trader
unfolding check_owner
check_owner-own rfq none trader e is_required h = absurd (cc)
check_owner-own rfq (some owner) trader e is_required h =
    ===→eq rfq.trader owner (true_of_not _ (throw_if-eq-returns _ _ h)) ∙ some-injective is_required

module _ {S : Type 0} (ledger : RfqLedger S) (operator_party : Party) where
  pub fetch_rfq-Mem :
      (cid : ContractId) (s : S) (rfq : Rfq)
      → (fetch_rfq ledger operator_party cid s).0 ≡ returns rfq
      → (rfqs : List Rfq) × ((ledger.query_rfqs s).0 ≡ returns rfqs)
        × Memᴰ rfq rfqs
        × (rfq.contract_id ≡ cid)
  unfolding fetch_rfq
  fetch_rfq-Mem cid s rfq h =
      let read = ledger.query_rfqs s in
      let (rfqs, answered, h₁) = follow-eq-returns read.0 read.1 _ h in
      let (m, same) = find-Mem _ rfqs (or_throw-eq-returns _ _ h₁) in
      (rfqs, answered, m, ===→eq _ _ same)

  pub fetch_rfq-state :
      (cid : ContractId) (s : S)
      → (fetch_rfq ledger operator_party cid s).1 ≡ (ledger.query_rfqs s).1
  unfolding fetch_rfq
  fetch_rfq-state cid s =
      let read = ledger.query_rfqs s in follow-keeps read.0 read.1 _ (λ rfqs. refl)

  pub fetch_quotes-all :
      (cids : List ContractId) (s : S) (quotes : List RfqQuote)
      → (fetch_quotes ledger operator_party cids s).0 ≡ returns quotes
      → (all : List RfqQuote) × ((ledger.query_quotes s).0 ≡ returns all)
        × (map cid_of_quote quotes ≡ cids)
        × All (λ q. Memᴰ q all) quotes
  unfolding fetch_quotes
  fetch_quotes-all cids s quotes h =
      let read = ledger.query_quotes s in
      let (all, answered, h₁) = follow-eq-returns read.0 read.1 _ h in
      let (ids, there) = pick_quotes-all all cids quotes h₁ in (all, answered, ids, there)

  pub fetch_quotes-state :
      (cids : List ContractId) (s : S)
      → (fetch_quotes ledger operator_party cids s).1 ≡ (ledger.query_quotes s).1
  unfolding fetch_quotes
  fetch_quotes-state cids s =
      let read = ledger.query_quotes s in follow-keeps read.0 read.1 _ (λ quotes. refl)
