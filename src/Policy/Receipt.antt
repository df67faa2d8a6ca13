-- ===== src/Policy/Receipt.antt =====
-- What a receipt of services/operator-backend/src/policy/index.ts says.
use canton_dex_reference_imp.Prelude.{
  ℕ, suc, ◌+◌, ◌≤◌, ◌<◌, ◌≡◌, refl, ◌∙◌, ap, subst, arith, true, ◌==◌, eq→==, ne→==, Option, none,
  some, List, [], ◌∷◌, filterb, find, length, Bool-cases, inl, inr,
}
use canton_dex_reference_imp.Prelude.Int.{ℤ}
use canton_dex_reference_imp.Prelude.Outcome.{
  returns, error, or_throw, >>=-eq-returns, returns-injective,
}
use canton_dex_reference_imp.Prelude.Text.{Str, ◌===◌}
use canton_dex_reference_imp.Prelude.Sort.{sort-length}
use canton_dex_reference_imp.Prelude.Assoc.{some-injective}
use canton_dex_reference_imp.Types.{Party, Time, RfqQuote, RankedDealer, PolicyReceipt}
use canton_dex_reference_imp.Policy.{
  ranked_from, ranked_dealers_of, index_from, or_time, ReceiptArgs, quote_before, is_valid_at,
  rank_quotes, build_receipt,
}

-- The entry of a rank is one of the dealer.
abbrev pub RankedAs : List RankedDealer → ℕ → Party → Type 0
RankedAs dealers rank dealer =
    (d : RankedDealer) × (find (λ (r : RankedDealer). r.rank == rank) dealers ≡ some d)
    × ((d.party === dealer) ≡ true)

index_from-RankedAs :
    (i : ℕ) (dealer : Party) (quotes : List RfqQuote) (k : ℕ)
    → index_from i dealer (ranked_from (suc i) quotes) ≡ some k
    → (i ≤ k) × (k < i + length quotes) × RankedAs (ranked_from (suc i) quotes) (suc k) dealer
unfolding index_from ranked_from
index_from-RankedAs i dealer [] k h = cc
index_from-RankedAs i dealer (q ∷ quotes) k h = elim (Bool-cases (q.dealer === dealer)) [
  | inl own ↦
      let e : i ≡ k = some-injective (rw own at h) in
      (omega arith, omega arith, rw (eq→== (suc i) (suc k) (omega arith)) (_, refl, own))
  | inr other ↦
      let (low, high, (d, f, p)) = index_from-RankedAs (suc i) dealer quotes k (rw other at h) in
      (omega arith, omega arith, rw (ne→== (suc i) (suc k) (λ e. omega arith)) (d, f, p))
]

length-ranked_from :
    (rank : ℕ) (quotes : List RfqQuote) → length (ranked_from rank quotes) ≡ length quotes
unfolding ranked_from
length-ranked_from rank [] = refl
length-ranked_from rank (q ∷ quotes) = ap suc (length-ranked_from (suc rank) quotes)

or_throw-some {ℓ} :
    {A : Type ℓ} (o : Option A) (e : _) {a : A} → or_throw o e ≡ returns a → o ≡ some a
or_throw-some none e h = cc
or_throw-some (some b) e h = ap some (returns-injective h)

module _ (date_parse : Time → Option ℤ) where
  rank_quotes-length :
      (quotes : List RfqQuote) (now : Time)
      → length (rank_quotes date_parse quotes now)
        ≡ length (filterb (is_valid_at date_parse now) quotes)
  unfolding rank_quotes
  rank_quotes-length quotes now =
      sort-length (quote_before date_parse) (filterb (is_valid_at date_parse now) quotes)

  -- A receipt that is built names a rank of its list, from 1 to the number of quotes that are still
  -- valid, which is the count it states; the entry of this rank is the accepted dealer's.
  pub build_receipt-RankedAs :
      (sign_receipt : PolicyReceipt → Str) (args : ReceiptArgs) (r : PolicyReceipt)
      → build_receipt date_parse sign_receipt args ≡ returns r
      → (1 ≤ r.accepted_rank)
        × (r.accepted_rank ≤ r.considered_count)
        × (r.considered_count
            ≡ length
                (filterb (is_valid_at date_parse (or_time args.now args.signed_at)) args.quotes))
        × RankedAs r.ranked_dealers r.accepted_rank args.accepted_dealer
  unfolding build_receipt ranked_dealers_of
  build_receipt-RankedAs sign_receipt args r h =
      let quotes = rank_quotes date_parse args.quotes (or_time args.now args.signed_at) in
      let (idx, e, h1) =
        >>=-eq-returns
          (or_throw (index_from 0 args.accepted_dealer (ranked_from 1 quotes))
            (error "accepted dealer not in ranked set"))
          _ h in
      let (low, high, entry) =
        index_from-RankedAs 0 args.accepted_dealer quotes idx (or_throw-some _ _ e) in
      let made = returns-injective h1 in
      let count = length-ranked_from 1 quotes in
      rw (← made) (
        omega arith,
        omega (arith, count, high),
        count ∙ rank_quotes-length args.quotes _,
        subst (λ (n : ℕ). RankedAs (ranked_from 1 quotes) n args.accepted_dealer) (omega arith)
            entry,
      )
