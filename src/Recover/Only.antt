-- ===== src/Recover/Only.antt =====
-- Which funding request recoverCreatedFundingRequest of services/operator-backend/src/ledger/recover.ts
-- hands back.
use canton_dex_reference_imp.Prelude.{
  ℕ, zero, suc, ◌-◌, ◌≡◌, ◌↔◌, refl, ap, ◌∙◌, arith, Bool, true, false, ◌&&◌, leb, Bool-cases, inl,
  inr, some, List, [], ◌∷◌, ◌++◌, All, take, drop, length, length-append,
}
use canton_dex_reference_imp.Prelude.Outcome.{Outcome, returns, returns-injective}
use canton_dex_reference_imp.Prelude.Text.{Str, codes, ===→eq, ===-refl}
use canton_dex_reference_imp.Types.{Party, ContractId}
use canton_dex_reference_imp.Recover.{
  CreatedEventRef, TreeReader, ends_with, has_template, cids_of, single,
  order_funding_request_suffix, recover_created_funding_request,
}

-- The text is something followed by the suffix.
abbrev pub EndsIn : Str → Str → Type 0
EndsIn suffix s = (p : Str) × (s ≡ p ++ suffix)

take-drop {ℓ} : {A : Type ℓ} (n : ℕ) (xs : List A) → xs ≡ take n xs ++ drop n xs
take-drop zero xs = refl
take-drop (suc n) [] = refl
take-drop (suc n) (x ∷ xs) = ap (λ ys. x ∷ ys) (take-drop n xs)

drop-append {ℓ} : {A : Type ℓ} (n : ℕ) (xs ys : List A) → n ≡ length xs → drop n (xs ++ ys) ≡ ys
drop-append zero [] ys h = refl
drop-append zero (x ∷ xs) ys h = absurd (omega arith)
drop-append (suc n) [] ys h = absurd (omega arith)
drop-append (suc n) (x ∷ xs) ys h = drop-append n xs ys (omega arith)

and-true : (a b : Bool) → (a && b) ≡ true → b ≡ true
and-true true b h = h
and-true false b h = absurd (cc)

ends_with-EndsIn : (suffix s : Str) → ends_with s suffix ≡ true → EndsIn suffix s
unfolding ends_with
ends_with-EndsIn suffix s h =
    let n = length s - length suffix in
    let same = ===→eq _ _ (and-true (leb (length suffix) (length s)) _ h) in
    (take n s, take-drop n s ∙ ap (λ xs. take n s ++ xs) same)

EndsIn-ends_with : (suffix s : Str) → EndsIn suffix s → ends_with s suffix ≡ true
unfolding ends_with
EndsIn-ends_with suffix s (p, e) =
    let n = length-append p suffix in
    rw
      (
        e,
        drop-append (length (p ++ suffix) - length suffix) p suffix (omega (arith, n)),
        ===-refl suffix,
      )
      (ground (arith, n))

-- The event with this contract id is the only one whose template has the suffix.
pub record IsOnly (suffix : Str) (created : List CreatedEventRef) (cid : ContractId) : Type 0 where
  pub before : List CreatedEventRef
  pub event : CreatedEventRef
  pub after : List CreatedEventRef
  pub parts : created ≡ before ++ event ∷ after
  pub named : event.contract_id ≡ cid
  pub template : EndsIn suffix event.template_id
  pub none_before : All (λ e. ¬ EndsIn suffix e.template_id) before
  pub none_after : All (λ e. ¬ EndsIn suffix e.template_id) after

module _ (suffix : Str) where
  no-template :
      (e : CreatedEventRef) → ¬ EndsIn suffix e.template_id → has_template suffix e ≡ false
  unfolding has_template
  no-template e other = elim (Bool-cases (ends_with e.template_id suffix)) [
    | inl h ↦ absurd (other (ends_with-EndsIn suffix e.template_id h))
    | inr h ↦ h
  ]

  not-EndsIn : (e : CreatedEventRef) → has_template suffix e ≡ false → ¬ EndsIn suffix e.template_id
  unfolding has_template
  not-EndsIn e h = λ m. absurd (let there = EndsIn-ends_with suffix e.template_id m in cc)

  cids_of-none :
      (created : List CreatedEventRef)
      → cids_of suffix created ≡ []
      → All (λ e. ¬ EndsIn suffix e.template_id) created
  unfolding cids_of
  cids_of-none [] h = tt
  cids_of-none (x ∷ xs) h = elim (Bool-cases (has_template suffix x)) [
    | inl c ↦ absurd (cc (rw c at h))
    | inr c ↦ (not-EndsIn x c, cids_of-none xs (rw c at h))
  ]

  none-cids_of :
      (created : List CreatedEventRef)
      → All (λ e. ¬ EndsIn suffix e.template_id) created
      → cids_of suffix created ≡ []
  unfolding cids_of
  none-cids_of [] h = refl
  none-cids_of (x ∷ xs) h = rw (no-template x h.0) (none-cids_of xs h.1)

  cids_of-IsOnly :
      (created : List CreatedEventRef) (cid : ContractId)
      → cids_of suffix created ≡ cid ∷ []
      → IsOnly suffix created cid
  unfolding cids_of has_template
  cids_of-IsOnly [] cid h = absurd (cc)
  cids_of-IsOnly (x ∷ xs) cid h = elim (Bool-cases (ends_with x.template_id suffix)) [
    | inl c ↦
        let one : x.contract_id ∷ cids_of suffix xs ≡ cid ∷ [] = rw c at h in
        record {
          before = [];
          event = x;
          after = xs;
          parts = refl;
          named = cc (one);
          template = ends_with-EndsIn suffix x.template_id c;
          none_before = tt;
          none_after = cids_of-none xs (cc (one));
        }
    | inr c ↦
        let only = cids_of-IsOnly xs cid (rw c at h) in
        record {
          before = x ∷ IsOnly.before only;
          event = IsOnly.event only;
          after = IsOnly.after only;
          parts = ap (λ ys. x ∷ ys) (IsOnly.parts only);
          named = IsOnly.named only;
          template = IsOnly.template only;
          none_before = (not-EndsIn x c, IsOnly.none_before only);
          none_after = IsOnly.none_after only;
        }
  ]

  parts-cids_of :
      (before : List CreatedEventRef) (e : CreatedEventRef) (after : List CreatedEventRef)
      → EndsIn suffix e.template_id
      → All (λ x. ¬ EndsIn suffix x.template_id) before
      → All (λ x. ¬ EndsIn suffix x.template_id) after
      → cids_of suffix (before ++ e ∷ after) ≡ e.contract_id ∷ []
  unfolding cids_of has_template
  parts-cids_of [] e after m b a =
      rw (EndsIn-ends_with suffix e.template_id m)
        (ap (λ ys. e.contract_id ∷ ys) (none-cids_of after a))
  parts-cids_of (x ∷ before) e after m b a =
      rw (no-template x b.0) (parts-cids_of before e after m b.1 a)

single-only :
    (cids : List ContractId) (cid : ContractId) → single cids ≡ returns cid → cids ≡ cid ∷ []
single-only [] cid h = cc
single-only (c ∷ []) cid h = rw (returns-injective h)
single-only (c ∷ d ∷ cids) cid h = cc

-- On a ledger that answers with the events of an update, the recovery returns a contract id exactly
-- when one event has it and a template that ends in `CantonDex.Dex.OrderFundingRequest:OrderFundingRequest`,
-- and no event before or after it has such a template.
pub recover_created_funding_request-IsOnly :
    (ledger : TreeReader) (party : Party) (update_id : Str)
    (events_at : Str → Party → Outcome (List CreatedEventRef)) (created : List CreatedEventRef)
    (cid : ContractId)
    → ledger.tree_created_events ≡ some events_at
    → events_at update_id party ≡ returns created
    → (recover_created_funding_request ledger party update_id ≡ returns cid)
      ↔ IsOnly (codes "CantonDex.Dex.OrderFundingRequest:OrderFundingRequest") created cid
unfolding recover_created_funding_request
recover_created_funding_request-IsOnly ledger party update_id events_at created cid e answer = (
  λ h.
      cids_of-IsOnly order_funding_request_suffix created cid
        (single-only _ cid (rw (e, answer) at h)),
  λ only.
      let cids =
        parts-cids_of order_funding_request_suffix (IsOnly.before only) (IsOnly.event only)
          (IsOnly.after only) (IsOnly.template only) (IsOnly.none_before only)
          (IsOnly.none_after only) in
      rw (e, answer, IsOnly.parts only, cids) (ap returns (IsOnly.named only)),
)
