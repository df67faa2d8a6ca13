-- ===== src/Ledger/Disclosures.antt =====
-- What the merged disclosures of a transaction are.
use mathlib.Core.List.{Memᴰ}
use canton_dex_reference_imp.Prelude.{
  ◌≡◌, refl, sym, arith, Bool, true, false, not, ◌||◌, none, some, List, [], ◌∷◌, Bool-cases, inl,
  inr, Option-cases, All, filterb, each-Mem,
}
use canton_dex_reference_imp.Prelude.Outcome.{returns, >>=-eq-returns, returns-injective}
use canton_dex_reference_imp.Prelude.Text.{Str, ◌===◌, ===→eq}
use canton_dex_reference_imp.Prelude.Assoc.{lookup, insert, lookup-insert, lookup-insert_self}
use canton_dex_reference_imp.Ledger.{
  DisclosedContract, merge_one, merge_all, concat, values, merge_disclosures,
}
use canton_dex_reference_imp.Ledger.ByContract.{
  ByContract, IsKeyed, insert-IsKeyed, only_one, insert-from,
}

-- A disclosure is in the map, with its payload.
abbrev InMap : ByContract → DisclosedContract → Type 0
InMap m d =
    (e : DisclosedContract) × (lookup d.contract_id m ≡ some e)
    × (e.template_id ≡ d.template_id)
    × (e.created_event_blob ≡ d.created_event_blob)

-- The list has one entry with the contract id of the disclosure, with its payload.
abbrev pub Kept : List DisclosedContract → DisclosedContract → Type 0
Kept merged d =
    (e : DisclosedContract) × (filterb (λ x. x.contract_id === d.contract_id) merged ≡ e ∷ [])
    × (e.contract_id ≡ d.contract_id)
    × (e.template_id ≡ d.template_id)
    × (e.created_event_blob ≡ d.created_event_blob)

both : (a b : Bool) → (not a || not b) ≡ false → (a ≡ true) × (b ≡ true)
both a b h = ground arith

merge_one-some :
    (d x : DisclosedContract) (m n : ByContract)
    → lookup d.contract_id m ≡ some x
    → merge_one d m ≡ returns n
    → (n ≡ m) × (x.template_id ≡ d.template_id) × (x.created_event_blob ≡ d.created_event_blob)
unfolding merge_one
merge_one-some d x m n e h =
    elim (Bool-cases (
      not (x.template_id === d.template_id)
      || not (x.created_event_blob === d.created_event_blob))) [
        | inl c ↦ absurd (cc (rw (e, c) at h))
        | inr c ↦
            let (t, b) = both _ _ c in
            (sym (returns-injective (rw (e, c) at h)), ===→eq _ _ t, ===→eq _ _ b)
      ]

merge_one-none :
    (d : DisclosedContract) (m n : ByContract)
    → lookup d.contract_id m ≡ none
    → merge_one d m ≡ returns n
    → n ≡ insert d.contract_id d m
unfolding merge_one
merge_one-none d m n e h = sym (returns-injective (rw e at h))

merge_one-InMap : (d : DisclosedContract) (m n : ByContract) → merge_one d m ≡ returns n → InMap n d
merge_one-InMap d m n h = elim (Option-cases (lookup d.contract_id m)) [
  | inl e ↦ rw (merge_one-none d m n e h) (d, lookup-insert_self d.contract_id d m, refl, refl)
  | inr (x, e) ↦ let (en, t, b) = merge_one-some d x m n e h in rw en (x, e, t, b)
]

-- What is in the map stays, unchanged.
merge_one-stays :
    (d : DisclosedContract) (m n : ByContract) (k : Str) (x : DisclosedContract)
    → merge_one d m ≡ returns n
    → lookup k m ≡ some x
    → lookup k n ≡ some x
merge_one-stays d m n k x h l = elim (Option-cases (lookup d.contract_id m)) [
  | inr (y, e) ↦ let (en, t, b) = merge_one-some d y m n e h in rw en l
  | inl e ↦ elim (Bool-cases (d.contract_id === k)) [
    | inl s ↦ absurd (let s' = ===→eq _ _ s in cc)
    | inr s ↦ rw (merge_one-none d m n e h, lookup-insert d.contract_id k d m, s) l
  ]
]

merge_all-stays :
    (ds : List DisclosedContract) (m n : ByContract) (k : Str) (x : DisclosedContract)
    → merge_all ds m ≡ returns n
    → lookup k m ≡ some x
    → lookup k n ≡ some x
unfolding merge_all
merge_all-stays [] m n k x h l = rw (sym (returns-injective h)) l
merge_all-stays (d ∷ ds) m n k x h l =
    let (next, e, h1) = >>=-eq-returns (merge_one d m) _ h in
    merge_all-stays ds next n k x h1 (merge_one-stays d m next k x e l)

merge_all-InMap :
    (ds : List DisclosedContract) (m n : ByContract) → merge_all ds m ≡ returns n → All (InMap n) ds
unfolding merge_all
merge_all-InMap [] m n h = tt
merge_all-InMap (d ∷ ds) m n h =
    let (next, e, h1) = >>=-eq-returns (merge_one d m) _ h in
    let (x, l, t, b) = merge_one-InMap d m next e in
    ((x, merge_all-stays ds next n d.contract_id x h1 l, t, b), merge_all-InMap ds next n h1)

merge_one-IsKeyed :
    (d : DisclosedContract) (m n : ByContract) → merge_one d m ≡ returns n → IsKeyed m → IsKeyed n
merge_one-IsKeyed d m n h keyed = elim (Option-cases (lookup d.contract_id m)) [
  | inl e ↦ rw (merge_one-none d m n e h) (insert-IsKeyed d m keyed)
  | inr (x, e) ↦ let (same, t, b) = merge_one-some d x m n e h in rw same keyed
]

merge_one-from :
    (P : DisclosedContract → Type 0) (d : DisclosedContract) (m n : ByContract)
    → merge_one d m ≡ returns n
    → P d
    → All P (values m)
    → All P (values n)
merge_one-from P d m n h p all = elim (Option-cases (lookup d.contract_id m)) [
  | inl e ↦ rw (merge_one-none d m n e h) (insert-from P d.contract_id d m p all)
  | inr (x, e) ↦ let (same, t, b) = merge_one-some d x m n e h in rw same all
]

merge_all-IsKeyed :
    (ds : List DisclosedContract) (m n : ByContract)
    → merge_all ds m ≡ returns n
    → IsKeyed m
    → IsKeyed n
unfolding merge_all
merge_all-IsKeyed [] m n h keyed = rw (sym (returns-injective h)) keyed
merge_all-IsKeyed (d ∷ ds) m n h keyed =
    let (next, e, h1) = >>=-eq-returns (merge_one d m) _ h in
    merge_all-IsKeyed ds next n h1 (merge_one-IsKeyed d m next e keyed)

merge_all-from :
    (P : DisclosedContract → Type 0) (ds : List DisclosedContract) (m n : ByContract)
    → merge_all ds m ≡ returns n
    → All P ds
    → All P (values m)
    → All P (values n)
unfolding merge_all
merge_all-from P [] m n h ps all = rw (sym (returns-injective h)) all
merge_all-from P (d ∷ ds) m n h ps all =
    let (next, e, h1) = >>=-eq-returns (merge_one d m) _ h in
    merge_all-from P ds next n h1 ps.1 (merge_one-from P d m next e ps.0 all)

InMap-Kept :
    (m : ByContract) (ds : List DisclosedContract)
    → IsKeyed m
    → All (InMap m) ds
    → All (Kept (values m)) ds
InMap-Kept m [] keyed h = tt
InMap-Kept m (d ∷ ds) keyed ((e, l, t, b), h) =
    let (one, same) = only_one d.contract_id m e keyed l in
    ((e, one, same, t, b), InMap-Kept m ds keyed h)

-- A merge that returns has, for every disclosure of every group, exactly one entry with its contract
-- id, and this entry has its template id and its created event blob; and each entry of the merge is
-- one of the disclosures of the groups.
pub merge_disclosures-Kept :
    (groups : List (List DisclosedContract)) (merged : List DisclosedContract)
    → merge_disclosures groups ≡ returns merged
    → All (Kept merged) (concat groups) × All (λ e. Memᴰ e (concat groups)) merged
unfolding merge_disclosures
merge_disclosures-Kept groups merged h =
    let (m, e, h1) = >>=-eq-returns (merge_all (concat groups) []) _ h in
    let made : values m ≡ merged = returns-injective h1 in
    rw (← made) (
      InMap-Kept m (concat groups) (merge_all-IsKeyed (concat groups) [] m e tt)
          (merge_all-InMap (concat groups) [] m e),
      merge_all-from (λ x. Memᴰ x (concat groups)) (concat groups) [] m e
          (each-Mem (concat groups) (concat groups) (λ x i. i)) tt,
    )
