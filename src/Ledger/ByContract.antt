-- ===== src/Ledger/ByContract.antt =====
-- The map that collects the disclosures of a transaction.
use canton_dex_reference_imp.Prelude.{
  ap, ◌≡◌, refl, arith, true, none, some, List, [], ◌∷◌, Bool-cases, inl, inr, All, filterb, ◌∙◌,
}
use canton_dex_reference_imp.Prelude.Text.{Str, ◌===◌, ===→eq, ===_iff}
use canton_dex_reference_imp.Prelude.Assoc.{
  lookup, insert, lookup-insert, lookup-empty, some-injective,
}
use canton_dex_reference_imp.Ledger.{DisclosedContract, values}

abbrev pub ByContract : Type 0
ByContract = List (Str × DisclosedContract)

-- Under each key is a disclosure with this contract id, and no key is there twice.
abbrev pub IsKeyed : ByContract → Type 0
IsKeyed [] = Unit
IsKeyed ((k, d) ∷ m) = (d.contract_id ≡ k) × (lookup k m ≡ none) × IsKeyed m

===-comm : (a b : Str) → (a === b) ≡ (b === a)
===-comm a b = ground (arith, ===_iff a b, ===_iff b a)

pub insert-IsKeyed :
    (d : DisclosedContract) (m : ByContract) → IsKeyed m → IsKeyed (insert d.contract_id d m)
unfolding insert
insert-IsKeyed d [] h = (refl, lookup-empty {V = DisclosedContract} d.contract_id, tt)
insert-IsKeyed d ((j, w) ∷ m) h = elim (Bool-cases (j === d.contract_id)) [
  | inl s ↦ let same = ===→eq _ _ s in rw s (refl, rw (← same) h.1, h.2)
  | inr s ↦ rw s (
    h.0,
    rw (lookup-insert d.contract_id j d m, ===-comm d.contract_id j, s) h.1,
    insert-IsKeyed d m h.2,
  )
]

absent :
    (k : Str) (m : ByContract)
    → IsKeyed m
    → lookup k m ≡ none
    → filterb (λ (x : DisclosedContract). x.contract_id === k) (values m) ≡ []
unfolding lookup
absent k [] h l = refl
absent k ((j, d) ∷ m) h l = elim (Bool-cases (j === k)) [
  | inl s ↦ absurd (cc (rw s at l))
  | inr s ↦ rw (h.0, s) (absent k m h.2 (rw s at l))
]

pub only_one :
    (k : Str) (m : ByContract) (e : DisclosedContract)
    → IsKeyed m
    → lookup k m ≡ some e
    → (filterb (λ (x : DisclosedContract). x.contract_id === k) (values m) ≡ e ∷ [])
      × (e.contract_id ≡ k)
unfolding lookup
only_one k [] e h l = absurd (cc)
only_one k ((j, d) ∷ m) e h l = elim (Bool-cases (j === k)) [
  | inl s ↦
      let here : d ≡ e = some-injective (rw s at l) in
      let same = ===→eq j k s in
      let named : (d.contract_id === k) ≡ true = rw h.0 s in
      let none_left = absent k m h.2 (rw (← same) h.1) in
      (rw (named, none_left) (ap (λ x. x ∷ []) here), rw (← here) (h.0 ∙ same))
  | inr s ↦ rw (h.0, s) (only_one k m e h.2 (rw s at l))
]

pub insert-from :
    (P : DisclosedContract → Type 0) (k : Str) (d : DisclosedContract) (m : ByContract)
    → P d
    → All P (values m)
    → All P (values (insert k d m))
unfolding insert
insert-from P k d [] p h = (p, tt)
insert-from P k d ((j, w) ∷ m) p h = elim (Bool-cases (j === k)) [
  | inl s ↦ rw s (p, h.1)
  | inr s ↦ rw s (h.0, insert-from P k d m p h.1)
]
