-- ===== src/Settlement/Grouped.antt =====
-- What `groupLegsByAdmin` of services/operator-backend/src/settlement/index.ts puts under each admin.
use canton_dex_reference_imp.Prelude.{
  ◌≡◌, refl, sym, ap, ◌∙◌, Bool-cases, Option, none, some, inl, inr, List, [], ◌∷◌, ◌++◌, filterb,
}
use canton_dex_reference_imp.Prelude.Text.{◌===◌, ===→eq}
use canton_dex_reference_imp.Prelude.Assoc.{lookup, insert, lookup-insert, lookup-empty}
use canton_dex_reference_imp.Types.{Party}
use canton_dex_reference_imp.Settlement.{with_leg, group_from, group_legs_by_admin}

-- The legs under a key, none where the key is missing.
abbrev pub legs_of : {L : Type 0} → Option (List L) → List L
legs_of none = []
legs_of (some legs) = legs

append_assoc : {L : Type 0} (xs ys zs : List L) → (xs ++ ys) ++ zs ≡ xs ++ (ys ++ zs)
append_assoc [] ys zs = refl
append_assoc (x ∷ xs) ys zs = ap (λ l. x ∷ l) (append_assoc xs ys zs)

append_nil : {L : Type 0} (xs : List L) → xs ++ [] ≡ xs
append_nil [] = refl
append_nil (x ∷ xs) = ap (λ l. x ∷ l) (append_nil xs)

legs_of-with_leg :
    {L : Type 0} (o : Option (List L)) (leg : L) → with_leg o leg ≡ legs_of o ++ (leg ∷ [])
legs_of-with_leg none leg = refl
legs_of-with_leg (some legs) leg = refl

group_from-legs_of :
    {L : Type 0} (admin_of_leg : L → Party) (admin : Party) (legs : List L)
    (out : List (Party × List L))
    → legs_of (lookup admin (group_from admin_of_leg legs out))
      ≡ legs_of (lookup admin out) ++ filterb (λ l. admin_of_leg l === admin) legs
unfolding group_from
group_from-legs_of admin_of_leg admin [] out = sym (append_nil _)
group_from-legs_of admin_of_leg admin (leg ∷ legs) out =
    let next = insert (admin_of_leg leg) (with_leg (lookup (admin_of_leg leg) out) leg) out in
    let rest = group_from-legs_of admin_of_leg admin legs next in
    elim (Bool-cases (admin_of_leg leg === admin)) [
      | inl own ↦
          let same = ===→eq (admin_of_leg leg) admin own in
          rest
          ∙ rw
              (
                lookup-insert (admin_of_leg leg) admin
                    (with_leg (lookup (admin_of_leg leg) out) leg) out,
                own,
                same,
                legs_of-with_leg (lookup admin out) leg,
              )
              (append_assoc (legs_of (lookup admin out)) (leg ∷ []) _)
      | inr other ↦
          rest
          ∙ rw
              (
                lookup-insert (admin_of_leg leg) admin
                    (with_leg (lookup (admin_of_leg leg) out) leg) out,
                other,
              )
              refl
    ]

-- Under each admin stand the legs of that admin, all of them and in their order.
pub group_legs_by_admin-legs_of :
    {L : Type 0} (admin_of_leg : L → Party) (admin : Party) (legs : List L)
    → legs_of (lookup admin (group_legs_by_admin legs admin_of_leg))
      ≡ filterb (λ l. admin_of_leg l === admin) legs
unfolding group_legs_by_admin
group_legs_by_admin-legs_of admin_of_leg admin legs =
    group_from-legs_of admin_of_leg admin legs [] ∙ rw (lookup-empty admin) refl
