-- ===== src/Prelude/Unique.antt =====
-- Maps in which no key stands twice, as the engine's are.
use mathlib.Core.Path.{◌≡◌, refl}
use mathlib.Core.Bool.{Bool}
use mathlib.Core.Logic.{inl, inr}
use mathlib.Core.List.{List, [], ◌∷◌}
use mathlib.Core.Option.{Option, none, some}
use native.Mathlib.Omega.{arith}
use canton_dex_reference_imp.Prelude.Tests.{if◌then◌else◌, Bool-cases}
use canton_dex_reference_imp.Prelude.Text.{Str, ◌===◌, ===_iff, ===→eq}
use canton_dex_reference_imp.Prelude.Assoc.{
  lookup, insert, erase, retain, lookup-insert, lookup-erase, lookup-empty,
}

abbrev pub Unique {ℓ} : {V : Type ℓ} → List (Str × V) → Type ℓ
Unique [] = Unit
Unique ((k, v) ∷ m) = (lookup k m ≡ none) × Unique m

-- The value, if the test keeps it.
abbrev pub kept {ℓ} : {V : Type ℓ} → (V → Bool) → Option V → Option V
kept p none = none
kept p (some v) = if p v then some v else none

module _ {ℓ} {V : Type ℓ} where
  pub insert-Unique : (k : Str) (v : V) (m : List (Str × V)) → Unique m → Unique (insert k v m)
  unfolding insert
  insert-Unique k v [] h = (lookup-empty k, tt)
  insert-Unique k v ((j, w) ∷ m) h = elim (Bool-cases (j === k)) [
    | inl same ↦ rw same ((rw (← ===→eq j k same) h.0), h.1)
    | inr other ↦ rw other (
      rw (lookup-insert k j v m) (ground (arith, ===_iff k j, ===_iff j k, h)),
      insert-Unique k v m h.1,
    )
  ]

  absent-erase : (k j : Str) (m : List (Str × V)) → lookup j m ≡ none → lookup j (erase k m) ≡ none
  absent-erase k j m h = rw (lookup-erase k j m) (ground (arith, h))

  pub erase-Unique : (k : Str) (m : List (Str × V)) → Unique m → Unique (erase k m)
  unfolding erase
  erase-Unique k [] h = tt
  erase-Unique k ((j, w) ∷ m) h = elim (Bool-cases (j === k)) [
    | inl same ↦ rw same (erase-Unique k m h.1)
    | inr other ↦ rw other (absent-erase k j m h.0, erase-Unique k m h.1)
  ]

  pub absent-retain :
      (p : V → Bool) (k : Str) (m : List (Str × V))
      → lookup k m ≡ none
      → lookup k (retain p m) ≡ none
  unfolding lookup retain
  absent-retain p k [] h = h
  absent-retain p k ((j, w) ∷ m) h = elim (Bool-cases (j === k)) [
    | inl same ↦ absurd (cc (rw same at h))
    | inr other ↦ elim (Bool-cases (p w)) [
      | inl q ↦ rw q (rw other (absent-retain p k m (rw other at h)))
      | inr q ↦ rw q (absent-retain p k m (rw other at h))
    ]
  ]

  pub retain-Unique : (p : V → Bool) (m : List (Str × V)) → Unique m → Unique (retain p m)
  unfolding retain
  retain-Unique p [] h = tt
  retain-Unique p ((j, w) ∷ m) h = elim (Bool-cases (p w)) [
    | inl q ↦ rw q (absent-retain p j m h.0, retain-Unique p m h.1)
    | inr q ↦ rw q (retain-Unique p m h.1)
  ]

  -- A sweep leaves a key its value or takes both.
  pub lookup-retain-kept :
      (p : V → Bool) (k : Str) (m : List (Str × V))
      → Unique m
      → lookup k (retain p m) ≡ kept p (lookup k m)
  unfolding lookup retain
  lookup-retain-kept p k [] h = refl
  lookup-retain-kept p k ((j, w) ∷ m) h = elim (Bool-cases (j === k)) [
    | inl same ↦ elim (Bool-cases (p w)) [
      | inl q ↦ rw (q, same, q) refl
      | inr q ↦ rw (q, same, q) (absent-retain p k m (rw (← ===→eq j k same) h.0))
    ]
    | inr other ↦ elim (Bool-cases (p w)) [
      | inl q ↦ rw (q, other) (lookup-retain-kept p k m h.1)
      | inr q ↦ rw (q, other) (lookup-retain-kept p k m h.1)
    ]
  ]
