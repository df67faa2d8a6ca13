-- ===== src/Prelude/Flow.antt =====
-- Calls with effects on a state: what they end with, and the state after them, also after a throw.
use mathlib.Core.Path.{◌≡◌, refl}
use canton_dex_reference_imp.Prelude.Outcome.{Outcome, returns, throws}

abbrev pub Flow {ℓ κ} : Type ℓ → Type κ → Type (ℓ ⊔ κ)
Flow S A = S → Outcome A × S

module _ {ℓ κ} {S : Type ℓ} {A : Type κ} where
  abbrev pub answer : A → Flow S A
  answer a s = (returns a, s)

  abbrev pub lift : Outcome A → Flow S A
  lift o s = (o, s)

-- What follows an outcome.
abbrev pub follow {ℓ κ μ} :
    {S : Type ℓ} {A : Type κ} {B : Type μ} → Outcome A → S → (A → Flow S B) → Outcome B × S
follow (returns a) s f = f a s
follow (throws e) s f = (throws e, s)

infixl 5 ◌>>=◌ ◌>>◌
abbrev pub ◌>>=◌ {ℓ κ μ} :
    {S : Type ℓ} {A : Type κ} {B : Type μ} → Flow S A → (A → Flow S B) → Flow S B
◌>>=◌ m f s = follow (m s).0 (m s).1 f

abbrev pub ◌>>◌ {ℓ κ} : {S : Type ℓ} {B : Type κ} → Flow S (Unit {0}) → Flow S B → Flow S B
m >> k = m >>= λ _. k

-- A call after another returns only if both do.
pub follow-eq-returns {ℓ κ μ} :
    {S : Type ℓ} {A : Type κ} {B : Type μ} (o : Outcome A) (s : S) (f : A → Flow S B) {b : B}
    → (follow o s f).0 ≡ returns b
    → (a : A) × (o ≡ returns a) × ((f a s).0 ≡ returns b)
follow-eq-returns (returns a) s f h = (a, refl, h)
follow-eq-returns (throws e) s f h = absurd (cc)

-- A call and what follows it leave the state where the call left it, if what follows only reads.
pub follow-keeps {ℓ κ μ} :
    {S : Type ℓ} {A : Type κ} {B : Type μ} (o : Outcome A) (t : S) (f : A → Flow S B)
    → ((a : A) → (f a t).1 ≡ t)
    → (follow o t f).1 ≡ t
follow-keeps (returns a) t f keeps = keeps a
follow-keeps (throws e) t f keeps = refl
