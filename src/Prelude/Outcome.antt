-- ===== src/Prelude/Outcome.antt =====
-- What a call of the source ends with: a value, or something thrown. Messages are kept without
-- the values that the source interpolates into them.
use Prim.Native.String.{String}
use mathlib.Core.Path.{◌≡◌, refl}
use mathlib.Core.Bool.{Bool, true, false}
use mathlib.Core.Logic.{◌⊎◌, inl, inr}
use mathlib.Core.Option.{Option, none, some}

-- `LedgerErrorKind` of ledger/index.ts
pub data LedgerErrorKind : Type 0 where
  contention authorization validation transport unsupported : LedgerErrorKind

pub data Thrown : Type 0 where
  -- `new LedgerError(kind, detail, retryable)`
  ledger_error : LedgerErrorKind → String → Bool → Thrown
  -- `new Error(message)`, and what the engine throws itself (`SyntaxError`)
  error : String → Thrown
  -- `OrderAuthError`, `RfqAuthError`
  auth_error : String → Thrown
  -- `ValidationError`
  validation_error : String → Thrown
  -- `SessionError`
  session_error : String → Thrown
  -- the value `undefined`
  undefined : Thrown

pub data Outcome {ℓ} (A : Type ℓ) : Type ℓ where
  returns : A → Outcome A
  throws : Thrown → Outcome A

infixl 5 ◌>>=◌ ◌>>◌
abbrev pub ◌>>=◌ {ℓ κ} : {A : Type ℓ} {B : Type κ} → Outcome A → (A → Outcome B) → Outcome B
returns a >>= f = f a
throws e >>= f = throws e

abbrev pub ◌>>◌ {ℓ} : {B : Type ℓ} → Outcome (Unit {0}) → Outcome B → Outcome B
m >> k = m >>= λ _. k

-- `if (bad) throw e`
abbrev pub throw_if : Bool → Thrown → Outcome (Unit {0})
throw_if true e = throws e
throw_if false e = returns tt

-- A value that may be missing, with what is thrown then.
abbrev pub or_throw {ℓ} : {A : Type ℓ} → Option A → Thrown → Outcome A
or_throw none e = throws e
or_throw (some a) e = returns a

pub >>=-eq-returns {ℓ κ} :
    {A : Type ℓ} {B : Type κ} (m : Outcome A) (f : A → Outcome B) {b : B}
    → (m >>= f) ≡ returns b
    → (a : A) × (m ≡ returns a) × (f a ≡ returns b)
>>=-eq-returns (returns a) f h = (a, refl, h)
>>=-eq-returns (throws e) f h = cc

pub >>=-eq-throws {ℓ κ} :
    {A : Type ℓ} {B : Type κ} (m : Outcome A) (f : A → Outcome B) {e : Thrown}
    → (m >>= f) ≡ throws e
    → (m ≡ throws e) ⊎ ((a : A) × (m ≡ returns a) × (f a ≡ throws e))
>>=-eq-throws (returns a) f h = inr (a, refl, h)
>>=-eq-throws (throws x) f h = inl (cc)

pub throw_if-eq-returns :
    (c : Bool) (e : Thrown) {u : Unit {0}} → throw_if c e ≡ returns u → c ≡ false
throw_if-eq-returns true e h = cc
throw_if-eq-returns false e h = refl

pub returns-injective {ℓ} : {A : Type ℓ} {x y : A} → returns x ≡ returns y → x ≡ y
returns-injective e = cc

-- What follows a test that did not throw.
pub throw_if_passes {κ} :
    {B : Type κ} (c : Bool) (e : Thrown) (f : Unit {0} → Outcome B) {b : B}
    → (throw_if c e >>= f) ≡ returns b
    → (c ≡ false) × (f tt ≡ returns b)
throw_if_passes true e f h = cc
throw_if_passes false e f h = (refl, h)
