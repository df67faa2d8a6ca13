-- ===== src/Ledger/Retry.antt =====
-- How a submission is tried again after contention.
use canton_dex_reference_imp.Prelude.{
  ℕ, zero, suc, ◌*◌, ◌<◌, min, ◌≡◌, refl, arith, Bool, true, false, not, List, [], ◌∷◌,
}
use canton_dex_reference_imp.Prelude.Outcome.{Outcome, returns, throws, Thrown, undefined}
use canton_dex_reference_imp.Ledger.{is_contention, retry_from, retry_on_contention}

-- Whether an outcome ends the rounds.
abbrev pub is_final {κ} : {A : Type κ} → Outcome A → Bool
is_final (returns a) = true
is_final (throws e) = not (is_contention e)

-- The sleeps of `k` failed rounds: each is twice the one before, up to the largest.
abbrev pub backoff : ℕ → ℕ → ℕ → List ℕ
backoff zero delay max_delay = []
backoff (suc k) delay max_delay = delay ∷ backoff k (min max_delay (delay * 2)) max_delay

not-eq-true : (b : Bool) → not b ≡ true → b ≡ false
not-eq-true true h = cc
not-eq-true false h = refl

module _ {ℓ κ} {S : Type ℓ} {A : Type κ} (attempt : S → Outcome A × S) where
  -- `k` attempts in a row fail with contention and take the state from `s` to `t`; the last error
  -- is `e`, which is `last` where there is no attempt.
  abbrev pub Fails : Thrown → S → ℕ → S → Thrown → Type (ℓ ⊔ κ)
  Fails last s zero t e = (s ≡ t) × (last ≡ e) × Unit {κ}
  Fails last s (suc k) t e =
      (s' : S) × (e' : Thrown) × (attempt s ≡ (throws e', s'))
      × (is_contention e' ≡ true)
      × Fails e' s' k t e

  retry_from-ends :
      (k max_attempts delay max_delay : ℕ) (last e : Thrown) (s t u : S) (o : Outcome A)
      → k < max_attempts
      → Fails last s k t e
      → attempt t ≡ (o, u)
      → is_final o ≡ true
      → retry_from attempt max_attempts delay max_delay last s ≡ (o, u, backoff k delay max_delay)
  unfolding retry_from
  retry_from-ends k zero delay max_delay last e s t u o lt fails h f = absurd (omega arith)
  retry_from-ends zero (suc n) delay max_delay last e s t u (returns a) lt (p, _, _) h f = rw (p, h)
  retry_from-ends zero (suc n) delay max_delay last e s t u (throws x) lt (p, _, _) h f =
      rw (p, h, not-eq-true _ f)
  retry_from-ends (suc k) (suc n) delay max_delay last e s t u o lt (s', e', a, c, more) h f = rw (
    a,
    c,
    retry_from-ends k n (min max_delay (delay * 2)) max_delay e' e s' t u o (omega arith) more h f,
  )

  retry_from-exhausted :
      (k delay max_delay : ℕ) (last e : Thrown) (s t : S)
      → Fails last s k t e
      → retry_from attempt k delay max_delay last s ≡ (throws e, t, backoff k delay max_delay)
  unfolding retry_from
  retry_from-exhausted zero delay max_delay last e s t (p, q, _) = rw (p, q)
  retry_from-exhausted (suc k) delay max_delay last e s t (s', e', a, c, more) =
      rw (a, c, retry_from-exhausted k (min max_delay (delay * 2)) max_delay e' e s' t more)

  -- `k` contentions, fewer than `max_attempts`, and then a result or another error: the caller
  -- gets that result or error, the attempt is made `k + 1` times in all, and each failure is
  -- followed by a sleep, twice as long each time up to the largest.
  pub retry_on_contention-ends :
      (k max_attempts initial_delay max_delay : ℕ) (e : Thrown) (s t u : S) (o : Outcome A)
      → k < max_attempts
      → Fails undefined s k t e
      → attempt t ≡ (o, u)
      → is_final o ≡ true
      → retry_on_contention attempt max_attempts initial_delay max_delay s
        ≡ (o, u, backoff k initial_delay max_delay)
  unfolding retry_on_contention
  retry_on_contention-ends k max_attempts initial_delay max_delay e s t u o =
      retry_from-ends k max_attempts initial_delay max_delay undefined e s t u o

  -- Contention in every attempt allowed: the last error is thrown, after exactly that many attempts.
  pub retry_on_contention-exhausted :
      (k initial_delay max_delay : ℕ) (e : Thrown) (s t : S)
      → Fails undefined s k t e
      → retry_on_contention attempt k initial_delay max_delay s
        ≡ (throws e, t, backoff k initial_delay max_delay)
  unfolding retry_on_contention
  retry_on_contention-exhausted k initial_delay max_delay e s t =
      retry_from-exhausted k initial_delay max_delay undefined e s t
