-- ===== src/Session/Once.antt =====
-- A bootstrap of services/operator-backend/src/session/index.ts gives one token, to one party.
use canton_dex_reference_imp.Prelude.{
  ℕ, ◌*◌, ltb, leb, ◌≡◌, refl, not, ◌||◌, Bool-cases, Option, none, some, inl, inr, List, [], ◌∷◌,
  All,
}
use canton_dex_reference_imp.Prelude.Outcome.{Outcome, returns, throws}
use canton_dex_reference_imp.Prelude.Text.{Str, ◌===◌, ===→eq}
use canton_dex_reference_imp.Prelude.Assoc.{lookup, lookup-insert_self, some-injective}
use canton_dex_reference_imp.Prelude.Unique.{Unique, insert-Unique, retain-Unique, erase-Unique}
use canton_dex_reference_imp.Types.{Party}
use canton_dex_reference_imp.Session.{
  SessionEngine, SessionConfig, BootstrapEntry, LedgerTokenResult, Session, new_session,
  issue_ledger_token,
}
use canton_dex_reference_imp.Session.Challenge.{challenge}
use canton_dex_reference_imp.Session.Bootstrap.{
  BootstrapId, MintReadings, is_empty, cached, consume, create_bootstrap, mint_from, mint_entry,
  mint_verified, mint_from_ledger_proof, sweep_bootstraps, verify_bootstrap,
}
use canton_dex_reference_imp.Session.Run.{
  SessionCall, challenges, verifies, creates, mints, step, run,
}
use canton_dex_reference_imp.Session.Spent.{
  Spent, IsSpent, cached-Spent, verify-bootstraps, sweep-IsSpent, run-IsSpent, CreatesOther,
}

-- No call puts a jti into the map twice.
sweep-Unique :
    (t : ℕ) (s : Session) → Unique s.bootstraps → Unique (sweep_bootstraps t s).bootstraps
unfolding sweep_bootstraps
sweep-Unique t s u = retain-Unique (λ e. ltb t (e.exp * 1000)) s.bootstraps u

mint_from-Unique :
    (engine : SessionEngine) (cfg : SessionConfig) (t : ℕ) (p : Party) (e : BootstrapEntry)
    (s : Session) (k : Str)
    → Unique s.bootstraps
    → Unique (mint_from engine cfg t p e s k).1.bootstraps
unfolding mint_from
mint_from-Unique engine cfg t p e s k u = elim (Bool-cases e.consumed) [
  | inl consumed ↦ rw consumed u
  | inr fresh ↦
      rw fresh (insert-Unique k (consume e p (issue_ledger_token engine cfg t p)) s.bootstraps u)
]

mint_entry-Unique :
    (engine : SessionEngine) (cfg : SessionConfig) (r : MintReadings) (p : Party) (binding : Str)
    (o : Option BootstrapEntry) (s : Session) (id : BootstrapId)
    → Unique s.bootstraps
    → Unique (mint_entry engine cfg r p binding o s id).1.bootstraps
unfolding mint_entry
mint_entry-Unique engine cfg r p binding none s id u = u
mint_entry-Unique engine cfg r p binding (some e) s id u =
    elim (Bool-cases (leb (e.exp * 1000) r.tested_at)) [
      | inl expired ↦ rw expired (erase-Unique id.jti s.bootstraps u)
      | inr live ↦ elim (Bool-cases (not (binding === id.nonce_hash) || is_empty p)) [
        | inl bad ↦ rw (live, bad) u
        | inr good ↦ rw (live, good) (mint_from-Unique engine cfg r.issued_at p e s id.jti u)
      ]
    ]

mint_verified-Unique :
    (engine : SessionEngine) (cfg : SessionConfig) (r : MintReadings) (p : Party) (binding : Str)
    (o : Outcome BootstrapId) (s : Session)
    → Unique s.bootstraps
    → Unique (mint_verified engine cfg r p binding o s).1.bootstraps
unfolding mint_verified
mint_verified-Unique engine cfg r p binding (throws e) s u = u
mint_verified-Unique engine cfg r p binding (returns id) s u =
    mint_entry-Unique engine cfg r p binding (lookup id.jti s.bootstraps) s id u

step-Unique :
    (engine : SessionEngine) (cfg : SessionConfig) (s : Session) (c : SessionCall)
    → Unique s.bootstraps
    → Unique (step engine cfg s c).bootstraps
unfolding challenge create_bootstrap mint_from_ledger_proof
step-Unique engine cfg s (challenges r nonce p) u = u
step-Unique engine cfg s (verifies r p nonce signed account) u =
    rw (verify-bootstraps engine cfg r p nonce signed account s) u
step-Unique engine cfg s (creates swept_at issued_at nonce j) u =
    insert-Unique j _ (sweep_bootstraps swept_at s).bootstraps (sweep-Unique swept_at s u)
step-Unique engine cfg s (mints r token p binding) u =
    mint_verified-Unique engine cfg r p binding (verify_bootstrap engine cfg r.verified_at token)
      (sweep_bootstraps r.swept_at s) (sweep-Unique r.swept_at s u)

run-Unique :
    (engine : SessionEngine) (cfg : SessionConfig) (s : Session) (cs : List SessionCall)
    → Unique s.bootstraps
    → Unique (run engine cfg s cs).bootstraps
run-Unique engine cfg s [] u = u
run-Unique engine cfg s (c ∷ cs) u =
    run-Unique engine cfg (step engine cfg s c) cs (step-Unique engine cfg s c u)

-- An entry that answers from its cache is spent on what it answers.
cached-eq-some :
    (other : Party) (o : Option Party) (t : Option Str) (x : Option ℕ) {given : LedgerTokenResult}
    → cached other o t x ≡ some given
    → (o ≡ some other) × (t ≡ some given.caller_token) × (x ≡ some given.expires_at)
unfolding cached
cached-eq-some other none t x h = cc
cached-eq-some other (some p) none x h = cc
cached-eq-some other (some p) (some t) none h = cc
cached-eq-some other (some p) (some t) (some x) h = elim (Bool-cases (p === other)) [
  | inl same ↦
      let made = some-injective (rw same at h) in (cc (===→eq p other same), cc made, cc made)
  | inr different ↦ absurd (cc (rw different at h))
]

-- What a mint gives, its entry is spent on.
mint_from-Spent :
    (engine : SessionEngine) (cfg : SessionConfig) (t : ℕ) (p : Party) (e : BootstrapEntry)
    (s : Session) (k : Str) {minted : LedgerTokenResult}
    → lookup k s.bootstraps ≡ some e
    → Unique s.bootstraps
    → (mint_from engine cfg t p e s k).0 ≡ some minted
    → IsSpent k p minted (mint_from engine cfg t p e s k).1.bootstraps
unfolding mint_from
mint_from-Spent engine cfg t p e s k found u h = elim (Bool-cases e.consumed) [
  | inl consumed ↦
      let (a, b, c) = cached-eq-some p e.party e.caller_token e.expires_at (rw consumed at h) in
      rw (consumed, found) (u, (consumed, a, b, c))
  | inr fresh ↦
      let made = some-injective (rw fresh at h) in
      let e' = consume e p (issue_ledger_token engine cfg t p) in
      rw (fresh, lookup-insert_self k e' s.bootstraps)
        (insert-Unique k e' s.bootstraps u, (refl, refl, cc made, cc made))
]

mint_entry-Spent :
    (engine : SessionEngine) (cfg : SessionConfig) (r : MintReadings) (p : Party) (binding : Str)
    (o : Option BootstrapEntry) (s : Session) (id : BootstrapId) {minted : LedgerTokenResult}
    → lookup id.jti s.bootstraps ≡ o
    → Unique s.bootstraps
    → (mint_entry engine cfg r p binding o s id).0 ≡ some minted
    → IsSpent id.jti p minted (mint_entry engine cfg r p binding o s id).1.bootstraps
unfolding mint_entry
mint_entry-Spent engine cfg r p binding none s id found u h = absurd (cc)
mint_entry-Spent engine cfg r p binding (some e) s id found u h =
    elim (Bool-cases (leb (e.exp * 1000) r.tested_at)) [
      | inl expired ↦ absurd (cc (rw expired at h))
      | inr live ↦ elim (Bool-cases (not (binding === id.nonce_hash) || is_empty p)) [
        | inl bad ↦ absurd (cc (rw (live, bad) at h))
        | inr good ↦
            rw (live, good)
              (mint_from-Spent engine cfg r.issued_at p e s id.jti found u (rw (live, good) at h))
      ]
    ]

-- A mint from an entry that is spent gives what it was spent on, to the same party.
mint_entry-again :
    (engine : SessionEngine) (cfg : SessionConfig) (r : MintReadings) (p q : Party) (binding : Str)
    (o : Option BootstrapEntry) (s : Session) (id : BootstrapId) (minted : LedgerTokenResult)
    {again : LedgerTokenResult}
    → Spent p minted o
    → (mint_entry engine cfg r q binding o s id).0 ≡ some again
    → (p ≡ q) × (minted ≡ again)
unfolding mint_entry mint_from
mint_entry-again engine cfg r p q binding none s id minted spent h = absurd (cc)
mint_entry-again engine cfg r p q binding (some e) s id minted spent h =
    elim (Bool-cases (leb (e.exp * 1000) r.tested_at)) [
      | inl expired ↦ absurd (cc (rw expired at h))
      | inr live ↦ elim (Bool-cases (not (binding === id.nonce_hash) || is_empty q)) [
        | inl bad ↦ absurd (cc (rw (live, bad) at h))
        | inr good ↦ cached-Spent p q minted e spent (rw (live, good, spent.0) at h)
      ]
    ]

mint-IsSpent :
    (engine : SessionEngine) (cfg : SessionConfig) (r : MintReadings) (token : Str) (p : Party)
    (binding : Str) (s : Session) (id : BootstrapId) {minted : LedgerTokenResult}
    → verify_bootstrap engine cfg r.verified_at token ≡ returns id
    → Unique s.bootstraps
    → (mint_from_ledger_proof engine cfg r token p binding s).0 ≡ some minted
    → IsSpent id.jti p minted (mint_from_ledger_proof engine cfg r token p binding s).1.bootstraps
unfolding mint_from_ledger_proof mint_verified
mint-IsSpent engine cfg r token p binding s id v u h =
    let swept = sweep_bootstraps r.swept_at s in
    rw v (
      mint_entry-Spent engine cfg r p binding (lookup id.jti swept.bootstraps) swept id refl
        (sweep-Unique r.swept_at s u) (rw v at h))

mint-again :
    (engine : SessionEngine) (cfg : SessionConfig) (r : MintReadings) (token : Str) (p q : Party)
    (binding : Str) (s : Session) (id : BootstrapId) (minted : LedgerTokenResult)
    {again : LedgerTokenResult}
    → verify_bootstrap engine cfg r.verified_at token ≡ returns id
    → IsSpent id.jti p minted s.bootstraps
    → (mint_from_ledger_proof engine cfg r token q binding s).0 ≡ some again
    → (p ≡ q) × (minted ≡ again)
unfolding mint_from_ledger_proof mint_verified
mint-again engine cfg r token p q binding s id minted v spent h =
    let swept = sweep_bootstraps r.swept_at s in
    mint_entry-again engine cfg r p q binding (lookup id.jti swept.bootstraps) swept id minted
      (sweep-IsSpent id.jti p minted r.swept_at s spent).1 (rw v at h)

-- From the start of the service, whatever calls come before and in between: if two mints from
-- bootstrap tokens that verify to one jti both give a token, and no bootstrap was created with that
-- jti in between, they name the same party and give the same token with the same expiry.
pub mint_from_ledger_proof-once :
    (engine : SessionEngine) (cfg : SessionConfig) (before between : List SessionCall)
    (r₁ r₂ : MintReadings) (token₁ token₂ : Str) (party₁ party₂ : Party) (binding₁ binding₂ : Str)
    (id₁ id₂ : BootstrapId) (minted₁ minted₂ : LedgerTokenResult)
    → verify_bootstrap engine cfg r₁.verified_at token₁ ≡ returns id₁
    → verify_bootstrap engine cfg r₂.verified_at token₂ ≡ returns id₂
    → id₁.jti ≡ id₂.jti
    → All (CreatesOther id₁.jti) between
    → (mint_from_ledger_proof engine cfg r₁ token₁ party₁ binding₁
        (run engine cfg new_session before)).0
      ≡ some minted₁
    → (mint_from_ledger_proof engine cfg r₂ token₂ party₂ binding₂ (
        run engine cfg
          (mint_from_ledger_proof engine cfg r₁ token₁ party₁ binding₁
            (run engine cfg new_session before)).1
          between)).0
      ≡ some minted₂
    → (party₁ ≡ party₂) × (minted₁ ≡ minted₂)
mint_from_ledger_proof-once engine cfg before between r₁ r₂ token₁ token₂ party₁ party₂ binding₁
      binding₂ id₁ id₂ minted₁ minted₂ v₁ v₂ same others h₁ h₂ =
    let u = run-Unique engine cfg new_session before tt in
    let s = run engine cfg new_session before in
    let s' = (mint_from_ledger_proof engine cfg r₁ token₁ party₁ binding₁ s).1 in
    let spent = mint-IsSpent engine cfg r₁ token₁ party₁ binding₁ s id₁ v₁ u h₁ in
    let still = run-IsSpent id₁.jti party₁ minted₁ engine cfg s' between others spent in
    mint-again engine cfg r₂ token₂ party₁ party₂ binding₂ (run engine cfg s' between) id₂ minted₁
      v₂ (rw (← same) still) h₂
