-- ===== src/Session/Spent.antt =====
-- services/operator-backend/src/session/index.ts: a bootstrap entry that is consumed stays as it is, or goes.
use canton_dex_reference_imp.Prelude.{
  ℕ, ◌*◌, ltb, leb, ◌≡◌, refl, Bool, true, false, not, ◌||◌, Bool-cases, Option, none, some, inl,
  inr, List, [], ◌∷◌, All,
}
use canton_dex_reference_imp.Prelude.Outcome.{Outcome, returns, throws}
use canton_dex_reference_imp.Prelude.Text.{Str, ◌===◌, ===→eq}
use canton_dex_reference_imp.Prelude.Assoc.{
  lookup, insert, erase, lookup-insert, lookup-erase, some-injective,
}
use canton_dex_reference_imp.Prelude.Unique.{
  Unique, kept, insert-Unique, retain-Unique, erase-Unique, lookup-retain-kept,
}
use canton_dex_reference_imp.Types.{Party}
use canton_dex_reference_imp.Session.{
  Pending, SessionEngine, SessionConfig, BootstrapEntry, LedgerTokenResult, Session,
  issue_ledger_token,
}
use canton_dex_reference_imp.Session.Challenge.{
  challenge, verify, verify_found, Readings, SignedMessage, SessionAccount, VerifyResult,
  check_message, spend_if, sweep_pending,
}
use canton_dex_reference_imp.Session.Bootstrap.{
  BootstrapId, MintReadings, is_empty, cached, consume, create_bootstrap, mint_from, mint_entry,
  mint_verified, mint_from_ledger_proof, sweep_bootstraps, verify_bootstrap,
}
use canton_dex_reference_imp.Session.Run.{
  SessionCall, challenges, verifies, creates, mints, step, run,
}

-- The entry was consumed by this party for this token, or it is gone.
abbrev pub Spent : Party → LedgerTokenResult → Option BootstrapEntry → Type 0
Spent party minted none = Unit
Spent party minted (some e) =
    (e.consumed ≡ true)
    × (e.party ≡ some party)
    × (e.caller_token ≡ some minted.caller_token)
    × (e.expires_at ≡ some minted.expires_at)

kept-Spent :
    (party : Party) (minted : LedgerTokenResult) (p : BootstrapEntry → Bool)
    (o : Option BootstrapEntry)
    → Spent party minted o
    → Spent party minted (kept p o)
kept-Spent party minted p none h = tt
kept-Spent party minted p (some e) h = elim (Bool-cases (p e)) [ inl q ↦ rw q h | inr q ↦ rw q tt ]

-- The map of the bootstraps has each jti once, and the entry of this one is spent.
abbrev pub IsSpent : Str → Party → LedgerTokenResult → List (Str × BootstrapEntry) → Type 0
IsSpent jti party minted m = Unique m × Spent party minted (lookup jti m)

pub cached-Spent :
    (party other : Party) (minted : LedgerTokenResult) (e : BootstrapEntry)
    {given : LedgerTokenResult}
    → Spent party minted (some e)
    → cached other e.party e.caller_token e.expires_at ≡ some given
    → (party ≡ other) × (minted ≡ given)
unfolding cached
cached-Spent party other minted e (c, p, t, x) h = elim (Bool-cases (party === other)) [
  | inl same ↦ (===→eq party other same, some-injective (rw (p, t, x, same) at h))
  | inr different ↦ absurd (cc (rw (p, t, x, different) at h))
]

spend_if-bootstraps :
    (tested : Outcome (Unit {0})) (nonce : Str) (result : VerifyResult) (s : Session)
    → (spend_if tested nonce result s).1.bootstraps ≡ s.bootstraps
spend_if-bootstraps (throws e) nonce result s = refl
spend_if-bootstraps (returns u) nonce result s = refl

verify_found-bootstraps :
    (engine : SessionEngine) (cfg : SessionConfig) (r : Readings) (p : Party) (nonce : Str)
    (signed : SignedMessage) (account : Option SessionAccount) (o : Option Pending) (s : Session)
    → (verify_found engine cfg r p nonce signed account o s).1.bootstraps ≡ s.bootstraps
unfolding verify_found
verify_found-bootstraps engine cfg r p nonce signed account none s = refl
verify_found-bootstraps engine cfg r p nonce signed account (some q) s =
    elim (Bool-cases (not (q.party === p))) [
      | inl other ↦ rw other
      | inr own ↦ elim (Bool-cases (not (ltb r.tested_at q.expires_at))) [
        | inl late ↦ rw (own, late)
        | inr live ↦ rw (own, live) (spend_if-bootstraps (check_message p nonce signed q) nonce _ s)
      ]
    ]

-- `verify` reads and writes no bootstrap.
pub verify-bootstraps :
    (engine : SessionEngine) (cfg : SessionConfig) (r : Readings) (p : Party) (nonce : Str)
    (signed : SignedMessage) (account : Option SessionAccount) (s : Session)
    → (verify engine cfg r p nonce signed account s).1.bootstraps ≡ s.bootstraps
unfolding verify sweep_pending
verify-bootstraps engine cfg r p nonce signed account s =
    verify_found-bootstraps engine cfg r p nonce signed account
      (lookup nonce (sweep_pending r.swept_at s).pending) (sweep_pending r.swept_at s)

-- The call creates no bootstrap of the jti.
abbrev pub CreatesOther : Str → SessionCall → Type 0
CreatesOther jti (challenges r nonce p) = Unit
CreatesOther jti (verifies r p nonce signed account) = Unit
CreatesOther jti (creates swept_at issued_at nonce j) = (j === jti) ≡ false
CreatesOther jti (mints r token p binding) = Unit

module _ (jti : Str) (party : Party) (minted : LedgerTokenResult) where
  pub sweep-IsSpent :
      (t : ℕ) (s : Session)
      → IsSpent jti party minted s.bootstraps
      → IsSpent jti party minted (sweep_bootstraps t s).bootstraps
  unfolding sweep_bootstraps
  sweep-IsSpent t s (u, h) = (
    retain-Unique (λ e. ltb t (e.exp * 1000)) s.bootstraps u,
    rw (lookup-retain-kept (λ e. ltb t (e.exp * 1000)) jti s.bootstraps u)
        (kept-Spent party minted (λ e. ltb t (e.exp * 1000)) (lookup jti s.bootstraps) h),
  )

  insert-IsSpent :
      (k : Str) (e : BootstrapEntry) (m : List (Str × BootstrapEntry))
      → (k === jti) ≡ false
      → IsSpent jti party minted m
      → IsSpent jti party minted (insert k e m)
  insert-IsSpent k e m other (u, h) = (insert-Unique k e m u, rw (lookup-insert k jti e m, other) h)

  erase-IsSpent :
      (k : Str) (m : List (Str × BootstrapEntry))
      → IsSpent jti party minted m
      → IsSpent jti party minted (erase k m)
  erase-IsSpent k m (u, h) = elim (Bool-cases (k === jti)) [
    | inl own ↦ (erase-Unique k m u, rw (lookup-erase k jti m, own) tt)
    | inr other ↦ (erase-Unique k m u, rw (lookup-erase k jti m, other) h)
  ]

  -- A mint changes no entry that is spent.
  mint_from-IsSpent :
      (engine : SessionEngine) (cfg : SessionConfig) (t : ℕ) (p : Party) (e : BootstrapEntry)
      (s : Session) (k : Str)
      → lookup k s.bootstraps ≡ some e
      → IsSpent jti party minted s.bootstraps
      → IsSpent jti party minted (mint_from engine cfg t p e s k).1.bootstraps
  unfolding mint_from
  mint_from-IsSpent engine cfg t p e s k found (u, h) = elim (Bool-cases e.consumed) [
    | inl consumed ↦ rw consumed (u, h)
    | inr fresh ↦ elim (Bool-cases (k === jti)) [
      | inl own ↦
          let same : lookup jti s.bootstraps ≡ some e = rw (← ===→eq k jti own) found in
          let spent : Spent party minted (some e) = rw same at h in absurd (cc (spent.0, fresh))
      | inr other ↦ rw fresh (
          insert-IsSpent k (consume e p (issue_ledger_token engine cfg t p)) s.bootstraps other
            (u, h))
    ]
  ]

  mint_entry-IsSpent :
      (engine : SessionEngine) (cfg : SessionConfig) (r : MintReadings) (p : Party) (binding : Str)
      (o : Option BootstrapEntry) (s : Session) (id : BootstrapId)
      → lookup id.jti s.bootstraps ≡ o
      → IsSpent jti party minted s.bootstraps
      → IsSpent jti party minted (mint_entry engine cfg r p binding o s id).1.bootstraps
  unfolding mint_entry
  mint_entry-IsSpent engine cfg r p binding none s id found h = h
  mint_entry-IsSpent engine cfg r p binding (some e) s id found h =
      elim (Bool-cases (leb (e.exp * 1000) r.tested_at)) [
        | inl expired ↦ rw expired (erase-IsSpent id.jti s.bootstraps h)
        | inr live ↦ elim (Bool-cases (not (binding === id.nonce_hash) || is_empty p)) [
          | inl bad ↦ rw (live, bad) h
          | inr good ↦
              rw (live, good) (mint_from-IsSpent engine cfg r.issued_at p e s id.jti found h)
        ]
      ]

  mint_verified-IsSpent :
      (engine : SessionEngine) (cfg : SessionConfig) (r : MintReadings) (p : Party) (binding : Str)
      (o : Outcome BootstrapId) (s : Session)
      → IsSpent jti party minted s.bootstraps
      → IsSpent jti party minted (mint_verified engine cfg r p binding o s).1.bootstraps
  unfolding mint_verified
  mint_verified-IsSpent engine cfg r p binding (throws e) s h = h
  mint_verified-IsSpent engine cfg r p binding (returns id) s h =
      mint_entry-IsSpent engine cfg r p binding (lookup id.jti s.bootstraps) s id refl h

  step-IsSpent :
      (engine : SessionEngine) (cfg : SessionConfig) (s : Session) (c : SessionCall)
      → CreatesOther jti c
      → IsSpent jti party minted s.bootstraps
      → IsSpent jti party minted (step engine cfg s c).bootstraps
  unfolding challenge create_bootstrap mint_from_ledger_proof
  step-IsSpent engine cfg s (challenges r nonce p) other h = h
  step-IsSpent engine cfg s (verifies r p nonce signed account) other h =
      rw (verify-bootstraps engine cfg r p nonce signed account s) h
  step-IsSpent engine cfg s (creates swept_at issued_at nonce j) other h =
      insert-IsSpent j _ (sweep_bootstraps swept_at s).bootstraps other (sweep-IsSpent swept_at s h)
  step-IsSpent engine cfg s (mints r token p binding) other h =
      mint_verified-IsSpent engine cfg r p binding (verify_bootstrap engine cfg r.verified_at token)
        (sweep_bootstraps r.swept_at s) (sweep-IsSpent r.swept_at s h)

  pub run-IsSpent :
      (engine : SessionEngine) (cfg : SessionConfig) (s : Session) (cs : List SessionCall)
      → All (CreatesOther jti) cs
      → IsSpent jti party minted s.bootstraps
      → IsSpent jti party minted (run engine cfg s cs).bootstraps
  run-IsSpent engine cfg s [] others h = h
  run-IsSpent engine cfg s (c ∷ cs) others h =
      run-IsSpent engine cfg (step engine cfg s c) cs others.1
        (step-IsSpent engine cfg s c others.0 h)
