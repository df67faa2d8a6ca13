-- ===== src/Session/Signed.antt =====
-- When services/operator-backend/src/session/index.ts gives a caller token for a signature.
use canton_dex_reference_imp.Prelude.{
  true_of_not, ℕ, ltb, ltb→lt, ◌<◌, ◌≡◌, refl, sym, true, not, Bool-cases, Option, none, some, inl,
  inr,
}
use canton_dex_reference_imp.Prelude.Outcome.{
  Outcome, returns, throws, returns-injective, throw_if_passes, session_error,
}
use canton_dex_reference_imp.Prelude.Text.{Str, codes, ◌===◌, ===→eq, ===-refl}
use canton_dex_reference_imp.Prelude.Assoc.{lookup, erase, lookup-erase}
use canton_dex_reference_imp.Prelude.Unique.{absent-retain}
use canton_dex_reference_imp.Types.{Party}
use canton_dex_reference_imp.Session.{
  SessionEngine, SessionConfig, Pending, LedgerTokenResult, Session, issue_token,
}
use canton_dex_reference_imp.Session.Challenge.{
  Readings, SignedMessage, SessionAccount, VerifyResult, verified, key_text, check_message,
  is_verified, verify_key, forget, spend_if, verify_found, verify, sweep_pending,
}

-- The challenge was issued to the party and is live, the signed message is the issued one for the
-- party, and a key was given for which the message and the party are verified.
pub record IsSigned (engine : SessionEngine) (r : Readings) (party : Party) (nonce : Str)
    (signed : SignedMessage) (account : Option SessionAccount) (s : Session) : Type 0 where
  pub p : Pending
  pub was_pending : lookup nonce (sweep_pending r.swept_at s).pending ≡ some p
  pub of_party : p.party ≡ party
  pub live : r.tested_at < p.expires_at
  pub signed_by : signed.party_id ≡ party
  pub same_message : signed.message ≡ p.message
  pub public_key : Str
  pub key_given : key_text account ≡ some public_key
  pub key_verified : is_verified engine party signed public_key ≡ true

check_message-eq-returns :
    (party : Party) (nonce : Str) (signed : SignedMessage) (p : Pending) {u : Unit {0}}
    → check_message party nonce signed p ≡ returns u
    → (signed.party_id ≡ party) × (signed.message ≡ p.message)
unfolding check_message
check_message-eq-returns party nonce signed p h =
    let (by, rest) = throw_if_passes (not (signed.party_id === party)) _ _ h in
    let (same, rest') = throw_if_passes (not (signed.message === p.message)) _ _ rest in
    (
      ===→eq signed.party_id party (true_of_not _ by),
      ===→eq signed.message p.message (true_of_not _ same),
    )

verify_key-verified :
    (engine : SessionEngine) (cfg : SessionConfig) (t : ℕ) (party : Party) (signed : SignedMessage)
    (key : Option Str) {q : Party} {minted : LedgerTokenResult}
    → verify_key engine cfg t party signed key ≡ verified q minted
    → (k : Str) × (key ≡ some k)
      × (is_verified engine party signed k ≡ true)
      × (party ≡ q)
      × (issue_token engine cfg t party (codes "signature") ≡ minted)
unfolding verify_key
verify_key-verified engine cfg t party signed none h = absurd (cc)
verify_key-verified engine cfg t party signed (some k) h =
    elim (Bool-cases (is_verified engine party signed k)) [
      | inl good ↦ let e = rw good at h in (k, refl, good, cc e, cc e)
      | inr bad ↦ absurd (cc (rw bad at h))
    ]

-- What a call that spends the challenge returns and leaves.
spend_if-eq-returns :
    (tested : Outcome (Unit {0})) (nonce : Str) (result v : VerifyResult) (s : Session)
    → (spend_if tested nonce result s).0 ≡ returns v
    → (tested ≡ returns tt) × (result ≡ v) × ((spend_if tested nonce result s).1 ≡ forget nonce s)
spend_if-eq-returns (throws e) nonce result v s h = absurd (cc)
spend_if-eq-returns (returns tt) nonce result v s h = (refl, returns-injective h, refl)

-- A call that returns found a challenge of the party that is live, and its message passed.
verify_found-eq-returns :
    (engine : SessionEngine) (cfg : SessionConfig) (r : Readings) (party : Party) (nonce : Str)
    (signed : SignedMessage) (account : Option SessionAccount) (o : Option Pending) (s : Session)
    (v : VerifyResult)
    → (verify_found engine cfg r party nonce signed account o s).0 ≡ returns v
    → (p : Pending) × (o ≡ some p)
      × (p.party ≡ party)
      × (r.tested_at < p.expires_at)
      × (check_message party nonce signed p ≡ returns tt)
      × (verify_key engine cfg r.issued_at party signed (key_text account) ≡ v)
      × ((verify_found engine cfg r party nonce signed account o s).1 ≡ forget nonce s)
unfolding verify_found
verify_found-eq-returns engine cfg r party nonce signed account none s v h = absurd (cc)
verify_found-eq-returns engine cfg r party nonce signed account (some p) s v h =
    elim (Bool-cases (not (p.party === party))) [
      | inl other ↦ absurd (cc (rw other at h))
      | inr own ↦ elim (Bool-cases (not (ltb r.tested_at p.expires_at))) [
        | inl late ↦ absurd (cc (rw (own, late) at h))
        | inr live ↦
            let (passed, same, left) =
              spend_if-eq-returns (check_message party nonce signed p) nonce _ v s
                (rw (own, live) at h) in
            (
              p,
              refl,
              ===→eq p.party party (true_of_not _ own),
              ltb→lt r.tested_at p.expires_at (true_of_not _ live),
              passed,
              same,
              rw (own, live) left,
            )
      ]
    ]

-- A nonce that was spent is unknown to the next call, whenever it sweeps.
spent-unknown :
    (engine : SessionEngine) (cfg : SessionConfig) (r : Readings) (party : Party) (nonce : Str)
    (signed : SignedMessage) (account : Option SessionAccount) (s : Session)
    → (verify engine cfg r party nonce signed account (forget nonce s)).0
      ≡ throws (session_error "unknown or expired challenge for this party")
unfolding verify sweep_pending verify_found
spent-unknown engine cfg r party nonce signed account s =
    let gone : lookup nonce (erase nonce s.pending) ≡ none =
      rw (lookup-erase nonce nonce s.pending, ===-refl nonce) in
    rw (absent-retain (λ p. ltb r.swept_at p.expires_at) nonce (erase nonce s.pending) gone)

-- If `verify` gives a caller token, the nonce was the one of a live challenge to the party, the party
-- signed the message of that challenge, and the account's public key verifies the signature and has
-- a fingerprint of the party's id; the token is the one that is issued to that party. The challenge
-- is spent: the next call with the same nonce throws, whatever it is given.
pub verify-IsSigned :
    (engine : SessionEngine) (cfg : SessionConfig) (r r' : Readings) (party other : Party)
    (nonce : Str) (signed signed' : SignedMessage) (account account' : Option SessionAccount)
    (s : Session) (q : Party) (minted : LedgerTokenResult)
    → (verify engine cfg r party nonce signed account s).0 ≡ returns (verified q minted)
    → IsSigned engine r party nonce signed account s
      × (q ≡ party)
      × (minted ≡ issue_token engine cfg r.issued_at party (codes "signature"))
      × ((verify engine cfg r' other nonce signed' account'
            (verify engine cfg r party nonce signed account s).1).0
          ≡ throws (session_error "unknown or expired challenge for this party"))
unfolding verify
verify-IsSigned engine cfg r r' party other nonce signed signed' account account' s q minted h =
    let swept = sweep_pending r.swept_at s in
    let (p, pending, own, live, passed, given_key, left) =
      verify_found-eq-returns engine cfg r party nonce signed account (lookup nonce swept.pending)
        swept (verified q minted) h in
    let (by, same) = check_message-eq-returns party nonce signed p passed in
    let (k, key, good, who, token) =
      verify_key-verified engine cfg r.issued_at party signed (key_text account) given_key in
    (
      record {
        p = p;
        was_pending = pending;
        of_party = own;
        live = live;
        signed_by = by;
        same_message = same;
        public_key = k;
        key_given = key;
        key_verified = good;
      },
      sym who,
      sym token,
      rw left (spent-unknown engine cfg r' other nonce signed' account' swept),
    )
