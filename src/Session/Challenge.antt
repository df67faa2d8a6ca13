-- ===== src/Session/Challenge.antt =====
-- services/operator-backend/src/session/index.ts: challenge and verify.
use canton_dex_reference_imp.Prelude.{
  ℕ, ◌+◌, ltb, Bool, false, not, ◌&&◌, ◌||◌, Option, none, some, List, [], ◌∷◌, ◌++◌, any,
  if◌then◌else◌,
}
use canton_dex_reference_imp.Prelude.Outcome.{
  Outcome, returns, throws, session_error, ◌>>◌, throw_if,
}
use canton_dex_reference_imp.Prelude.Text.{Str, codes, ◌===◌}
use canton_dex_reference_imp.Prelude.Assoc.{lookup, insert, erase, retain}
use canton_dex_reference_imp.Types.{Party}
use canton_dex_reference_imp.Http.Auth.{given}
use canton_dex_reference_imp.Session.{
  SessionEngine, SessionConfig, Pending, LedgerTokenResult, Session, challenge_ttl_ms, issue_token,
}
use canton_dex_reference_imp.Session.Keys.{
  KeyMaterial, decode_bytes, material_of, fingerprint_digest, fingerprint_candidates,
}

-- The readings of the clock in one call: when it sweeps, when it tests, and when it issues.
pub record Readings : Type 0 where
  pub swept_at : ℕ
  pub tested_at : ℕ
  pub issued_at : ℕ

unfoldable pub sweep_pending : ℕ → Session → Session
sweep_pending t s = record {
  pending = retain (λ p. ltb t p.expires_at) s.pending;
  bootstraps = s.bootstraps;
}

abbrev line : Str → Str → Str
line name value = 10 ∷ name ++ value

unfoldable pub build_challenge_message : SessionEngine → SessionConfig → Party → Str → ℕ → ℕ → Str
build_challenge_message engine cfg party nonce issued_at expires_at =
    codes "Canton DEX session"
    ++ (line (codes "domain: ") cfg.domain
        ++ (line (codes "network: ") cfg.network_id
            ++ (line (codes "party: ") party
                ++ (line (codes "nonce: ") nonce
                    ++ (line (codes "issuedAt: ") (engine.to_iso_string issued_at)
                        ++ (line (codes "expiresAt: ") (engine.to_iso_string expires_at)
                            ++ line (codes "purpose: ") (codes "dex-session")))))))

-- A challenge's `domain` is the configured one.
pub record ChallengeIssued : Type 0 where
  pub message : Str
  pub nonce : Str
  pub expires_at : ℕ
  pub domain : Str

abbrev pending_of : SessionEngine → SessionConfig → Readings → Str → Party → Pending
pending_of engine cfg r nonce party = record {
  party = party;
  message =
      build_challenge_message engine cfg party nonce r.issued_at (r.issued_at + challenge_ttl_ms);
  expires_at = r.issued_at + challenge_ttl_ms;
}

-- `challenge` with the nonce that was drawn.
unfoldable pub challenge :
    SessionEngine → SessionConfig → Readings → Str → Party → Session → ChallengeIssued × Session
challenge engine cfg r nonce party s =
    let made = pending_of engine cfg r nonce party in
    (
      record {
        message = made.message;
        nonce = nonce;
        expires_at = made.expires_at;
        domain = cfg.domain;
      },
      record {
        pending = insert nonce made (sweep_pending r.swept_at s).pending;
        bootstraps = s.bootstraps;
      },
    )

-- `domain` is only logged.
pub record SignedMessage : Type 0 where
  pub signature : Str
  pub party_id : Party
  pub message : Str
  pub nonce : Option Str
  pub domain : Option Str

-- `namespace` is only logged.
pub record SessionAccount : Type 0 where
  pub public_key : Option Str
  pub namespace : Option Str

-- What was captured, without a token or with the token of the verified party.
pub data VerifyResult : Type 0 where
  captured_only : VerifyResult
  verified : Party → LedgerTokenResult → VerifyResult

abbrev differs : Str → Option Str → Bool
differs nonce none = false
differs nonce (some n) = not (n === nonce)

-- The tests on what was signed.
unfoldable pub check_message : Party → Str → SignedMessage → Pending → Outcome (Unit {0})
check_message party nonce signed p = do
  throw_if (not (signed.party_id === party))
      (session_error "signed message party does not match the challenge party")
  throw_if (not (signed.message === p.message))
      (session_error "signed message does not match the issued challenge")
  throw_if (differs nonce signed.nonce)
      (session_error "signed message nonce does not match the challenge nonce")

-- `account?.publicKey`, where it is not empty.
abbrev pub key_text : Option SessionAccount → Option Str
key_text none = none
key_text (some account) = given account.public_key

-- `keyObject && sig`, and then either form of the message.
unfoldable pub signature_verified : SessionEngine → Str → Option (List ℕ) → Option (List ℕ) → Bool
signature_verified engine message (some key) (some sig) =
    engine.ed_verify (engine.utf8 message) key sig
    || engine.ed_verify (engine.sha256 (engine.utf8 message)) key sig
signature_verified engine message _ _ = false

abbrev candidates_of : SessionEngine → Option (List ℕ) → KeyMaterial → List Str
candidates_of engine none m = []
candidates_of engine (some decoded) m = fingerprint_candidates engine m.raw32 m.der decoded

-- `target ? candidates.find(...) : undefined` is found.
unfoldable pub binding_verified : Option Str → List Str → Bool
binding_verified none candidates = false
binding_verified (some []) candidates = false
binding_verified (some (c ∷ s)) candidates = any (λ h. h === c ∷ s) candidates

unfoldable pub is_verified : SessionEngine → Party → SignedMessage → Str → Bool
is_verified engine party signed public_key =
    let decoded = decode_bytes engine public_key in
    let m = material_of engine decoded in
    signature_verified engine signed.message m.key_object (decode_bytes engine signed.signature)
    && binding_verified (fingerprint_digest engine party) (candidates_of engine decoded m)

-- The result for a message that passed its tests.
unfoldable pub verify_key :
    SessionEngine → SessionConfig → ℕ → Party → SignedMessage → Option Str → VerifyResult
verify_key engine cfg issued_at party signed none = captured_only
verify_key engine cfg issued_at party signed (some public_key) =
    if not (is_verified engine party signed public_key)
    then captured_only
    else verified party (issue_token engine cfg issued_at party (codes "signature"))

abbrev pub forget : Str → Session → Session
forget nonce s = record { pending = erase nonce s.pending; bootstraps = s.bootstraps }

-- A test that throws leaves the challenge; one that does not spends it.
abbrev pub spend_if :
    Outcome (Unit {0}) → Str → VerifyResult → Session → Outcome VerifyResult × Session
spend_if (throws e) nonce result s = (throws e, s)
spend_if (returns u) nonce result s = (returns result, forget nonce s)

abbrev pub unknown_challenge : Session → Outcome VerifyResult × Session
unknown_challenge s = (throws (session_error "unknown or expired challenge for this party"), s)

unfoldable pub verify_found :
    SessionEngine
    → SessionConfig
    → Readings
    → Party
    → Str
    → SignedMessage
    → Option SessionAccount
    → Option Pending
    → Session
    → Outcome VerifyResult × Session
verify_found engine cfg r party nonce signed account none s = unknown_challenge s
verify_found engine cfg r party nonce signed account (some p) s =
    if not (p.party === party)
    then unknown_challenge s
    else if not (ltb r.tested_at p.expires_at)
    then (throws (session_error "challenge expired"), forget nonce s)
    else spend_if (check_message party nonce signed p) nonce
        (verify_key engine cfg r.issued_at party signed (key_text account)) s

unfoldable pub verify :
    SessionEngine
    → SessionConfig
    → Readings
    → Party
    → Str
    → SignedMessage
    → Option SessionAccount
    → Session
    → Outcome VerifyResult × Session
verify engine cfg r party nonce signed account s =
    verify_found engine cfg r party nonce signed account
      (lookup nonce (sweep_pending r.swept_at s).pending) (sweep_pending r.swept_at s)
