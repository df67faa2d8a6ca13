-- ===== src/Session/Bootstrap.antt =====
-- services/operator-backend/src/session/index.ts: createBootstrap, verifyBootstrap and
-- mintFromLedgerProof.
use canton_dex_reference_imp.Prelude.{
  ℕ, ◌+◌, ◌*◌, ◌/◌, ◌^◌, ltb, leb, ◌==◌, Bool, true, false, not, ◌||◌, Option, none, some, List, [],
  ◌∷◌, ◌++◌, if◌then◌else◌,
}
use canton_dex_reference_imp.Prelude.Int.{pos, negsuc}
use canton_dex_reference_imp.Prelude.Outcome.{
  Outcome, returns, throws, session_error, ◌>>=◌, ◌>>◌, throw_if,
}
use canton_dex_reference_imp.Prelude.Text.{Str, codes, ◌===◌}
use canton_dex_reference_imp.Prelude.Assoc.{lookup, insert, erase, retain}
use canton_dex_reference_imp.Types.{Party}
use canton_dex_reference_imp.Digits.{split_dot}
use canton_dex_reference_imp.Json.{
  JsonValue, JsonFields, null, boolean, number, string, array, object, no_fields, field, member,
  is_text,
}
use canton_dex_reference_imp.Http.Auth.{same_bytes}
use canton_dex_reference_imp.Http.Token.{base64_url_decode, check_header}
use canton_dex_reference_imp.Session.{
  SessionEngine, SessionConfig, BootstrapEntry, LedgerTokenResult, Session, sign_hs256, whole,
  bootstrap_ttl_seconds, issue_ledger_token,
}

unfoldable pub sweep_bootstraps : ℕ → Session → Session
sweep_bootstraps t s = record {
  pending = s.pending;
  bootstraps = retain (λ e. ltb t (e.exp * 1000)) s.bootstraps;
}

abbrev new_entry : Str → ℕ → BootstrapEntry
new_entry nonce_hash exp = record {
  nonce_hash = nonce_hash;
  exp = exp;
  consumed = false;
  party = none;
  caller_token = none;
  expires_at = none;
}

unfoldable pub bootstrap_claims : SessionConfig → Str → Str → ℕ → JsonFields
bootstrap_claims cfg jti nonce_hash iat = field (codes "typ") (string (codes "dex-bootstrap")) (
    field (codes "jti") (string jti) (
      field (codes "nonceHash") (string nonce_hash) (
        field (codes "network") (string cfg.network_id) (
          field (codes "iat") (whole iat)
            (field (codes "exp") (whole (iat + bootstrap_ttl_seconds)) no_fields)))))

-- `createBootstrap` with the nonce and the jti that were drawn, and the two readings of the clock.
unfoldable pub create_bootstrap :
    SessionEngine → SessionConfig → ℕ → ℕ → Str → Str → Session → LedgerTokenResult × Session
create_bootstrap engine cfg swept_at issued_at nonce jti s =
    let nonce_hash = engine.sha256_hex (engine.utf8 nonce) in
    let exp = issued_at / 1000 + bootstrap_ttl_seconds in
    (
      record {
        caller_token =
            sign_hs256 engine (bootstrap_claims cfg jti nonce_hash (issued_at / 1000))
              cfg.caller_jwt_secret;
        expires_at = exp * 1000;
      },
      record {
        pending = s.pending;
        bootstraps = insert jti (new_entry nonce_hash exp) (sweep_bootstraps swept_at s).bootstraps;
      },
    )

unfoldable pub signed_payload : SessionEngine → Str → Str → Str → Str → Outcome (Option JsonValue)
signed_payload engine secret header payload sig =
    if not (
      same_bytes (engine.token_engine.hmac secret (header ++ b'.' ∷ payload))
        (base64_url_decode engine.token_engine sig))
    then returns none
    else returns (engine.token_engine.parse_json (base64_url_decode engine.token_engine payload))

unfoldable pub payload_of_parts : SessionEngine → Str → List Str → Outcome (Option JsonValue)
payload_of_parts engine secret (header ∷ payload ∷ sig ∷ []) =
    check_header (engine.token_engine.parse_json (base64_url_decode engine.token_engine header))
      (signed_payload engine secret header payload sig)
payload_of_parts engine secret _ = returns none

unfoldable pub verify_hs256_payload : SessionEngine → Str → Str → Outcome (Option JsonValue)
verify_hs256_payload engine token secret = payload_of_parts engine secret (split_dot token)

-- `!claims`
unfoldable pub is_falsy : Option JsonValue → Bool
is_falsy none = true
is_falsy (some null) = true
is_falsy (some (boolean b)) = not b
is_falsy (some (number (pos m) k)) = m == 0
is_falsy (some (number (negsuc m) k)) = false
is_falsy (some (string [])) = true
is_falsy (some (string (c ∷ s))) = false
is_falsy (some (array xs)) = false
is_falsy (some (object fs)) = false

-- `claims.name` of claims that are not null.
abbrev pub claim_of : Str → Option JsonValue → Option JsonValue
claim_of name none = none
claim_of name (some v) = member name v

-- `typeof exp !== "number" || exp * 1000 <= now`
unfoldable pub is_expired_claim : ℕ → Option JsonValue → Bool
is_expired_claim now (some (number (pos m) k)) = leb (m * 1000) (now * 10 ^ k)
is_expired_claim now (some (number (negsuc m) k)) = true
is_expired_claim now _ = true

abbrev pub text_or_empty : Option JsonValue → Str
text_or_empty (some (string s)) = s
text_or_empty _ = []

abbrev pub is_empty : Str → Bool
is_empty [] = true
is_empty (c ∷ s) = false

pub record BootstrapId : Type 0 where
  pub jti : Str
  pub nonce_hash : Str

unfoldable pub check_bootstrap : ℕ → Option JsonValue → Outcome BootstrapId
check_bootstrap now claims = do
  throw_if (is_falsy claims) (session_error "invalid bootstrap token")
  throw_if (not (is_text (codes "dex-bootstrap") (claim_of (codes "typ") claims)))
      (session_error "not a bootstrap token")
  throw_if (is_expired_claim now (claim_of (codes "exp") claims))
      (session_error "bootstrap token expired")
  throw_if
      (is_empty (text_or_empty (claim_of (codes "jti") claims))
        || is_empty (text_or_empty (claim_of (codes "nonceHash") claims)))
      (session_error "bootstrap token missing jti/nonceHash")
  returns (record {
    jti = text_or_empty (claim_of (codes "jti") claims);
    nonce_hash = text_or_empty (claim_of (codes "nonceHash") claims);
  })

unfoldable pub verify_bootstrap : SessionEngine → SessionConfig → ℕ → Str → Outcome BootstrapId
verify_bootstrap engine cfg now token = do
  claims ← verify_hs256_payload engine token cfg.caller_jwt_secret
  check_bootstrap now claims

-- The readings of the clock in one call of `mintFromLedgerProof`.
pub record MintReadings : Type 0 where
  pub swept_at : ℕ
  pub verified_at : ℕ
  pub tested_at : ℕ
  pub issued_at : ℕ

-- What a consumed entry gives the party that it was minted for.
unfoldable pub cached : Party → Option Party → Option Str → Option ℕ → Option LedgerTokenResult
cached authenticated (some party) (some token) (some expires_at) =
    if party === authenticated
    then some (record { caller_token = token; expires_at = expires_at })
    else none
cached authenticated _ _ _ = none

abbrev pub consume : BootstrapEntry → Party → LedgerTokenResult → BootstrapEntry
consume e party minted = record {
  nonce_hash = e.nonce_hash;
  exp = e.exp;
  consumed = true;
  party = some party;
  caller_token = some minted.caller_token;
  expires_at = some minted.expires_at;
}

abbrev with_bootstraps : Session → List (Str × BootstrapEntry) → Session
with_bootstraps s m = record { pending = s.pending; bootstraps = m }

-- The mint from an entry that is live; the last argument is the entry's jti.
unfoldable pub mint_from :
    SessionEngine
    → SessionConfig
    → ℕ
    → Party
    → BootstrapEntry
    → Session
    → Str
    → Option LedgerTokenResult × Session
mint_from engine cfg issued_at party e s jti =
    if e.consumed
    then (cached party e.party e.caller_token e.expires_at, s)
    else let minted = issue_ledger_token engine cfg issued_at party in
      (some minted, with_bootstraps s (insert jti (consume e party minted) s.bootstraps))

unfoldable pub mint_entry :
    SessionEngine
    → SessionConfig
    → MintReadings
    → Party
    → Str
    → Option BootstrapEntry
    → Session
    → BootstrapId
    → Option LedgerTokenResult × Session
mint_entry engine cfg r party auth_binding none s id = (none, s)
mint_entry engine cfg r party auth_binding (some e) s id =
    if leb (e.exp * 1000) r.tested_at
    then (none, with_bootstraps s (erase id.jti s.bootstraps))
    else if not (auth_binding === id.nonce_hash) || is_empty party
    then (none, s)
    else mint_from engine cfg r.issued_at party e s id.jti

unfoldable pub mint_verified :
    SessionEngine
    → SessionConfig
    → MintReadings
    → Party
    → Str
    → Outcome BootstrapId
    → Session
    → Option LedgerTokenResult × Session
mint_verified engine cfg r party auth_binding (throws e) s = (none, s)
mint_verified engine cfg r party auth_binding (returns id) s =
    mint_entry engine cfg r party auth_binding (lookup id.jti s.bootstraps) s id

unfoldable pub mint_from_ledger_proof :
    SessionEngine
    → SessionConfig
    → MintReadings
    → Str
    → Party
    → Str
    → Session
    → Option LedgerTokenResult × Session
mint_from_ledger_proof engine cfg r bootstrap_token authenticated_party auth_binding s =
    mint_verified engine cfg r authenticated_party auth_binding
      (verify_bootstrap engine cfg r.verified_at bootstrap_token) (sweep_bootstraps r.swept_at s)
