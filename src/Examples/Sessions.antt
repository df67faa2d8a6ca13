-- ===== src/Examples/Sessions.antt =====
-- The theorems on sessions at concrete inputs.
use canton_dex_reference_imp.Prelude.{
  ℕ, ◌≡◌, refl, true, false, Option, none, some, List, [], ◌∷◌, length, if◌then◌else◌,
}
use canton_dex_reference_imp.Prelude.Int.{pos}
use canton_dex_reference_imp.Prelude.Outcome.{returns, throws, session_error}
use canton_dex_reference_imp.Prelude.Text.{Str, codes, ◌===◌}
use canton_dex_reference_imp.Prelude.Assoc.{lookup, insert, retain}
use canton_dex_reference_imp.Types.{Party}
use canton_dex_reference_imp.Json.{
  JsonValue, number, string, object, no_fields, field, get_field, member, is_text,
}
use canton_dex_reference_imp.Digits.{split_dot}
use canton_dex_reference_imp.Http.Auth.{same_bytes, given, strip_prefix}
use canton_dex_reference_imp.Http.Token.{
  Engine, base64_url_decode, check_header, check_alg, read_member,
}
use canton_dex_reference_imp.Session.{
  SessionEngine, SessionConfig, LedgerTokenResult, Session, new_session, issue_token,
  issue_ledger_token,
}
use canton_dex_reference_imp.Session.Challenge.{
  Readings, SignedMessage, SessionAccount, verified, challenge, verify, sweep_pending, verify_found,
  build_challenge_message, check_message, verify_key, is_verified, signature_verified,
  binding_verified,
}
use canton_dex_reference_imp.Session.Bootstrap.{
  BootstrapId, MintReadings, verify_bootstrap, mint_from_ledger_proof, verify_hs256_payload,
  payload_of_parts, signed_payload, check_bootstrap, is_falsy, is_expired_claim, mint_verified,
  mint_entry, mint_from, sweep_bootstraps, create_bootstrap, cached,
}
use canton_dex_reference_imp.Http.Validate.{all_hex, is_hex_char}
use canton_dex_reference_imp.Session.Keys.{
  decode_bytes, is_hex, material_of, key_material, spki_ed25519_prefix, try_public_key,
  fingerprint_digest, digest_of, namespace_fingerprint, without_multihash, fingerprint_candidates,
  raw_candidates, der_candidates, purpose_prefixed,
}
use canton_dex_reference_imp.Session.Run.{SessionCall, creates, run}
use canton_dex_reference_imp.Session.Signed.{IsSigned, verify-IsSigned}
use canton_dex_reference_imp.Session.Once.{mint_from_ledger_proof-once}

-- Three texts that stand for JSON, and a signature that is the length of what is signed.
abbrev parse : List ℕ → Option JsonValue
parse s =
    if s === codes "h"
    then some (object (field (codes "alg") (string (codes "HS256")) no_fields))
    else if s === codes "b"
    then some (
        object (
          field (codes "typ") (string (codes "dex-bootstrap")) (
            field (codes "jti") (string (codes "j1")) (
              field (codes "nonceHash") (string (codes "n1"))
                (field (codes "exp") (number (pos 301) 0) no_fields)))))
    else none

abbrev token_engine : Engine
token_engine = record { base64 = λ s. s; hmac = λ secret s. length s ∷ []; parse_json = parse }

-- Each key verifies each message, and the digest of everything is `ab`.
abbrev engine : SessionEngine
engine = record {
  token_engine = token_engine;
  to_base64 = λ bs. bs;
  stringify = λ v. codes "json";
  from_hex = λ s. s;
  utf8 = λ s. s;
  is_public_key = λ bs. true;
  ed_verify = λ m key sig. true;
  sha256 = λ bs. bs;
  sha256_hex = λ bs. codes "ab";
  to_lower_case = λ s. s;
  to_iso_string = λ n. codes "t";
}

abbrev config : SessionConfig
config = record {
  caller_jwt_secret = codes "k";
  caller_jwt_audience = none;
  domain = codes "d";
  network_id = codes "net";
}

abbrev bootstrap_token : Str
bootstrap_token = 104 ∷ 46 ∷ 98 ∷ 46 ∷ 3 ∷ []

abbrev readings : MintReadings
readings = record { swept_at = 2_000; verified_at = 2_000; tested_at = 2_000; issued_at = 2_000 }

abbrev later : MintReadings
later = record { swept_at = 9_000; verified_at = 9_000; tested_at = 9_000; issued_at = 9_000 }

abbrev bootstrap_id : BootstrapId
bootstrap_id = record { jti = codes "j1"; nonce_hash = codes "n1" }

-- One bootstrap before the first mint, and another one between the two.
abbrev created : List SessionCall
created = creates 1_000 1_000 (codes "x") (codes "j1") ∷ []

abbrev between : List SessionCall
between = creates 3_000 3_000 (codes "y") (codes "j2") ∷ []

abbrev minted : LedgerTokenResult
minted = issue_ledger_token engine config 2_000 (codes "alice")

first_verifies : verify_bootstrap engine config 2_000 bootstrap_token ≡ returns bootstrap_id
unfolding verify_bootstrap verify_hs256_payload payload_of_parts split_dot check_header ◌===◌
    base64_url_decode read_member check_alg is_text member get_field signed_payload same_bytes
    check_bootstrap is_falsy is_expired_claim
first_verifies = refl

second_verifies : verify_bootstrap engine config 9_000 bootstrap_token ≡ returns bootstrap_id
unfolding verify_bootstrap verify_hs256_payload payload_of_parts split_dot check_header ◌===◌
    base64_url_decode read_member check_alg is_text member get_field signed_payload same_bytes
    check_bootstrap is_falsy is_expired_claim
second_verifies = refl

other_jti : (codes "j2" === codes "j1") ≡ false
unfolding ◌===◌
other_jti = refl

-- The first mint, and the session that it leaves.
abbrev first_mint : Option LedgerTokenResult × Session
first_mint =
    mint_from_ledger_proof engine config readings bootstrap_token (codes "alice") (codes "n1")
      (run engine config new_session created)

first_gives : first_mint.0 ≡ some minted
unfolding mint_from_ledger_proof mint_verified mint_entry mint_from sweep_bootstraps
    create_bootstrap lookup insert retain cached verify_bootstrap verify_hs256_payload
    payload_of_parts split_dot check_header ◌===◌ base64_url_decode read_member check_alg is_text
    member get_field signed_payload same_bytes check_bootstrap is_falsy is_expired_claim
first_gives = refl

second_gives :
    (mint_from_ledger_proof engine config later bootstrap_token
      (codes "alice")
      (codes "n1")
      (run engine config first_mint.1 between)).0
    ≡ some minted
unfolding mint_from_ledger_proof mint_verified mint_entry mint_from sweep_bootstraps
    create_bootstrap lookup insert retain cached verify_bootstrap verify_hs256_payload
    payload_of_parts split_dot check_header ◌===◌ base64_url_decode read_member check_alg is_text
    member get_field signed_payload same_bytes check_bootstrap is_falsy is_expired_claim
second_gives = refl

mint_from_ledger_proof-once_example : (codes "alice" ≡ codes "alice") × (minted ≡ minted)
mint_from_ledger_proof-once_example =
    mint_from_ledger_proof-once engine config created between readings later bootstrap_token
      bootstrap_token (codes "alice") (codes "alice") (codes "n1") (codes "n1") bootstrap_id
      bootstrap_id minted minted first_verifies second_verifies refl (other_jti, tt) first_gives
      second_gives

abbrev alice : Party
alice = codes "a::1220ab"

abbrev signed_at : Readings
signed_at = record { swept_at = 0; tested_at = 1_000; issued_at = 1_000 }

abbrev issued : Session
issued =
    (challenge engine config (record { swept_at = 0; tested_at = 0; issued_at = 0 }) (codes "n")
      alice new_session).1

abbrev message : SignedMessage
message = record {
  signature = codes "sig";
  party_id = alice;
  message = build_challenge_message engine config alice (codes "n") 0 120_000;
  nonce = none;
  domain = none;
}

abbrev account : Option SessionAccount
account = some (record { public_key = some (codes "key"); namespace = none })

abbrev given_token : LedgerTokenResult
given_token = issue_token engine config 1_000 alice (codes "signature")

signature_given :
    (verify engine config signed_at alice (codes "n") message account issued).0
    ≡ returns (verified alice given_token)
unfolding verify verify_found sweep_pending challenge lookup insert retain ◌===◌ check_message
    verify_key is_verified given decode_bytes is_hex material_of key_material spki_ed25519_prefix
    try_public_key signature_verified base64_url_decode binding_verified fingerprint_digest
    digest_of namespace_fingerprint without_multihash strip_prefix fingerprint_candidates
    raw_candidates der_candidates purpose_prefixed all_hex is_hex_char build_challenge_message
signature_given = refl

verify-IsSigned_example :
    IsSigned engine signed_at alice (codes "n") message account issued
    × (alice ≡ alice)
    × (given_token ≡ issue_token engine config 1_000 alice (codes "signature"))
    × ((verify engine config signed_at alice
          (codes "n")
          message
          account
          (verify engine config signed_at alice (codes "n") message account issued).1).0
        ≡ throws (session_error "unknown or expired challenge for this party"))
verify-IsSigned_example =
    verify-IsSigned engine config signed_at signed_at alice alice (codes "n") message message
      account account issued alice given_token signature_given
