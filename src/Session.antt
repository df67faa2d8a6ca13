-- ===== src/Session.antt =====
-- services/operator-backend/src/session/index.ts: the sessions that a wallet's signature or a settled
-- allocation opens. Encodings, digests, signatures and dates are the engine's and arguments here; so
-- are random texts and the readings of the clock, in milliseconds.
pub mod Keys
pub mod Challenge
pub mod Bootstrap
pub mod Run
pub mod Signed
pub mod Spent
pub mod Once
use canton_dex_reference_imp.Prelude.{
  ℕ, ◌+◌, ◌*◌, ◌/◌, ◌^◌, ◌==◌, leb, Bool, true, false, not, Option, none, some, List, [], ◌∷◌, ◌++◌,
  map, if◌then◌else◌,
}
use canton_dex_reference_imp.Prelude.Int.{ℤ, pos, negsuc}
use canton_dex_reference_imp.Prelude.Text.{Str, codes}
use canton_dex_reference_imp.Types.{Party}
use canton_dex_reference_imp.Json.{JsonValue, JsonFields, number, string, object, no_fields, field}
use canton_dex_reference_imp.Http.Auth.{given}
use canton_dex_reference_imp.Http.Token.{Engine}

-- What the source takes from Node beside the token's engine. A key object is the bytes that it was
-- made of; `ed_verify` is false where the source's call throws.
pub record SessionEngine : Type 0 where
  pub token_engine : Engine
  pub to_base64 : List ℕ → Str
  pub stringify : JsonValue → List ℕ
  pub from_hex : Str → List ℕ
  pub utf8 : Str → List ℕ
  pub is_public_key : List ℕ → Bool
  pub ed_verify : List ℕ → List ℕ → List ℕ → Bool
  pub sha256 : List ℕ → List ℕ
  pub sha256_hex : List ℕ → Str
  pub to_lower_case : Str → Str
  pub to_iso_string : ℕ → Str

pub record SessionConfig : Type 0 where
  pub caller_jwt_secret : Str
  pub caller_jwt_audience : Option Str
  pub domain : Str
  pub network_id : Str

pub record Pending : Type 0 where
  pub party : Party
  pub message : Str
  pub expires_at : ℕ

-- A minted token and its expiry in milliseconds.
pub record LedgerTokenResult : Type 0 where
  pub caller_token : Str
  pub expires_at : ℕ

-- `exp` is in seconds; the last three fields are set when the entry is consumed.
pub record BootstrapEntry : Type 0 where
  pub nonce_hash : Str
  pub exp : ℕ
  pub consumed : Bool
  pub party : Option Party
  pub caller_token : Option Str
  pub expires_at : Option ℕ

pub record Session : Type 0 where
  pub pending : List (Str × Pending)
  pub bootstraps : List (Str × BootstrapEntry)

abbrev pub new_session : Session
new_session = record { pending = []; bootstraps = [] }

abbrev base64_char : ℕ → ℕ
base64_char c = if c == b'+' then b'-' else if c == b'/' then b'_' else c

-- `.replace(/=+$/, "")`
unfoldable pub strip_padding : Str → Str
strip_padding [] = []
strip_padding (c ∷ s) = elim (strip_padding s) [
  | [] ↦ if c == b'=' then [] else c ∷ []
  | d ∷ t ↦ c ∷ d ∷ t
]

unfoldable pub base64_url : SessionEngine → List ℕ → Str
base64_url engine buf = strip_padding (map base64_char (engine.to_base64 buf))

-- The text that is signed.
unfoldable pub signing_input : SessionEngine → JsonFields → Str
signing_input engine claims =
    base64_url engine (
      engine.stringify (
        object (
          field (codes "alg") (string (codes "HS256"))
            (field (codes "typ") (string (codes "JWT")) no_fields))))
    ++ b'.' ∷ base64_url engine (engine.stringify (object claims))

unfoldable pub sign_hs256 : SessionEngine → JsonFields → Str → Str
sign_hs256 engine claims secret =
    signing_input engine claims
    ++ b'.' ∷ base64_url engine (engine.token_engine.hmac secret (signing_input engine claims))

abbrev pub challenge_ttl_ms : ℕ
challenge_ttl_ms = 120_000

abbrev pub token_ttl_seconds : ℕ
token_ttl_seconds = 43_200

abbrev pub bootstrap_ttl_seconds : ℕ
bootstrap_ttl_seconds = 300

abbrev pub whole : ℕ → JsonValue
whole n = number (pos n) 0

abbrev audience_field : Option Str → JsonFields
audience_field none = no_fields
audience_field (some aud) = field (codes "aud") (string aud) no_fields

-- The claims of a caller token that is issued at `iat`, in seconds.
unfoldable pub caller_claims : SessionConfig → Party → Str → ℕ → JsonFields
caller_claims cfg party auth_method iat = field (codes "sub") (string party) (
    field (codes "iat") (whole iat) (
      field (codes "exp") (whole (iat + token_ttl_seconds)) (
        field (codes "network") (string cfg.network_id) (
          field (codes "auth_method") (string auth_method)
            (audience_field (given cfg.caller_jwt_audience))))))

-- `issueLedgerToken`, and the same steps at the end of `verify`.
unfoldable pub issue_token : SessionEngine → SessionConfig → ℕ → Party → Str → LedgerTokenResult
issue_token engine cfg now party auth_method = record {
  caller_token =
      sign_hs256 engine (caller_claims cfg party auth_method (now / 1000)) cfg.caller_jwt_secret;
  expires_at = (now / 1000 + token_ttl_seconds) * 1000;
}

unfoldable pub issue_ledger_token : SessionEngine → SessionConfig → ℕ → Party → LedgerTokenResult
issue_ledger_token engine cfg now party =
    issue_token engine cfg now party (codes "ledger-allocation")
