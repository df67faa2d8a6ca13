-- ===== src/Http/Token.antt =====
-- services/operator-backend/src/http/caller-auth.ts: verifyHs256. Base64, the HMAC and `JSON.parse` are
-- the engine's and arguments here; the clock is in milliseconds.
pub mod Verified
pub mod Throws
use canton_dex_reference_imp.Prelude.{
  ℕ, ◌*◌, ◌^◌, ◌==◌, ltb, Bool, true, false, not, ◌&&◌, ◌||◌, Option, none, some, List, [], ◌∷◌,
  ◌++◌, map, if◌then◌else◌,
}
use canton_dex_reference_imp.Prelude.Int.{ℤ, pos, negsuc}
use canton_dex_reference_imp.Prelude.Outcome.{Outcome, returns, throws, Thrown, error, ◌>>=◌, ◌>>◌}
use canton_dex_reference_imp.Prelude.Text.{Str, codes, ◌===◌}
use canton_dex_reference_imp.Prelude.Assoc.{lookup}
use canton_dex_reference_imp.Types.{Party}
use canton_dex_reference_imp.Digits.{split_dot}
use canton_dex_reference_imp.Json.{
  JsonValue, JsonFields, null, boolean, number, string, array, object, member, is_text,
  includes_text,
}
use canton_dex_reference_imp.Http.Auth.{
  HeaderValue, absent, one, several, Request, AuthCheck, passed, refused, same_bytes, given,
  strip_prefix,
}

-- What the source takes from Node: `Buffer.from(s, "base64")`, the digest of
-- `createHmac("sha256", secret).update(s)`, and `JSON.parse` of a buffer's text, `none` where it throws.
pub record Engine : Type 0 where
  pub base64 : Str → List ℕ
  pub hmac : Str → Str → List ℕ
  pub parse_json : List ℕ → Option JsonValue

abbrev url_char : ℕ → ℕ
url_char c = if c == b'-' then b'+' else if c == b'_' then b'/' else c

unfoldable pub base64_url_decode : Engine → Str → List ℕ
base64_url_decode engine s = engine.base64 (map url_char s)

pub record VerifyOptions : Type 0 where
  pub audience : Option Str
  pub require_exp : Bool

abbrev pub null_error : Thrown
null_error = error "Cannot read properties of null"

-- `v.name` on a parsed value: null has no fields to read.
unfoldable pub read_member : Str → JsonValue → Outcome (Option JsonValue)
read_member name null = throws null_error
read_member name (boolean b) = returns none
read_member name (number m k) = returns none
read_member name (string s) = returns none
read_member name (array xs) = returns none
read_member name (object fs) = returns (member name (object fs))

-- `Date.now() / 1000 > m / 10^k`
unfoldable pub is_past : ℕ → ℤ → ℕ → Bool
is_past now (pos m) k = ltb (m * 1000) (now * 10 ^ k)
is_past now (negsuc m) k = true

-- The expiry test refuses the token.
unfoldable pub exp_refuses : Bool → ℕ → Option JsonValue → Bool
exp_refuses require_exp now (some (number m k)) = is_past now m k
exp_refuses require_exp now _ = require_exp

unfoldable pub audience_matches : Str → Option JsonValue → Bool
audience_matches wanted (some (array xs)) = includes_text wanted xs
audience_matches wanted aud = is_text wanted aud

unfoldable pub audience_ok : Option Str → Option JsonValue → Bool
audience_ok none aud = true
audience_ok (some wanted) aud = audience_matches wanted aud

-- The tests on the payload of a token whose signature is right.
unfoldable pub check_claims : ℕ → VerifyOptions → JsonValue → Outcome (Option JsonValue)
check_claims now opts payload = do
  typ ← read_member (codes "typ") payload
  returns (
      if is_text (codes "dex-bootstrap") typ
      then none
      else if exp_refuses opts.require_exp now (member (codes "exp") payload)
      then none
      else if not (audience_ok opts.audience (member (codes "aud") payload))
      then none
      else some payload)

unfoldable pub check_payload : ℕ → VerifyOptions → Option JsonValue → Outcome (Option JsonValue)
check_payload now opts none = returns none
check_payload now opts (some payload) = check_claims now opts payload

-- The signature, then the payload.
unfoldable pub check_signed :
    Engine → ℕ → Str → VerifyOptions → Str → Str → Str → Outcome (Option JsonValue)
check_signed engine now secret opts header payload sig =
    if not
      (same_bytes (engine.hmac secret (header ++ b'.' ∷ payload)) (base64_url_decode engine sig))
    then returns none
    else check_payload now opts (engine.parse_json (base64_url_decode engine payload))

-- What follows the header's algorithm.
unfoldable pub check_alg :
    Option JsonValue → Outcome (Option JsonValue) → Outcome (Option JsonValue)
check_alg alg signed = if not (is_text (codes "HS256") alg) then returns none else signed

unfoldable pub check_header :
    Option JsonValue → Outcome (Option JsonValue) → Outcome (Option JsonValue)
check_header none signed = returns none
check_header (some header) signed = do alg ← read_member (codes "alg") header; check_alg alg signed

unfoldable pub verify_parts :
    Engine → ℕ → Str → VerifyOptions → List Str → Outcome (Option JsonValue)
verify_parts engine now secret opts (header ∷ payload ∷ sig ∷ []) =
    check_header (engine.parse_json (base64_url_decode engine header))
      (check_signed engine now secret opts header payload sig)
verify_parts engine now secret opts _ = returns none

-- `verifyHs256`; `none` is its null.
unfoldable pub verify_hs256 : Engine → ℕ → Str → Str → VerifyOptions → Outcome (Option JsonValue)
verify_hs256 engine now token secret opts = verify_parts engine now secret opts (split_dot token)
