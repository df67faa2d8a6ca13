-- ===== src/Http/CallerAuth.antt =====
-- services/operator-backend/src/http/caller-auth.ts: the binding of a request to the party of its
-- caller's token.
pub mod Bound
use canton_dex_reference_imp.Prelude.{
  ℕ, ◌*◌, ◌^◌, ◌==◌, ltb, Bool, true, false, not, ◌&&◌, ◌||◌, Option, none, some, List, [], ◌∷◌,
  ◌++◌, map, if◌then◌else◌,
}
use canton_dex_reference_imp.Prelude.Int.{ℤ, pos, negsuc}
use canton_dex_reference_imp.Prelude.Outcome.{Outcome, returns, throws, Thrown, error, ◌>>=◌, ◌>>◌}
use canton_dex_reference_imp.Prelude.Text.{Str, codes, ◌===◌}
use canton_dex_reference_imp.Prelude.Assoc.{lookup}
use canton_dex_reference_imp.Types.{Party}
use canton_dex_reference_imp.Digits.{split_dot}
use canton_dex_reference_imp.Json.{
  JsonValue, JsonFields, null, boolean, number, string, array, object, member, is_text,
  includes_text,
}
use canton_dex_reference_imp.Http.Auth.{
  HeaderValue, absent, one, several, Request, AuthCheck, passed, refused, same_bytes, given,
  strip_prefix,
}
use canton_dex_reference_imp.Http.Token.{Engine, VerifyOptions, verify_hs256}

pub record CallerAuthConfig : Type 0 where
  pub caller_jwt_secret : Option Str
  pub caller_jwt_audience : Option Str

pub data SubjectField : Type 0 where
  body_field : Str → SubjectField
  swapper_account_owner : SubjectField

unfoldable pub subject_party_by_route : List (Str × SubjectField)
subject_party_by_route = (codes "POST /v1/rfq", body_field (codes "trader")) ∷ []

abbrev is_spec : Option SubjectField → Bool
is_spec none = false
is_spec (some spec) = true

unfoldable pub route_binds_caller : Str → Bool
route_binds_caller route_key = is_spec (lookup route_key subject_party_by_route)

-- `Array.isArray(raw) ? raw[0] : raw`, without an empty text.
unfoldable pub header_text : HeaderValue → Option Str
header_text absent = none
header_text (one h) = given (some h)
header_text (several []) = none
header_text (several (h ∷ hs)) = given (some h)

-- A token with or without `Bearer ` before it.
unfoldable pub bare_token : Str → Str
bare_token header = elim (strip_prefix (codes "Bearer ") header) [
  | none ↦ header
  | some rest ↦ rest
]

-- `claims.sub` where it is a text that is not empty.
unfoldable pub party_of_sub : Option JsonValue → Option Party
party_of_sub (some (string s)) = given (some s)
party_of_sub _ = none

unfoldable pub party_of_claims : Option JsonValue → Option Party
party_of_claims none = none
party_of_claims (some claims) = party_of_sub (member (codes "sub") claims)

unfoldable pub caller_options : CallerAuthConfig → VerifyOptions
caller_options cfg = record { audience = cfg.caller_jwt_audience; require_exp = true }

unfoldable pub caller_party :
    Engine → ℕ → CallerAuthConfig → Option Str → Option Str → Outcome (Option Party)
caller_party engine now cfg none header = returns none
caller_party engine now cfg (some secret) none = returns none
caller_party engine now cfg (some secret) (some header) = do
  claims ← verify_hs256 engine now (bare_token header) secret (caller_options cfg)
  returns (party_of_claims claims)

-- `callerPartyFromRequest`
unfoldable pub caller_party_from_request :
    Engine → ℕ → Request → CallerAuthConfig → Outcome (Option Party)
caller_party_from_request engine now req cfg =
    caller_party engine now cfg (given cfg.caller_jwt_secret) (header_text req.x_caller_token)

-- A field of a value that need not be an object.
unfoldable pub member_of : Str → Option JsonValue → Option JsonValue
member_of name none = none
member_of name (some v) = member name v

unfoldable pub subject_party : SubjectField → Option JsonValue → Option JsonValue
subject_party (body_field name) body = member_of name body
subject_party swapper_account_owner body =
    member_of (codes "owner") (member_of (codes "swapperAccount") body)

-- The caller is known and the party that `matches` asks for.
unfoldable pub check_caller : Str → Str → (Party → Bool) → Option Party → AuthCheck
check_caller required forbidden matches none = refused 401 (codes "unauthorized") required
check_caller required forbidden matches (some caller) =
    if not (matches caller) then refused 403 (codes "forbidden") forbidden else passed

unfoldable pub check_with :
    Engine
    → ℕ
    → Request
    → CallerAuthConfig
    → Option Str
    → Str
    → Str
    → (Party → Bool)
    → Outcome AuthCheck
check_with engine now req cfg none required forbidden matches = returns passed
check_with engine now req cfg (some secret) required forbidden matches = do
  caller ← caller_party_from_request engine now req cfg
  returns (check_caller required forbidden matches caller)

unfoldable pub check_subject :
    Engine
    → ℕ
    → Request
    → CallerAuthConfig
    → Option SubjectField
    → Option JsonValue
    → Outcome AuthCheck
check_subject engine now req cfg none body = returns passed
check_subject engine now req cfg (some spec) body =
    check_with engine now req cfg (given cfg.caller_jwt_secret)
      (codes
        "this route acts on behalf of a party and requires a valid X-Caller-Token (per-caller party JWT)")
      (codes "caller may only act for its own party")
      (λ caller. is_text caller (subject_party spec body))

unfoldable pub check_caller_binding :
    Engine → ℕ → Request → CallerAuthConfig → Str → Option JsonValue → Outcome AuthCheck
check_caller_binding engine now req cfg route_key body =
    check_subject engine now req cfg (lookup route_key subject_party_by_route) body

unfoldable pub check_caller_read : Engine → ℕ → Request → CallerAuthConfig → Str → Outcome AuthCheck
check_caller_read engine now req cfg subject =
    check_with engine now req cfg (given cfg.caller_jwt_secret)
      (codes "this private read requires a valid X-Caller-Token (per-caller party JWT)")
      (codes "caller may only read records for its own party") (λ caller. caller === subject)
