-- ===== src/Examples/Security.antt =====
-- The theorems on the checks of requests at concrete inputs.
use canton_dex_reference_imp.Prelude.{
  ℕ, ◌≡◌, refl, ◌≤◌, ◌*◌, arith, true, false, ◌↔◌, ◌⊎◌, Option, none, some, List, [], ◌∷◌, length,
  if◌then◌else◌,
}
use canton_dex_reference_imp.Prelude.Int.{pos}
use canton_dex_reference_imp.Prelude.Outcome.{returns, throws}
use canton_dex_reference_imp.Prelude.Text.{Str, codes, ◌===◌}
use canton_dex_reference_imp.Prelude.Assoc.{lookup, insert}
use canton_dex_reference_imp.Json.{
  JsonValue, JsonFields, null, number, string, object, no_fields, field, get_field, is_given,
  member, is_text, includes_text,
}
use canton_dex_reference_imp.Digits.{split_dot}
use canton_dex_reference_imp.Http.Validate.{
  RouteSpec, validate_body, require_fields, require_field, as_object, each_field, validate_decimal,
  is_daml_decimal, is_string_with, lacks_any_of,
}
use canton_dex_reference_imp.Http.Validate.Routes.{write_specs, validate_write_body}
use canton_dex_reference_imp.Http.Validate.Checked.{IsChecked, validate_write_body-IsChecked}
use canton_dex_reference_imp.Http.Auth.{
  HeaderValue, absent, one, Request, passed, refused, given, OperatorAuthConfig, is_operator_write,
  method_of, check_operator_auth, check_admin_auth, has, write_methods, starts_with, strip_prefix,
  operator_write_exact, check_bearer, bearer_matches, same_bytes, operator_write_patterns,
  cancel_of, segment_then_cancel,
}
use canton_dex_reference_imp.Http.Auth.Routes.{IsWrite, IsOperatorPath, IsAdminPath}
use canton_dex_reference_imp.Http.Auth.Gate.{IsAdmitted, gates-IsAdmitted}
use canton_dex_reference_imp.Http.Token.{
  Engine, VerifyOptions, base64_url_decode, null_error, verify_hs256, verify_parts, check_header,
  read_member, audience_matches, audience_ok, check_alg, check_claims, check_payload, check_signed,
  exp_refuses, is_past,
}
use canton_dex_reference_imp.Http.Token.Throws.{verify_hs256-throws}
use canton_dex_reference_imp.Http.CallerAuth.{
  CallerAuthConfig, body_field, subject_party, subject_party_by_route, check_caller_binding,
  check_subject, check_with, caller_party_from_request, caller_party, header_text, bare_token,
  caller_options, check_caller, member_of, party_of_claims, party_of_sub,
}
use canton_dex_reference_imp.Http.CallerAuth.Bound.{IsCaller, check_caller_binding-IsCaller}
use canton_dex_reference_imp.Http.RateLimit.{
  RateLimitRule, new_limiter, take_token, token, spend, refill, swept,
}
use canton_dex_reference_imp.Http.RateLimit.Bound.{Attempt, count_allowed, count_allowed-IsBounded}
use canton_dex_reference_imp.Pool.Tolerance.{is_decimal_text}

abbrev quote_fields : JsonFields
quote_fields = field (codes "poolId") (string (codes "p1")) (
    field (codes "inputInstrumentId") (string (codes "BTC"))
      (field (codes "inputAmount") (string (codes "1.5")) no_fields))

abbrev quote_spec : RouteSpec
quote_spec = record {
  required = codes "inputInstrumentId" ∷ codes "inputAmount" ∷ [];
  any_of = some (codes "poolCid" ∷ codes "poolId" ∷ []);
  decimals = codes "inputAmount" ∷ [];
  parties = [];
  cids = [];
  instrument_ids = [];
}

quote_listed : lookup (codes "POST /v1/swaps/quote") write_specs ≡ some quote_spec
unfolding lookup write_specs ◌===◌
quote_listed = refl

quote_passes :
    validate_write_body false (codes "POST /v1/swaps/quote") (some (object quote_fields))
    ≡ returns tt
unfolding validate_write_body validate_body lookup write_specs ◌===◌ require_fields as_object
    each_field require_field is_given get_field lacks_any_of validate_decimal is_string_with
    is_daml_decimal is_decimal_text
quote_passes = refl

validate_write_body-IsChecked_example :
    (obj : JsonFields) × (some (object quote_fields) ≡ some (object obj))
    × IsChecked false quote_spec obj
validate_write_body-IsChecked_example =
    validate_write_body-IsChecked false (codes "POST /v1/swaps/quote") quote_spec
      (some (object quote_fields)) quote_listed quote_passes

-- The bytes of an ASCII text.
abbrev ascii : Str → List ℕ
ascii s = s

abbrev bearer : HeaderValue
bearer = one (codes "Bearer s3cret")

abbrev match_request : Request
match_request = record {
  request_method = some (codes "POST");
  authorization = bearer;
  x_caller_token = one (codes "Bearer h.p.x");
}

abbrev auth_config : OperatorAuthConfig
auth_config = record { operator_token = some (codes "s3cret"); dev_open = false }

gates-IsAdmitted_example :
    ((check_operator_auth ascii match_request auth_config (codes "/v1/orders/match") ≡ passed) ↔ (
      (¬ (IsWrite (codes "POST") × IsOperatorPath (codes "/v1/orders/match")))
      ⊎ IsAdmitted ascii bearer (given (some (codes "s3cret"))) false))
    × ((check_admin_auth ascii match_request none (codes "/v1/orders/match") ≡ passed) ↔ (
        (¬ (IsWrite (codes "POST") × IsAdminPath (codes "/v1/orders/match")))
        ⊎ IsAdmitted ascii bearer (given none) false))
unfolding method_of
gates-IsAdmitted_example =
    gates-IsAdmitted ascii match_request auth_config none (codes "/v1/orders/match")

match_passes :
    check_operator_auth ascii match_request auth_config (codes "/v1/orders/match") ≡ passed
unfolding check_operator_auth is_operator_write has write_methods ◌===◌ method_of starts_with
    strip_prefix operator_write_exact check_bearer given bearer_matches same_bytes
match_passes = refl

match_refused :
    check_operator_auth ascii
      (record {
        request_method = some (codes "POST");
        authorization = absent;
        x_caller_token = absent;
      })
      auth_config
      (codes "/v1/orders/o1/cancel")
    ≡ refused 401 (codes "unauthorized") (codes "missing or invalid operator token")
unfolding check_operator_auth is_operator_write has write_methods ◌===◌ method_of starts_with
    strip_prefix operator_write_exact operator_write_patterns cancel_of segment_then_cancel
    check_bearer given bearer_matches
match_refused = refl

-- Three texts that stand for JSON, and a signature that is the length of what is signed.
abbrev claims : JsonValue
claims = object (
    field (codes "sub") (string (codes "alice::1220abcdef"))
      (field (codes "exp") (number (pos 2_000) 0) no_fields))

abbrev parse : List ℕ → Option JsonValue
parse s =
    if s === codes "h"
    then some (object (field (codes "alg") (string (codes "HS256")) no_fields))
    else if s === codes "p"
    then some claims
    else if s === codes "n"
    then some null
    else none

abbrev engine : Engine
engine = record { base64 = λ s. s; hmac = λ secret s. length s ∷ []; parse_json = parse }

abbrev caller_config : CallerAuthConfig
caller_config = record { caller_jwt_secret = some (codes "k"); caller_jwt_audience = none }

abbrev rfq_body : Option JsonValue
rfq_body = some (object (field (codes "trader") (string (codes "alice::1220abcdef")) no_fields))

abbrev rfq_request : Request
rfq_request = record {
  request_method = some (codes "POST");
  authorization = absent;
  x_caller_token = one (104 ∷ 46 ∷ 112 ∷ 46 ∷ 3 ∷ []);
}

rfq_passes :
    check_caller_binding engine 1_000_000 rfq_request caller_config (codes "POST /v1/rfq") rfq_body
    ≡ returns passed
unfolding check_caller_binding check_subject lookup subject_party_by_route ◌===◌ check_with given
    caller_party_from_request caller_party header_text verify_hs256 verify_parts split_dot
    bare_token strip_prefix check_header base64_url_decode same_bytes caller_options check_caller
    member_of party_of_claims party_of_sub subject_party audience_matches audience_ok check_alg
    check_claims check_payload check_signed exp_refuses is_past read_member get_field includes_text
    is_text member
rfq_passes = refl

check_caller_binding-IsCaller_example :
    (party : Str) × (subject_party (body_field (codes "trader")) rfq_body ≡ some (string party))
    × IsCaller engine 1_000_000 rfq_request caller_config (codes "k") party
unfolding given lookup subject_party_by_route ◌===◌
check_caller_binding-IsCaller_example =
    check_caller_binding-IsCaller engine 1_000_000 rfq_request caller_config (codes "k")
      (codes "POST /v1/rfq") (body_field (codes "trader")) rfq_body refl refl rfq_passes

abbrev options : VerifyOptions
options = record { audience = none; require_exp = true }

-- The header is JSON null; nothing is signed.
null_header : verify_hs256 engine 0 (codes "n.p.x") (codes "k") options ≡ throws null_error
unfolding verify_hs256 verify_parts split_dot check_header ◌===◌ base64_url_decode read_member
null_header = refl

verify_hs256-throws_example :
    (header : Str) × (payload : Str) × (sig : Str) × (split_dot (codes "n.p.x")
      ≡ header ∷ payload ∷ sig ∷ [])
    × ((parse (base64_url_decode engine header) ≡ some null)
        ⊎ (parse (base64_url_decode engine payload) ≡ some null))
verify_hs256-throws_example =
    verify_hs256-throws engine 0 (codes "n.p.x") (codes "k") options null_error null_header

abbrev two_a_minute : Str → RateLimitRule
two_a_minute key = record { capacity = 2; refill_per_min = 2 }

abbrev attempt : ℕ → Attempt
attempt t = record { time = t; key = codes "ip" }

abbrev burst : List Attempt
burst = attempt 0 ∷ attempt 1 ∷ attempt 2 ∷ attempt 30_000 ∷ []

burst_allowed : count_allowed two_a_minute (codes "ip") new_limiter burst ≡ 3
unfolding ◌===◌ take_token spend refill lookup swept insert
burst_allowed = refl

count_allowed-IsBounded_example :
    token * count_allowed two_a_minute (codes "ip") new_limiter burst ≤ 180_000
count_allowed-IsBounded_example =
    count_allowed-IsBounded two_a_minute (codes "ip") [] burst 0 0 30_000 (omega arith)
      (omega arith) ((omega arith), ((omega arith), ((omega arith), ((omega arith), omega arith))))
