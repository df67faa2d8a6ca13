-- ===== src/Http/Auth.antt =====
-- services/operator-backend/src/http/auth.ts: the bearer tokens that guard the writes. A request is
-- its method and the two headers that the checks read; `Buffer.from`, which turns a text into bytes,
-- is an argument.
pub mod Gate
pub mod Routes
use canton_dex_reference_imp.Prelude.{
  ℕ, ◌==◌, Bool, true, false, not, ◌&&◌, ◌||◌, Option, none, some, List, [], ◌∷◌, ◌++◌, length, any,
  if◌then◌else◌,
}
use canton_dex_reference_imp.Prelude.Text.{Str, codes, ◌===◌}

-- `string | string[] | undefined`
pub data HeaderValue : Type 0 where
  absent : HeaderValue
  one : Str → HeaderValue
  several : List Str → HeaderValue

pub record Request : Type 0 where
  pub request_method : Option Str
  pub authorization : HeaderValue
  pub x_caller_token : HeaderValue

pub data AuthCheck : Type 0 where
  passed : AuthCheck
  refused : ℕ → Str → Str → AuthCheck

unfoldable pub write_methods : List Str
write_methods = codes "POST" ∷ codes "PUT" ∷ codes "DELETE" ∷ codes "PATCH" ∷ []

unfoldable pub has : List Str → Str → Bool
has xs s = any (λ x. x === s) xs

-- What follows the prefix, `none` where the text does not start with it.
unfoldable pub strip_prefix : Str → Str → Option Str
strip_prefix [] s = some s
strip_prefix (p ∷ ps) [] = none
strip_prefix (p ∷ ps) (c ∷ s) = if p == c then strip_prefix ps s else none

abbrev pub is_some {ℓ} : {A : Type ℓ} → Option A → Bool
is_some none = false
is_some (some a) = true

unfoldable pub starts_with : Str → Str → Bool
starts_with p s = is_some (strip_prefix p s)

-- `timingSafeEqual` on buffers of one length is equality of their bytes.
unfoldable pub same_bytes : List ℕ → List ℕ → Bool
same_bytes a b = if not (length a == length b) then false else a === b

unfoldable pub bearer_matches : (Str → List ℕ) → HeaderValue → Str → Bool
bearer_matches bytes absent token = false
bearer_matches bytes (several hs) token = false
bearer_matches bytes (one h) token = same_bytes (bytes h) (bytes (codes "Bearer " ++ token))

-- `req.method ?? "GET"`
unfoldable pub method_of : Request → Str
method_of req = elim req.request_method [ none ↦ codes "GET" | some m ↦ m ]

-- A setting that is unset or empty.
unfoldable pub given : Option Str → Option Str
given none = none
given (some []) = none
given (some (c ∷ s)) = some (c ∷ s)

abbrev pub unauthorized : Str → AuthCheck
unauthorized message = refused 401 (codes "unauthorized") message

-- With a token set, the bearer header decides; without one, `otherwise`.
unfoldable pub check_bearer :
    (Str → List ℕ) → HeaderValue → Option Str → AuthCheck → Str → AuthCheck
check_bearer bytes header none otherwise message = otherwise
check_bearer bytes header (some token) otherwise message =
    if not (bearer_matches bytes header token) then unauthorized message else passed

unfoldable pub check_admin_auth : (Str → List ℕ) → Request → Option Str → Str → AuthCheck
check_admin_auth bytes req admin_token path =
    if not (starts_with (codes "/v1/admin/") path)
    then passed
    else if not (has write_methods (method_of req))
    then passed
    else check_bearer bytes req.authorization (given admin_token)
        (unauthorized (codes "admin writes require OPERATOR_ADMIN_TOKEN to be configured"))
        (codes "missing or invalid admin token")

unfoldable pub operator_write_exact : List Str
operator_write_exact =
    codes "/v1/wallet/submit"
    ∷ codes "/v1/orders/bind"
    ∷ codes "/v1/orders/fund"
    ∷ codes "/v1/orders/match"
    ∷ codes "/v1/matched-trades/request-allocations"
    ∷ codes "/v1/matched-trades/settle"
    ∷ codes "/v1/matched-trades/cancel"
    ∷ codes "/v1/rfq"
    ∷ codes "/v1/rfq/accept"
    ∷ []

-- `[^/]*\/cancel$`
unfoldable pub segment_then_cancel : Str → Bool
segment_then_cancel [] = false
segment_then_cancel (c ∷ s) = if c == b'/' then s === codes "cancel" else segment_then_cancel s

-- `[^/]+\/cancel$`
unfoldable pub cancel_of : Option Str → Bool
cancel_of none = false
cancel_of (some []) = false
cancel_of (some (c ∷ s)) = not (c == b'/') && segment_then_cancel s

unfoldable pub operator_write_patterns : Str → Bool
operator_write_patterns path =
    cancel_of (strip_prefix (codes "/v1/orders/") path)
    || cancel_of (strip_prefix (codes "/v1/rfq/") path)

unfoldable pub is_operator_write : Str → Str → Bool
is_operator_write method path =
    if not (has write_methods method)
    then false
    else if starts_with (codes "/v1/admin/") path
    then false
    else if has operator_write_exact path
    then true
    else operator_write_patterns path

pub record OperatorAuthConfig : Type 0 where
  pub operator_token : Option Str
  pub dev_open : Bool

unfoldable pub check_operator_auth : (Str → List ℕ) → Request → OperatorAuthConfig → Str → AuthCheck
check_operator_auth bytes req cfg path =
    if not (is_operator_write (method_of req) path)
    then passed
    else check_bearer bytes req.authorization (given cfg.operator_token)
        (if cfg.dev_open
          then passed
          else unauthorized (
              codes
                "state-changing routes require DEX_OPERATOR_API_TOKEN to be configured (or DEX_DEV_OPEN=1 for the dev server)"))
        (codes "missing or invalid operator token")
