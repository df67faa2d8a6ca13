-- ===== src/Http/Validate.antt =====
-- services/operator-backend/src/http/validate.ts: the checks on the JSON body of a write. The
-- setting DEX_ALLOW_BARE_PARTIES is an argument, and a ValidationError keeps its message without the
-- field's name.
pub mod Routes
pub mod Decimals
pub mod Checked
use canton_dex_reference_imp.Prelude.{
  ℕ, ◌==◌, leb, Bool, true, false, not, ◌&&◌, ◌||◌, Option, none, some, List, [], ◌∷◌, length, any,
  if◌then◌else◌,
}
use canton_dex_reference_imp.Prelude.Outcome.{
  Outcome, returns, throws, validation_error, ◌>>=◌, ◌>>◌, throw_if,
}
use canton_dex_reference_imp.Prelude.Text.{Str, codes}
use canton_dex_reference_imp.Prelude.Assoc.{lookup}
use canton_dex_reference_imp.Digits.{is_space}
use canton_dex_reference_imp.Json.{
  JsonValue, JsonFields, null, boolean, number, string, array, object, get_field, is_given,
}
use canton_dex_reference_imp.Pool.Tolerance.{is_digit, is_decimal_text}

-- `DECIMAL_RE.test(s)`; behind the sign the pattern is the one of `is_decimal_text`.
unfoldable pub is_daml_decimal : Str → Bool
is_daml_decimal [] = false
is_daml_decimal (c ∷ s) = if c == b'-' then is_decimal_text s else is_decimal_text (c ∷ s)

-- `[A-Za-z0-9_-]`
unfoldable pub is_hint_char : ℕ → Bool
is_hint_char c =
    leb b'A' c && leb c b'Z' || leb b'a' c && leb c b'z' || is_digit c || c == b'_' || c == b'-'

-- `[0-9a-fA-F]`
unfoldable pub is_hex_char : ℕ → Bool
is_hex_char c = is_digit c || leb b'a' c && leb c b'f' || leb b'A' c && leb c b'F'

unfoldable pub all_hex : Str → Bool
all_hex [] = true
all_hex (c ∷ s) = is_hex_char c && all_hex s

-- `:[0-9a-fA-F]{8,}$`, what follows the first colon.
unfoldable pub fingerprint : Str → Bool
fingerprint [] = false
fingerprint (c ∷ s) = c == b':' && leb 8 (length s) && all_hex s

-- `[A-Za-z0-9_-]*::[0-9a-fA-F]{8,}$`; no colon is a character of the hint.
unfoldable pub hint_then_fingerprint : Str → Bool
hint_then_fingerprint [] = false
hint_then_fingerprint (c ∷ s) =
    if c == b':' then fingerprint s else is_hint_char c && hint_then_fingerprint s

-- `STRICT_PARTY_RE.test(s)`
unfoldable pub is_strict_party : Str → Bool
is_strict_party [] = false
is_strict_party (c ∷ s) = is_hint_char c && hint_then_fingerprint s

unfoldable pub no_space : Str → Bool
no_space [] = true
no_space (c ∷ s) = not (is_space c) && no_space s

-- `/^\S+$/.test(s)`: BARE_PARTY_RE and CID_RE.
unfoldable pub is_word : Str → Bool
is_word [] = false
is_word (c ∷ s) = no_space (c ∷ s)

-- `typeof v === "string" && p(v)`
unfoldable pub is_string_with : (Str → Bool) → Option JsonValue → Bool
is_string_with p none = false
is_string_with p (some null) = false
is_string_with p (some (boolean b)) = false
is_string_with p (some (number m k)) = false
is_string_with p (some (string s)) = p s
is_string_with p (some (array xs)) = false
is_string_with p (some (object fs)) = false

unfoldable pub party_matches : Bool → Option JsonValue → Bool
party_matches allow_bare v = is_string_with (λ s. is_strict_party s || allow_bare && is_word s) v

unfoldable pub is_decimal_string : Option JsonValue → Bool
is_decimal_string v = is_string_with is_daml_decimal v

unfoldable pub is_party_string : Bool → Option JsonValue → Bool
is_party_string allow_bare v = party_matches allow_bare v

unfoldable pub is_cid_string : Option JsonValue → Bool
is_cid_string v = is_string_with is_word v

unfoldable pub as_object : Option JsonValue → Outcome JsonFields
as_object none = throws (validation_error "expected a JSON object body")
as_object (some null) = throws (validation_error "expected a JSON object body")
as_object (some (boolean b)) = throws (validation_error "expected a JSON object body")
as_object (some (number m k)) = throws (validation_error "expected a JSON object body")
as_object (some (string s)) = throws (validation_error "expected a JSON object body")
as_object (some (array xs)) = throws (validation_error "expected a JSON object body")
as_object (some (object fs)) = returns fs

-- The loops over a spec's field names: each check in turn, the first that throws ends it.
unfoldable pub each_field : (Str → Outcome (Unit {0})) → List Str → Outcome (Unit {0})
each_field check [] = returns tt
each_field check (f ∷ fs) = check f >> each_field check fs

unfoldable pub require_field : JsonFields → Str → Outcome (Unit {0})
require_field obj f =
    throw_if (not (is_given (get_field f obj))) (validation_error "missing required field")

unfoldable pub require_fields : Option JsonValue → List Str → Outcome JsonFields
require_fields o fields = do obj ← as_object o; each_field (require_field obj) fields; returns obj

unfoldable pub validate_decimal : JsonFields → Str → Outcome (Unit {0})
validate_decimal o f =
    throw_if (not (is_string_with is_daml_decimal (get_field f o)))
      (validation_error "field must be a Daml Decimal string")

unfoldable pub validate_party : Bool → JsonFields → Str → Outcome (Unit {0})
validate_party allow_bare o f =
    throw_if (not (party_matches allow_bare (get_field f o)))
      (validation_error "field must be a canonical Canton party id (hint::fingerprint)")

unfoldable pub validate_cid : JsonFields → Str → Outcome (Unit {0})
validate_cid o f =
    throw_if (not (is_string_with is_word (get_field f o)))
      (validation_error "field must be a contract id")

abbrev pub not_empty : Str → Bool
not_empty [] = false
not_empty (c ∷ s) = true

-- An object's fields, where the value is one: not null and not an array.
abbrev pub as_instrument : Option JsonValue → Outcome JsonFields
as_instrument (some (object fs)) = returns fs
as_instrument _ = throws (validation_error "field must be an InstrumentId {admin, id}")

unfoldable pub validate_instrument_id : Bool → JsonFields → Str → Outcome (Unit {0})
validate_instrument_id allow_bare o f = do
  iid ← as_instrument (get_field f o)
  throw_if (not (party_matches allow_bare (get_field (codes "admin") iid)))
      (validation_error "field.admin must be a canonical Canton party id (hint::fingerprint)")
  throw_if (not (is_string_with not_empty (get_field (codes "id") iid)))
      (validation_error "field.id must be a non-empty instrument id")

-- A list that the source leaves out is empty, but `any_of`, which then is not tested.
pub record RouteSpec : Type 0 where
  pub required : List Str
  pub any_of : Option (List Str)
  pub decimals : List Str
  pub parties : List Str
  pub cids : List Str
  pub instrument_ids : List Str

-- `spec.anyOf && !spec.anyOf.some((f) => obj[f] !== undefined && obj[f] !== null)`
unfoldable pub lacks_any_of : Option (List Str) → JsonFields → Bool
lacks_any_of none obj = false
lacks_any_of (some fs) obj = not (any (λ f. is_given (get_field f obj)) fs)

-- What `validateWriteBody` does with the spec of the route, if it has one.
unfoldable pub validate_body : Bool → Option RouteSpec → Option JsonValue → Outcome (Unit {0})
validate_body allow_bare none body = returns tt
validate_body allow_bare (some spec) body = do
  obj ← require_fields body spec.required
  throw_if (lacks_any_of spec.any_of obj)
      (validation_error "at least one of these fields is required")
  each_field (validate_decimal obj) spec.decimals
  each_field (validate_party allow_bare obj) spec.parties
  each_field (validate_cid obj) spec.cids
  each_field (validate_instrument_id allow_bare obj) spec.instrument_ids
