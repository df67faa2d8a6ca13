-- ===== src/Http/Validate/Checked.antt =====
-- What the body of a write has once services/operator-backend/src/http/validate.ts has let it pass.
use canton_dex_reference_imp.Prelude.{
  ◌≡◌, refl, ap, Bool, true, false, not, Option, none, some, List, [], ◌∷◌, All,
}
use canton_dex_reference_imp.Prelude.Int.{ℤ}
use canton_dex_reference_imp.Prelude.Outcome.{
  Outcome, returns, throws, Thrown, ◌>>◌, throw_if, throw_if_passes, returns-injective,
  >>=-eq-returns,
}
use canton_dex_reference_imp.Prelude.Text.{Str, codes}
use canton_dex_reference_imp.Prelude.Assoc.{lookup}
use canton_dex_reference_imp.Decimal.{parse_decimal}
use canton_dex_reference_imp.Json.{
  JsonValue, JsonFields, null, boolean, number, string, array, object, get_field, is_given,
}
use canton_dex_reference_imp.Http.Validate.{
  RouteSpec, validate_body, require_fields, as_object, each_field, require_field, validate_decimal,
  validate_party, validate_cid, as_instrument, validate_instrument_id, not_empty, is_string_with,
  is_daml_decimal, lacks_any_of, party_matches, is_word,
}
use canton_dex_reference_imp.Http.Validate.Decimals.{daml_decimal-Reads}
use canton_dex_reference_imp.Http.Validate.Routes.{write_specs, validate_write_body}

-- A field that is a text which `parse_decimal` reads.
abbrev pub IsReadable : JsonFields → Str → Type 0
IsReadable obj f =
    (s : Str) × (get_field f obj ≡ some (string s)) × (z : ℤ) × (parse_decimal s ≡ returns z)

-- A field that is an object with a party as its admin and a text that is not empty as its id.
abbrev pub IsInstrument : Bool → JsonFields → Str → Type 0
IsInstrument allow_bare obj f =
    (iid : JsonFields) × (get_field f obj ≡ some (object iid))
    × (party_matches allow_bare (get_field (codes "admin") iid) ≡ true)
    × (is_string_with not_empty (get_field (codes "id") iid) ≡ true)

pub record IsChecked (allow_bare : Bool) (spec : RouteSpec) (obj : JsonFields) : Type 0 where
  pub required : All (λ f. is_given (get_field f obj) ≡ true) spec.required
  pub any_of : lacks_any_of spec.any_of obj ≡ false
  pub decimals : All (IsReadable obj) spec.decimals
  pub parties : All (λ f. party_matches allow_bare (get_field f obj) ≡ true) spec.parties
  pub instruments : All (IsInstrument allow_bare obj) spec.instrument_ids
  pub cids : All (λ f. is_string_with is_word (get_field f obj) ≡ true) spec.cids

throw_unless : (b : Bool) (e : Thrown) {u : Unit {0}} → throw_if (not b) e ≡ returns u → b ≡ true
throw_unless true e h = refl
throw_unless false e h = cc

sequence-eq-returns {κ} :
    {B : Type κ} (m : Outcome (Unit {0})) (k : Outcome B) {b : B}
    → (m >> k) ≡ returns b
    → (m ≡ returns tt) × (k ≡ returns b)
sequence-eq-returns (returns tt) k h = (refl, h)
sequence-eq-returns (throws e) k h = cc

each_field-All {ℓ} :
    (P : Str → Type ℓ) (check : Str → Outcome (Unit {0})) (fs : List Str)
    → ((f : Str) → check f ≡ returns tt → P f)
    → each_field check fs ≡ returns tt
    → All P fs
unfolding each_field
each_field-All P check [] one h = tt
each_field-All P check (f ∷ fs) one h =
    let (first, rest) = sequence-eq-returns (check f) (each_field check fs) h in
    (one f first, each_field-All P check fs one rest)

string_of :
    (p : Str → Bool) (v : Option JsonValue)
    → is_string_with p v ≡ true
    → (s : Str) × (v ≡ some (string s)) × (p s ≡ true)
unfolding is_string_with
string_of p none h = cc
string_of p (some null) h = cc
string_of p (some (boolean b)) h = cc
string_of p (some (number m k)) h = cc
string_of p (some (string s)) h = (s, refl, h)
string_of p (some (array xs)) h = cc
string_of p (some (object fs)) h = cc

decimal-IsReadable :
    (obj : JsonFields) (f : Str) → validate_decimal obj f ≡ returns tt → IsReadable obj f
unfolding validate_decimal
decimal-IsReadable obj f h =
    let passed = throw_unless (is_string_with is_daml_decimal (get_field f obj)) _ h in
    let (s, e, q) = string_of is_daml_decimal (get_field f obj) passed in
    let (z, r) = daml_decimal-Reads s q in (s, e, z, r)

object_of :
    (body : Option JsonValue) {obj : JsonFields}
    → as_object body ≡ returns obj
    → body ≡ some (object obj)
unfolding as_object
object_of none h = cc
object_of (some null) h = cc
object_of (some (boolean b)) h = cc
object_of (some (number m k)) h = cc
object_of (some (string s)) h = cc
object_of (some (array xs)) h = cc
object_of (some (object fs)) h = cc

as_instrument-object :
    (v : Option JsonValue) {iid : JsonFields}
    → as_instrument v ≡ returns iid
    → v ≡ some (object iid)
as_instrument-object none h = absurd (cc)
as_instrument-object (some null) h = absurd (cc)
as_instrument-object (some (boolean b)) h = absurd (cc)
as_instrument-object (some (number m k)) h = absurd (cc)
as_instrument-object (some (string s)) h = absurd (cc)
as_instrument-object (some (array xs)) h = absurd (cc)
as_instrument-object (some (object fs)) h = ap (λ o. some (object o)) (returns-injective h)

validate_instrument_id-IsInstrument :
    (allow_bare : Bool) (obj : JsonFields) (f : Str)
    → validate_instrument_id allow_bare obj f ≡ returns tt
    → IsInstrument allow_bare obj f
unfolding validate_instrument_id
validate_instrument_id-IsInstrument allow_bare obj f h =
    let (iid, read, rest) = >>=-eq-returns (as_instrument (get_field f obj)) _ h in
    let (admin, id) =
      sequence-eq-returns
        (throw_if (not (party_matches allow_bare (get_field (codes "admin") iid))) _) _ rest in
    (
      iid,
      as_instrument-object (get_field f obj) read,
      throw_unless (party_matches allow_bare (get_field (codes "admin") iid)) _ admin,
      throw_unless (is_string_with not_empty (get_field (codes "id") iid)) _ id,
    )

require_fields-given :
    (body : Option JsonValue) (fields : List Str) {obj : JsonFields}
    → require_fields body fields ≡ returns obj
    → (body ≡ some (object obj)) × All (λ f. is_given (get_field f obj) ≡ true) fields
unfolding require_fields require_field
require_fields-given body fields h =
    let (read, is_object, rest) = >>=-eq-returns (as_object body) _ h in
    let (present, same) =
      sequence-eq-returns (each_field (require_field read) fields) (returns read) rest in
    rw (← returns-injective same) (
      object_of body is_object,
      each_field-All (λ f. is_given (get_field f read) ≡ true) (require_field read) fields
          (λ f. throw_unless (is_given (get_field f read)) _) present,
    )

validate_body-IsChecked :
    (allow_bare : Bool) (spec : RouteSpec) (body : Option JsonValue)
    → validate_body allow_bare (some spec) body ≡ returns tt
    → (obj : JsonFields) × (body ≡ some (object obj)) × IsChecked allow_bare spec obj
unfolding validate_body validate_party validate_cid
validate_body-IsChecked allow_bare spec body h =
    let (obj, required, rest) = >>=-eq-returns (require_fields body spec.required) _ h in
    let (is_object, given) = require_fields-given body spec.required required in
    let (some_given, checks) = throw_if_passes (lacks_any_of spec.any_of obj) _ _ rest in
    let (read, checks₁) =
      sequence-eq-returns (each_field (validate_decimal obj) spec.decimals) _ checks in
    let (named, checks₂) =
      sequence-eq-returns (each_field (validate_party allow_bare obj) spec.parties) _ checks₁ in
    let (words, checks₃) =
      sequence-eq-returns (each_field (validate_cid obj) spec.cids) _ checks₂ in
    (
      obj,
      is_object,
      record {
        required = given;
        instruments =
            each_field-All (IsInstrument allow_bare obj) _ spec.instrument_ids
              (validate_instrument_id-IsInstrument allow_bare obj) checks₃;
        any_of = some_given;
        decimals = each_field-All (IsReadable obj) _ spec.decimals (decimal-IsReadable obj) read;
        parties =
            each_field-All _ _ spec.parties
              (λ f. throw_unless (party_matches allow_bare (get_field f obj)) _) named;
        cids =
            each_field-All _ _ spec.cids
              (λ f. throw_unless (is_string_with is_word (get_field f obj)) _) words;
      },
    )

-- A body that passes the checks of a route that has a spec is an object in which every required field
-- is given, one of the alternatives is given where the spec has any, every decimal field is a text
-- that `parse_decimal` reads without throwing, every party field is a party id, every contract field
-- a text without spaces, and every instrument field an object with a party as admin and an id.
pub validate_write_body-IsChecked :
    (allow_bare : Bool) (route_key : Str) (spec : RouteSpec) (body : Option JsonValue)
    → lookup route_key write_specs ≡ some spec
    → validate_write_body allow_bare route_key body ≡ returns tt
    → (obj : JsonFields) × (body ≡ some (object obj)) × IsChecked allow_bare spec obj
unfolding validate_write_body
validate_write_body-IsChecked allow_bare route_key spec body listed h =
    validate_body-IsChecked allow_bare spec body (rw listed at h)
