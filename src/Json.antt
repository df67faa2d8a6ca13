-- ===== src/Json.antt =====
-- JSON values as `JSON.parse` returns them: what the HTTP surface of
-- services/operator-backend/src/http reads from a request body or a token.
use canton_dex_reference_imp.Prelude.{ℕ, Bool, true, false, ◌||◌, Option, none, some, if◌then◌else◌}
use canton_dex_reference_imp.Prelude.Int.{ℤ}
use canton_dex_reference_imp.Prelude.Text.{Str, ◌===◌}

-- A number is the integer `m` over a power of ten, `number m k` for m / 10^k. An object has each
-- name once.
mutual
  pub data JsonValue : Type 0 where
    null : JsonValue
    boolean : Bool → JsonValue
    number : ℤ → ℕ → JsonValue
    string : Str → JsonValue
    array : JsonItems → JsonValue
    object : JsonFields → JsonValue

  pub data JsonItems : Type 0 where
    no_items : JsonItems
    item : JsonValue → JsonItems → JsonItems

  pub data JsonFields : Type 0 where
    no_fields : JsonFields
    field : Str → JsonValue → JsonFields → JsonFields

-- `o[name]` on an object; `none` is `undefined`.
unfoldable pub get_field : Str → JsonFields → Option JsonValue
get_field name no_fields = none
get_field name (field n v fs) = if n === name then some v else get_field name fs

-- `v.name` on a parsed value that is not null: only an object has fields of that kind.
unfoldable pub member : Str → JsonValue → Option JsonValue
member name null = none
member name (boolean b) = none
member name (number m k) = none
member name (string s) = none
member name (array xs) = none
member name (object fs) = get_field name fs

-- `v === s` for a text `s`
unfoldable pub is_text : Str → Option JsonValue → Bool
is_text s none = false
is_text s (some null) = false
is_text s (some (boolean b)) = false
is_text s (some (number m k)) = false
is_text s (some (string t)) = t === s
is_text s (some (array xs)) = false
is_text s (some (object fs)) = false

-- `xs.includes(s)` for a text `s`
unfoldable pub includes_text : Str → JsonItems → Bool
includes_text s no_items = false
includes_text s (item v xs) = is_text s (some v) || includes_text s xs

-- `v !== undefined && v !== null`
unfoldable pub is_given : Option JsonValue → Bool
is_given none = false
is_given (some null) = false
is_given (some (boolean b)) = true
is_given (some (number m k)) = true
is_given (some (string s)) = true
is_given (some (array xs)) = true
is_given (some (object fs)) = true
