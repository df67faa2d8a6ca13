-- ===== src/Session/Keys.antt =====
-- services/operator-backend/src/session/index.ts: a wallet's public key, and the fingerprints that it
-- may have in a party id.
use canton_dex_reference_imp.Prelude.{
  ℕ, ◌+◌, ◌%◌, ◌/◌, ◌^◌, ◌==◌, leb, Bool, false, ◌&&◌, Option, none, some, List, [], ◌∷◌, ◌++◌, map,
  length, take, drop, if◌then◌else◌,
}
use canton_dex_reference_imp.Prelude.Text.{Str, codes, ◌===◌}
use canton_dex_reference_imp.Http.Auth.{strip_prefix}
use canton_dex_reference_imp.Http.Token.{base64_url_decode}
use canton_dex_reference_imp.Http.Validate.{all_hex}
use canton_dex_reference_imp.Session.{SessionEngine}

-- What follows the first `::`.
unfoldable pub namespace_fingerprint : Str → Option Str
namespace_fingerprint [] = none
namespace_fingerprint (c ∷ []) = none
namespace_fingerprint (c ∷ d ∷ s) =
    let rest = namespace_fingerprint (d ∷ s) in if c == b':' && d == b':' then some s else rest

-- `lower.startsWith(MULTIHASH_SHA256_PREFIX) ? lower.slice(4) : lower`
unfoldable pub without_multihash : Str → Str
without_multihash lower = elim (strip_prefix (codes "1220") lower) [
  | none ↦ lower
  | some digest ↦ digest
]

unfoldable pub digest_of : SessionEngine → Option Str → Option Str
digest_of engine none = none
digest_of engine (some []) = none
digest_of engine (some (c ∷ s)) = some (without_multihash (engine.to_lower_case (c ∷ s)))

unfoldable pub fingerprint_digest : SessionEngine → Str → Option Str
fingerprint_digest engine party_id = digest_of engine (namespace_fingerprint party_id)

abbrev if_any : List ℕ → Option (List ℕ)
if_any [] = none
if_any (b ∷ bs) = some (b ∷ bs)

-- `s.length > 0 && s.length % 2 === 0 && /^[0-9a-fA-F]+$/.test(s)`
unfoldable pub is_hex : Str → Bool
is_hex [] = false
is_hex (c ∷ s) = length (c ∷ s) % 2 == 0 && all_hex (c ∷ s)

-- `Buffer.from(s, "hex")` or `Buffer.from(s, "base64")` of a hex or another text.
unfoldable pub decode_bytes : SessionEngine → Str → Option (List ℕ)
decode_bytes engine s =
    if is_hex s then some (engine.from_hex s) else if_any (base64_url_decode engine.token_engine s)

unfoldable pub spki_ed25519_prefix : List ℕ
spki_ed25519_prefix =
    0x30 ∷ 0x2a ∷ 0x30 ∷ 0x5 ∷ 0x6 ∷ 0x3 ∷ 0x2b ∷ 0x65 ∷ 0x70 ∷ 0x3 ∷ 0x21 ∷ 0x0 ∷ []

pub record KeyMaterial : Type 0 where
  pub key_object : Option (List ℕ)
  pub raw32 : Option (List ℕ)
  pub der : Option (List ℕ)

unfoldable pub try_public_key : SessionEngine → List ℕ → Option (List ℕ)
try_public_key engine der = if engine.is_public_key der then some der else none

-- The key of 32 bytes, the key in its DER form, or some other key.
unfoldable pub key_material : SessionEngine → List ℕ → KeyMaterial
key_material engine decoded =
    if length decoded == 32
    then record {
      key_object = try_public_key engine (spki_ed25519_prefix ++ decoded);
      raw32 = some decoded;
      der = some (spki_ed25519_prefix ++ decoded);
    }
    else if leb (length spki_ed25519_prefix + 32) (length decoded)
        && take (length spki_ed25519_prefix) decoded === spki_ed25519_prefix
    then record {
      key_object = try_public_key engine decoded;
      raw32 = some (take 32 (drop (length spki_ed25519_prefix) decoded));
      der = some decoded;
    }
    else record { key_object = try_public_key engine decoded; raw32 = none; der = some decoded }

abbrev pub no_material : KeyMaterial
no_material = record { key_object = none; raw32 = none; der = none }

unfoldable pub material_of : SessionEngine → Option (List ℕ) → KeyMaterial
material_of engine none = no_material
material_of engine (some decoded) = key_material engine decoded

abbrev pub hash_purposes : List ℕ
hash_purposes = 12 ∷ 11 ∷ 13 ∷ 0 ∷ 1 ∷ 2 ∷ 3 ∷ 4 ∷ 5 ∷ 6 ∷ 7 ∷ 8 ∷ []

-- Four bytes, the highest first, before the body.
unfoldable pub purpose_prefixed : ℕ → List ℕ → List ℕ
purpose_prefixed purpose body =
    (purpose / 2 ^ 24) % 256
    ∷ (purpose / 2 ^ 16) % 256
    ∷ (purpose / 2 ^ 8) % 256
    ∷ purpose % 256
    ∷ body

-- `sha256Hex` of each form of a key, with its label left out.
unfoldable pub raw_candidates : SessionEngine → Option (List ℕ) → List Str
raw_candidates engine none = []
raw_candidates engine (some raw32) =
    engine.sha256_hex raw32
    ∷ engine.sha256_hex (0xed ∷ 0x01 ∷ raw32)
    ∷ map (λ p. engine.sha256_hex (purpose_prefixed p raw32)) hash_purposes

unfoldable pub der_candidates : SessionEngine → Option (List ℕ) → List Str
der_candidates engine none = []
der_candidates engine (some der) =
    engine.sha256_hex der ∷ map (λ p. engine.sha256_hex (purpose_prefixed p der)) hash_purposes

abbrev decoded_candidates : SessionEngine → Option (List ℕ) → Option (List ℕ) → List ℕ → List Str
decoded_candidates engine none none decoded = engine.sha256_hex decoded ∷ []
decoded_candidates engine _ _ decoded = []

unfoldable pub fingerprint_candidates :
    SessionEngine → Option (List ℕ) → Option (List ℕ) → List ℕ → List Str
fingerprint_candidates engine raw32 der decoded =
    raw_candidates engine raw32
    ++ (der_candidates engine der ++ decoded_candidates engine raw32 der decoded)
