-- ===== src/Http/Token/Throws.antt =====
-- When `verifyHs256` of services/operator-backend/src/http/caller-auth.ts throws.
use canton_dex_reference_imp.Prelude.{
  ℕ, ◌≡◌, refl, Bool, true, false, not, Option, none, some, inl, inr, ◌⊎◌, List, [], ◌∷◌,
  if◌then◌else◌,
}
use canton_dex_reference_imp.Prelude.Outcome.{Outcome, returns, throws, Thrown, >>=-eq-throws}
use canton_dex_reference_imp.Prelude.Text.{Str, codes}
use canton_dex_reference_imp.Digits.{split_dot}
use canton_dex_reference_imp.Json.{JsonValue, null, boolean, number, string, array, object, is_text}
use canton_dex_reference_imp.Http.Token.{
  Engine, VerifyOptions, base64_url_decode, read_member, check_claims, check_payload, check_signed,
  check_alg, check_header, verify_parts, verify_hs256,
}

read_member-null :
    (name : Str) (v : JsonValue) {e : Thrown} → read_member name v ≡ throws e → v ≡ null
unfolding read_member
read_member-null name null h = refl
read_member-null name (boolean b) h = cc
read_member-null name (number m k) h = cc
read_member-null name (string s) h = cc
read_member-null name (array xs) h = cc
read_member-null name (object fs) h = cc

-- A test that answers null does not throw.
unless_throws {ℓ} :
    {A : Type ℓ} (c : Bool) (m : Outcome (Option A)) {e : Thrown}
    → (if c then returns none else m) ≡ throws e
    → m ≡ throws e
unless_throws true m h = cc
unless_throws false m h = h

check_header-throws :
    (parsed : Option JsonValue) (signed : Outcome (Option JsonValue)) {e : Thrown}
    → check_header parsed signed ≡ throws e
    → (parsed ≡ some null) ⊎ (signed ≡ throws e)
unfolding check_header check_alg
check_header-throws none signed h = absurd (cc)
check_header-throws (some head) signed h =
    elim (>>=-eq-throws (read_member (codes "alg") head) (λ alg. check_alg alg signed) h) [
      | inl null_head ↦ inl (rw (read_member-null (codes "alg") head null_head) refl)
      | inr (alg, read, rest) ↦ inr (unless_throws (not (is_text (codes "HS256") alg)) signed rest)
    ]

check_payload-throws :
    (now : ℕ) (opts : VerifyOptions) (parsed : Option JsonValue) {e : Thrown}
    → check_payload now opts parsed ≡ throws e
    → parsed ≡ some null
unfolding check_payload check_claims
check_payload-throws now opts none h = absurd (cc)
check_payload-throws now opts (some payload) h =
    elim (>>=-eq-throws (read_member (codes "typ") payload) _ h) [
      | inl null_payload ↦ rw (read_member-null (codes "typ") payload null_payload) refl
      | inr (typ, read, rest) ↦ absurd (cc)
    ]

verify_parts-throws :
    (engine : Engine) (now : ℕ) (secret : Str) (opts : VerifyOptions) (parts : List Str)
    {e : Thrown}
    → verify_parts engine now secret opts parts ≡ throws e
    → (header : Str) × (payload : Str) × (sig : Str) × (parts ≡ header ∷ payload ∷ sig ∷ [])
      × ((engine.parse_json (base64_url_decode engine header) ≡ some null)
          ⊎ (engine.parse_json (base64_url_decode engine payload) ≡ some null))
unfolding verify_parts check_signed
verify_parts-throws engine now secret opts [] h = absurd (cc)
verify_parts-throws engine now secret opts (a ∷ []) h = absurd (cc)
verify_parts-throws engine now secret opts (a ∷ b ∷ []) h = absurd (cc)
verify_parts-throws engine now secret opts (a ∷ b ∷ c ∷ d ∷ rest) h = absurd (cc)
verify_parts-throws engine now secret opts (header ∷ payload ∷ sig ∷ []) h = (
  header,
  payload,
  sig,
  refl,
  elim (check_header-throws (engine.parse_json (base64_url_decode engine header))
      (check_signed engine now secret opts header payload sig) h) [
        | inl null_header ↦ inl null_header
        | inr signed ↦ inr (
            check_payload-throws now opts (engine.parse_json (base64_url_decode engine payload))
              (unless_throws _ _ signed))
      ],
)

-- A verification that throws has a token of three parts whose header or whose payload is JSON null.
pub verify_hs256-throws :
    (engine : Engine) (now : ℕ) (token secret : Str) (opts : VerifyOptions) (e : Thrown)
    → verify_hs256 engine now token secret opts ≡ throws e
    → (header : Str) × (payload : Str) × (sig : Str) × (split_dot token
        ≡ header ∷ payload ∷ sig ∷ [])
      × ((engine.parse_json (base64_url_decode engine header) ≡ some null)
          ⊎ (engine.parse_json (base64_url_decode engine payload) ≡ some null))
unfolding verify_hs256
verify_hs256-throws engine now token secret opts e h =
    verify_parts-throws engine now secret opts (split_dot token) h
