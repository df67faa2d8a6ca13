-- ===== src/Http/Token/Verified.antt =====
-- What a token has that `verifyHs256` of services/operator-backend/src/http/caller-auth.ts accepts.
use canton_dex_reference_imp.Prelude.{
  true_of_not, ℕ, ◌≡◌, refl, Bool, true, false, not, Option, none, some, List, [], ◌∷◌, ◌++◌,
  if◌then◌else◌, ap,
}
use canton_dex_reference_imp.Prelude.Outcome.{Outcome, returns, >>=-eq-returns, returns-injective}
use canton_dex_reference_imp.Prelude.Text.{Str, codes}
use canton_dex_reference_imp.Prelude.Assoc.{some-injective}
use canton_dex_reference_imp.Digits.{split_dot}
use canton_dex_reference_imp.Json.{
  JsonValue, null, boolean, number, string, array, object, member, is_text,
}
use canton_dex_reference_imp.Http.Auth.{same_bytes}
use canton_dex_reference_imp.Http.Auth.Gate.{same_bytes-eq}
use canton_dex_reference_imp.Http.Token.{
  Engine, VerifyOptions, base64_url_decode, read_member, exp_refuses, audience_ok, check_claims,
  check_payload, check_signed, check_alg, check_header, verify_parts, verify_hs256,
}

pub record IsVerified (engine : Engine) (now : ℕ) (token secret : Str) (opts : VerifyOptions)
    (claims : JsonValue) : Type 0 where
  pub header : Str
  pub payload : Str
  pub sig : Str
  pub three_parts : split_dot token ≡ header ∷ payload ∷ sig ∷ []
  pub head : JsonValue
  pub head_parsed : engine.parse_json (base64_url_decode engine header) ≡ some head
  pub alg : is_text (codes "HS256") (member (codes "alg") head) ≡ true
  pub signed : engine.hmac secret (header ++ b'.' ∷ payload) ≡ base64_url_decode engine sig
  pub claims_parsed : engine.parse_json (base64_url_decode engine payload) ≡ some claims
  pub no_bootstrap : is_text (codes "dex-bootstrap") (member (codes "typ") claims) ≡ false
  pub not_expired : exp_refuses opts.require_exp now (member (codes "exp") claims) ≡ false
  pub audience : audience_ok opts.audience (member (codes "aud") claims) ≡ true

read_member-member :
    (name : Str) (v : JsonValue) {m : Option JsonValue}
    → read_member name v ≡ returns m
    → member name v ≡ m
unfolding read_member member
read_member-member name null h = cc
read_member-member name (boolean b) h = returns-injective h
read_member-member name (number m k) h = returns-injective h
read_member-member name (string s) h = returns-injective h
read_member-member name (array xs) h = returns-injective h
read_member-member name (object fs) h = returns-injective h

-- What a test that answers null lets pass.
unless_none {ℓ} :
    {A : Type ℓ} (c : Bool) (m : Outcome (Option A)) {a : A}
    → (if c then returns none else m) ≡ returns (some a)
    → (c ≡ false) × (m ≡ returns (some a))
unless_none true m h = absurd (cc (returns-injective h))
unless_none false m h = (refl, h)

abbrev IsAccepted : ℕ → VerifyOptions → JsonValue → Type 0
IsAccepted now opts claims =
    (is_text (codes "dex-bootstrap") (member (codes "typ") claims) ≡ false)
    × (exp_refuses opts.require_exp now (member (codes "exp") claims) ≡ false)
    × (audience_ok opts.audience (member (codes "aud") claims) ≡ true)

keeps_claims :
    (a b c : Bool) (payload : JsonValue) {claims : JsonValue}
    → (if a then none else if b then none else if not c then none else some payload) ≡ some claims
    → (payload ≡ claims) × (a ≡ false) × (b ≡ false) × (c ≡ true)
keeps_claims true b c payload h = cc
keeps_claims false true c payload h = cc
keeps_claims false false true payload h = (some-injective h, refl, refl, refl)
keeps_claims false false false payload h = cc

check_claims-IsAccepted :
    (now : ℕ) (opts : VerifyOptions) (payload : JsonValue) {claims : JsonValue}
    → check_claims now opts payload ≡ returns (some claims)
    → (payload ≡ claims) × IsAccepted now opts payload
unfolding check_claims
check_claims-IsAccepted now opts payload h =
    let (typ, read, rest) = >>=-eq-returns (read_member (codes "typ") payload) _ h in
    let (same, a, b, c) = keeps_claims _ _ _ payload (returns-injective rest) in
    (same, (rw (read_member-member (codes "typ") payload read) a, b, c))

check_payload-IsAccepted :
    (now : ℕ) (opts : VerifyOptions) (parsed : Option JsonValue) {claims : JsonValue}
    → check_payload now opts parsed ≡ returns (some claims)
    → (parsed ≡ some claims) × IsAccepted now opts claims
unfolding check_payload
check_payload-IsAccepted now opts none h = absurd (cc (returns-injective h))
check_payload-IsAccepted now opts (some payload) h =
    let (same, accepted) = check_claims-IsAccepted now opts payload h in
    (ap some same, rw (← same) accepted)

check_header-alg :
    (parsed : Option JsonValue) (signed : Outcome (Option JsonValue)) {claims : JsonValue}
    → check_header parsed signed ≡ returns (some claims)
    → (head : JsonValue) × (parsed ≡ some head)
      × (is_text (codes "HS256") (member (codes "alg") head) ≡ true)
      × (signed ≡ returns (some claims))
unfolding check_header check_alg
check_header-alg none signed h = absurd (cc (returns-injective h))
check_header-alg (some head) signed h =
    let (alg, read, rest) = >>=-eq-returns (read_member (codes "alg") head) _ h in
    let (tested, goes_on) = unless_none (not (is_text (codes "HS256") alg)) signed rest in
    (
      head,
      refl,
      rw (read_member-member (codes "alg") head read)
          (true_of_not (is_text (codes "HS256") alg) tested),
      goes_on,
    )

verify_parts-IsVerified :
    (engine : Engine) (now : ℕ) (token secret : Str) (opts : VerifyOptions) (parts : List Str)
    {claims : JsonValue}
    → split_dot token ≡ parts
    → verify_parts engine now secret opts parts ≡ returns (some claims)
    → IsVerified engine now token secret opts claims
unfolding verify_parts check_signed
verify_parts-IsVerified engine now token secret opts [] split h = absurd (cc (returns-injective h))
verify_parts-IsVerified engine now token secret opts (a ∷ []) split h =
    absurd (cc (returns-injective h))
verify_parts-IsVerified engine now token secret opts (a ∷ b ∷ []) split h =
    absurd (cc (returns-injective h))
verify_parts-IsVerified engine now token secret opts (a ∷ b ∷ c ∷ d ∷ rest) split h =
    absurd (cc (returns-injective h))
verify_parts-IsVerified engine now token secret opts (header ∷ payload ∷ sig ∷ []) split h =
    let (head, head_parsed, alg, signed) = check_header-alg _ _ h in
    let (same, accepted) =
      unless_none
        (not (
          same_bytes (engine.hmac secret (header ++ b'.' ∷ payload))
            (base64_url_decode engine sig)))
        _ signed in
    let (parsed, (no_bootstrap, not_expired, audience)) =
      check_payload-IsAccepted now opts _ accepted in
    record {
      header = header;
      payload = payload;
      sig = sig;
      three_parts = split;
      head = head;
      head_parsed = head_parsed;
      alg = alg;
      signed = same_bytes-eq _ _ (true_of_not _ same);
      claims_parsed = parsed;
      no_bootstrap = no_bootstrap;
      not_expired = not_expired;
      audience = audience;
    }

pub verify_hs256-IsVerified :
    (engine : Engine) (now : ℕ) (token secret : Str) (opts : VerifyOptions) {claims : JsonValue}
    → verify_hs256 engine now token secret opts ≡ returns (some claims)
    → IsVerified engine now token secret opts claims
unfolding verify_hs256
verify_hs256-IsVerified engine now token secret opts h =
    verify_parts-IsVerified engine now token secret opts (split_dot token) refl h
