-- ===== src/Http/CallerAuth/Bound.antt =====
-- Whom services/operator-backend/src/http/caller-auth.ts lets act or read for a party.
use canton_dex_reference_imp.Prelude.{
  ℕ, ◌≡◌, refl, ap, Bool, true, Bool-cases, inl, inr, Option, none, some, [], ◌∷◌,
}
use canton_dex_reference_imp.Prelude.Outcome.{returns, >>=-eq-returns, returns-injective}
use canton_dex_reference_imp.Prelude.Text.{Str, codes, ◌===◌, ===→eq}
use canton_dex_reference_imp.Prelude.Assoc.{lookup, some-injective}
use canton_dex_reference_imp.Types.{Party}
use canton_dex_reference_imp.Json.{
  JsonValue, null, boolean, number, string, array, object, member, is_text,
}
use canton_dex_reference_imp.Http.Auth.{Request, passed, given}
use canton_dex_reference_imp.Http.Token.{Engine, verify_hs256}
use canton_dex_reference_imp.Http.Token.Verified.{IsVerified, verify_hs256-IsVerified}
use canton_dex_reference_imp.Http.CallerAuth.{
  CallerAuthConfig, SubjectField, subject_party_by_route, subject_party, header_text, bare_token,
  caller_options, party_of_sub, party_of_claims, caller_party, caller_party_from_request,
  check_caller, check_with, check_subject, check_caller_binding, check_caller_read,
}

-- The request carries a verified token whose `sub` is the party.
pub record IsCaller (engine : Engine) (now : ℕ) (req : Request) (cfg : CallerAuthConfig)
    (secret : Str) (party : Party) : Type 0 where
  pub header : Str
  pub header_given : header_text req.x_caller_token ≡ some header
  pub claims : JsonValue
  pub verified : IsVerified engine now (bare_token header) secret (caller_options cfg) claims
  pub sub : member (codes "sub") claims ≡ some (string party)

given-some : (s : Str) {t : Str} → given (some s) ≡ some t → s ≡ t
unfolding given
given-some [] h = cc
given-some (c ∷ s) h = some-injective h

party_of_sub-string :
    (v : Option JsonValue) {party : Party} → party_of_sub v ≡ some party → v ≡ some (string party)
unfolding party_of_sub
party_of_sub-string none h = cc
party_of_sub-string (some null) h = cc
party_of_sub-string (some (boolean b)) h = cc
party_of_sub-string (some (number m k)) h = cc
party_of_sub-string (some (string s)) h = ap (λ t. some (string t)) (given-some s h)
party_of_sub-string (some (array xs)) h = cc
party_of_sub-string (some (object fs)) h = cc

party_of_claims-sub :
    (found : Option JsonValue) {party : Party}
    → party_of_claims found ≡ some party
    → (claims : JsonValue) × (found ≡ some claims)
      × (member (codes "sub") claims ≡ some (string party))
unfolding party_of_claims
party_of_claims-sub none h = cc
party_of_claims-sub (some claims) h =
    (claims, refl, party_of_sub-string (member (codes "sub") claims) h)

caller_party-IsCaller :
    (engine : Engine) (now : ℕ) (req : Request) (cfg : CallerAuthConfig) (secret : Str)
    (header : Option Str) {party : Party}
    → header_text req.x_caller_token ≡ header
    → caller_party engine now cfg (some secret) header ≡ returns (some party)
    → IsCaller engine now req cfg secret party
unfolding caller_party
caller_party-IsCaller engine now req cfg secret none e h = absurd (cc (returns-injective h))
caller_party-IsCaller engine now req cfg secret (some header) e h =
    let (found, verified, rest) =
      >>=-eq-returns (verify_hs256 engine now (bare_token header) secret (caller_options cfg)) _
        h in
    let (claims, is_claims, sub) = party_of_claims-sub found (returns-injective rest) in
    record {
      header = header;
      header_given = e;
      claims = claims;
      verified =
          verify_hs256-IsVerified engine now (bare_token header) secret (caller_options cfg)
            (rw is_claims at verified);
      sub = sub;
    }

caller_party_from_request-IsCaller :
    (engine : Engine) (now : ℕ) (req : Request) (cfg : CallerAuthConfig) (secret : Str)
    {party : Party}
    → given cfg.caller_jwt_secret ≡ some secret
    → caller_party_from_request engine now req cfg ≡ returns (some party)
    → IsCaller engine now req cfg secret party
unfolding caller_party_from_request
caller_party_from_request-IsCaller engine now req cfg secret set h =
    caller_party-IsCaller engine now req cfg secret (header_text req.x_caller_token) refl
      (rw set at h)

check_caller-matches :
    (required forbidden : Str) (matches : Party → Bool) (caller : Option Party)
    → check_caller required forbidden matches caller ≡ passed
    → (party : Party) × (caller ≡ some party) × (matches party ≡ true)
unfolding check_caller
check_caller-matches required forbidden matches none h = cc
check_caller-matches required forbidden matches (some party) h = elim (Bool-cases (matches party)) [
  | inl yes_ ↦ (party, refl, yes_)
  | inr no_ ↦ absurd (cc (rw no_ at h))
]

check_with-IsCaller :
    (engine : Engine) (now : ℕ) (req : Request) (cfg : CallerAuthConfig) (secret : Str)
    (required forbidden : Str) (matches : Party → Bool)
    → given cfg.caller_jwt_secret ≡ some secret
    → check_with engine now req cfg (given cfg.caller_jwt_secret) required forbidden matches
      ≡ returns passed
    → (party : Party) × (matches party ≡ true) × IsCaller engine now req cfg secret party
unfolding check_with
check_with-IsCaller engine now req cfg secret required forbidden matches set h =
    let (caller, found, rest) =
      >>=-eq-returns (caller_party_from_request engine now req cfg) _ (rw set at h) in
    let (party, is_party, agrees) =
      check_caller-matches required forbidden matches caller (returns-injective rest) in
    (
      party,
      agrees,
      caller_party_from_request-IsCaller engine now req cfg secret set (rw is_party at found),
    )

is_text-string : (s : Str) (v : Option JsonValue) → is_text s v ≡ true → v ≡ some (string s)
unfolding is_text
is_text-string s none h = cc
is_text-string s (some null) h = cc
is_text-string s (some (boolean b)) h = cc
is_text-string s (some (number m k)) h = cc
is_text-string s (some (string t)) h = ap (λ u. some (string u)) (===→eq t s h)
is_text-string s (some (array xs)) h = cc
is_text-string s (some (object fs)) h = cc

-- With a caller secret set, a write on a route that names a subject passes only if the subject field
-- of its body is a text, and the X-Caller-Token of the request is an HS256 token of three parts,
-- signed with the secret, that is no bootstrap token, has not expired, has the audience that is
-- asked for, and has that text as its `sub`.
pub check_caller_binding-IsCaller :
    (engine : Engine) (now : ℕ) (req : Request) (cfg : CallerAuthConfig) (secret route_key : Str)
    (spec : SubjectField) (body : Option JsonValue)
    → given cfg.caller_jwt_secret ≡ some secret
    → lookup route_key subject_party_by_route ≡ some spec
    → check_caller_binding engine now req cfg route_key body ≡ returns passed
    → (party : Party) × (subject_party spec body ≡ some (string party))
      × IsCaller engine now req cfg secret party
unfolding check_caller_binding check_subject
check_caller_binding-IsCaller engine now req cfg secret route_key spec body set listed h =
    let (party, agrees, caller) =
      check_with-IsCaller engine now req cfg secret _ _ (λ p. is_text p (subject_party spec body))
        set (rw listed at h) in
    (party, is_text-string party (subject_party spec body) agrees, caller)

check_caller_read-IsCaller :
    (engine : Engine) (now : ℕ) (req : Request) (cfg : CallerAuthConfig) (secret subject : Str)
    → given cfg.caller_jwt_secret ≡ some secret
    → check_caller_read engine now req cfg subject ≡ returns passed
    → IsCaller engine now req cfg secret subject
unfolding check_caller_read
check_caller_read-IsCaller engine now req cfg secret subject set h =
    let (party, agrees, caller) =
      check_with-IsCaller engine now req cfg secret _ _ (λ p. p === subject) set h in
    rw (← ===→eq party subject agrees) caller
