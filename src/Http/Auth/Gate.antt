-- ===== src/Http/Auth/Gate.antt =====
-- Who passes the two gates of services/operator-backend/src/http/auth.ts.
use canton_dex_reference_imp.Prelude.{
  ℕ, ◌≡◌, refl, ◌==◌, eq→==, Bool, true, false, not, ◌&&◌, Bool-cases, Option, none, some, ◌↔◌, ◌⊎◌,
  inl, inr, List, ◌++◌, length, if◌then◌else◌,
}
use canton_dex_reference_imp.Prelude.Text.{Str, codes, ===→eq, ===-refl}
use canton_dex_reference_imp.Http.Auth.{
  HeaderValue, absent, one, several, Request, AuthCheck, passed, same_bytes, bearer_matches, given,
  check_bearer, unauthorized, is_operator_write, method_of, OperatorAuthConfig, check_operator_auth,
  check_admin_auth, starts_with, has, write_methods,
}
use canton_dex_reference_imp.Http.Auth.Routes.{
  is_admin_write, IsWrite, IsOperatorPath, IsAdminPath, is_operator_write-IsOperatorPath,
  is_admin_write-IsAdminPath,
}

-- The header is one text with the bytes of `Bearer ` and the token.
abbrev pub Carries : (Str → List ℕ) → HeaderValue → Str → Type 0
Carries bytes header token =
    (h : Str) × (header ≡ one h) × (bytes h ≡ bytes (codes "Bearer " ++ token))

pub same_bytes-eq : (a b : List ℕ) → same_bytes a b ≡ true → a ≡ b
unfolding same_bytes
same_bytes-eq a b h = elim (Bool-cases (length a == length b)) [
  | inl same ↦ ===→eq a b (rw same at h)
  | inr different ↦ absurd (cc (rw different at h))
]

eq-same_bytes : (a b : List ℕ) → a ≡ b → same_bytes a b ≡ true
unfolding same_bytes
eq-same_bytes a b e = rw (e, eq→== (length b) (length b) refl, ===-refl b)

bearer_matches-Carries :
    (bytes : Str → List ℕ) (header : HeaderValue) (token : Str)
    → bearer_matches bytes header token ≡ true
    → Carries bytes header token
unfolding bearer_matches
bearer_matches-Carries bytes absent token h = cc
bearer_matches-Carries bytes (several hs) token h = cc
bearer_matches-Carries bytes (one s) token h =
    (s, refl, same_bytes-eq (bytes s) (bytes (codes "Bearer " ++ token)) h)

Carries-bearer_matches :
    (bytes : Str → List ℕ) (header : HeaderValue) (token : Str)
    → Carries bytes header token
    → bearer_matches bytes header token ≡ true
unfolding bearer_matches
Carries-bearer_matches bytes header token (h, e, same) =
    rw e (eq-same_bytes (bytes h) (bytes (codes "Bearer " ++ token)) same)

-- With a token set the request carries it; with none the server runs open.
abbrev pub IsAdmitted : (Str → List ℕ) → HeaderValue → Option Str → Bool → Type 0
IsAdmitted bytes header none dev_open = dev_open ≡ true
IsAdmitted bytes header (some t) dev_open = Carries bytes header t

check_bearer-Carries :
    (bytes : Str → List ℕ) (header : HeaderValue) (token message : Str) (otherwise : AuthCheck)
    → (check_bearer bytes header (some token) otherwise message ≡ passed)
      ↔ Carries bytes header token
unfolding check_bearer
check_bearer-Carries bytes header token message otherwise = (
  λ h. elim (Bool-cases (bearer_matches bytes header token)) [
    | inl matches ↦ bearer_matches-Carries bytes header token matches
    | inr other ↦ absurd (cc (rw other at h))
  ],
  λ carries. rw (Carries-bearer_matches bytes header token carries),
)

check_bearer-IsAdmitted :
    (bytes : Str → List ℕ) (header : HeaderValue) (token : Option Str) (dev_open : Bool)
    (unset message : Str)
    → (check_bearer bytes header token (if dev_open then passed else unauthorized unset) message
        ≡ passed)
      ↔ IsAdmitted bytes header token dev_open
unfolding check_bearer
check_bearer-IsAdmitted bytes header none true unset message = (λ h. refl, λ h. refl)
check_bearer-IsAdmitted bytes header none false unset message = (λ h. cc, λ h. cc)
check_bearer-IsAdmitted bytes header (some t) dev_open unset message =
    check_bearer-Carries bytes header t message (if dev_open then passed else unauthorized unset)

-- A gate that lets everything else pass and asks for the token on what it guards.
guarded-IsAdmitted :
    (bytes : Str → List ℕ) (header : HeaderValue) (token : Option Str) (dev_open : Bool)
    (unset message : Str) (guarded : Bool)
    → ((if not guarded
          then passed
          else check_bearer bytes header token
              (if dev_open then passed else unauthorized unset)
              message)
        ≡ passed)
      ↔ ((guarded ≡ false) ⊎ IsAdmitted bytes header token dev_open)
guarded-IsAdmitted bytes header token dev_open unset message true =
    let (to, from) = check_bearer-IsAdmitted bytes header token dev_open unset message in
    (λ h. inr (to h), λ r. elim r [ inl no_write ↦ absurd (cc) | inr admitted ↦ from admitted ])
guarded-IsAdmitted bytes header token dev_open unset message false = (λ h. inl refl, λ r. refl)

check_operator_auth-IsAdmitted :
    (bytes : Str → List ℕ) (req : Request) (cfg : OperatorAuthConfig) (path : Str)
    → (check_operator_auth bytes req cfg path ≡ passed) ↔ (
        (is_operator_write (method_of req) path ≡ false)
        ⊎ IsAdmitted bytes req.authorization (given cfg.operator_token) cfg.dev_open)
unfolding check_operator_auth
check_operator_auth-IsAdmitted bytes req cfg path =
    guarded-IsAdmitted bytes req.authorization (given cfg.operator_token) cfg.dev_open _ _
      (is_operator_write (method_of req) path)

-- The two tests of the admin gate are one.
two_tests :
    (a b : Bool) (x : AuthCheck)
    → (if not a then passed else if not b then passed else x) ≡ (if not (a && b) then passed else x)
two_tests true b x = refl
two_tests false b x = refl

check_admin_auth-IsAdmitted :
    (bytes : Str → List ℕ) (req : Request) (admin_token : Option Str) (path : Str)
    → (check_admin_auth bytes req admin_token path ≡ passed) ↔ (
        (is_admin_write (method_of req) path ≡ false)
        ⊎ IsAdmitted bytes req.authorization (given admin_token) false)
unfolding check_admin_auth
check_admin_auth-IsAdmitted bytes req admin_token path =
    rw (two_tests (starts_with (codes "/v1/admin/") path) (has write_methods (method_of req)) _) (
      guarded-IsAdmitted bytes req.authorization (given admin_token) false _ _
        (is_admin_write (method_of req) path))

not_guarded : {W : Type 0} (guarded : Bool) → (guarded ≡ true) ↔ W → (guarded ≡ false) ↔ (¬ W)
not_guarded true h = (λ e. absurd (cc (e)), λ other. absurd (other (h.0 refl)))
not_guarded false h = (λ e w. absurd (let yes = h.1 w in cc (yes)), λ other. refl)

either_iff : {A B C P : Type 0} → P ↔ (A ⊎ C) → A ↔ B → P ↔ (B ⊎ C)
either_iff h e = (
  λ p. elim (h.0 p) [ inl a ↦ inl (e.0 a) | inr c ↦ inr c ],
  λ r. elim r [ inl b ↦ h.1 (inl (e.1 b)) | inr c ↦ h.1 (inr c) ],
)

-- The operator gate guards the POST, PUT, DELETE and PATCH of nine paths and of the cancels of one
-- order and of one request for quotes, and no other. A request passes it exactly when it is none of
-- these, or the operator token is set and the one authorization header has the bytes of `Bearer `
-- and that token, or no operator token is set and the server runs with DEX_DEV_OPEN. The admin gate
-- guards the same methods of every path under /v1/admin/: a request passes it exactly when it is
-- none of these, or the admin token is set and the one authorization header has the bytes of
-- `Bearer ` and that token.
pub gates-IsAdmitted :
    (bytes : Str → List ℕ) (req : Request) (cfg : OperatorAuthConfig) (admin_token : Option Str)
    (path : Str)
    → ((check_operator_auth bytes req cfg path ≡ passed) ↔ (
        (¬ (IsWrite (method_of req) × IsOperatorPath path))
        ⊎ IsAdmitted bytes req.authorization (given cfg.operator_token) cfg.dev_open))
      × ((check_admin_auth bytes req admin_token path ≡ passed) ↔ (
          (¬ (IsWrite (method_of req) × IsAdminPath path))
          ⊎ IsAdmitted bytes req.authorization (given admin_token) false))
gates-IsAdmitted bytes req cfg admin_token path = (
  either_iff (check_operator_auth-IsAdmitted bytes req cfg path)
      (not_guarded _ (is_operator_write-IsOperatorPath (method_of req) path)),
  either_iff (check_admin_auth-IsAdmitted bytes req admin_token path)
      (not_guarded _ (is_admin_write-IsAdminPath (method_of req) path)),
)
