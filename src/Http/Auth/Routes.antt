-- ===== src/Http/Auth/Routes.antt =====
-- The writes that services/operator-backend/src/http/auth.ts guards, as methods and paths.
use mathlib.Core.Path.{ap₂}
use mathlib.Core.List.{Memᴰ}
use canton_dex_reference_imp.Prelude.{
  ℕ, ◌≡◌, ◌≢◌, refl, sym, ap, ◌∙◌, ◌==◌, ==→eq, eq→==, ne→==, Bool, true, false, not, ◌&&◌, ◌||◌,
  Bool-cases, some, Option-cases, ◌↔◌, ◌⊎◌, inl, inr, List, [], ◌∷◌, ◌++◌, All, All-Mem,
  if◌then◌else◌,
}
use canton_dex_reference_imp.Prelude.Assoc.{some-injective}
use canton_dex_reference_imp.Prelude.Text.{Str, codes, ◌===◌, ===→eq, ===-refl}
use canton_dex_reference_imp.Http.Auth.{
  has, write_methods, strip_prefix, starts_with, segment_then_cancel, cancel_of,
  operator_write_exact, operator_write_patterns, is_operator_write,
}

abbrev pub IsWrite : Str → Type 0
IsWrite method = Memᴰ method (codes "POST" ∷ codes "PUT" ∷ codes "DELETE" ∷ codes "PATCH" ∷ [])

-- A prefix, one segment that is not empty, and `/cancel`.
abbrev pub IsCancel : Str → Str → Type 0
IsCancel prefix path =
    (id : Str) × (id ≢ []) × All (λ c. c ≢ b'/') id × (path ≡ prefix ++ (id ++ codes "/cancel"))

abbrev pub IsOperatorPath : Str → Type 0
IsOperatorPath path =
    Memᴰ path (
      codes "/v1/wallet/submit"
      ∷ codes "/v1/orders/bind"
      ∷ codes "/v1/orders/fund"
      ∷ codes "/v1/orders/match"
      ∷ codes "/v1/matched-trades/request-allocations"
      ∷ codes "/v1/matched-trades/settle"
      ∷ codes "/v1/matched-trades/cancel"
      ∷ codes "/v1/rfq"
      ∷ codes "/v1/rfq/accept"
      ∷ [])
    ⊎ (IsCancel (codes "/v1/orders/") path ⊎ IsCancel (codes "/v1/rfq/") path)

abbrev pub IsAdminPath : Str → Type 0
IsAdminPath path = (rest : Str) × (path ≡ codes "/v1/admin/" ++ rest)

has-Mem : (xs : List Str) (s : Str) → has xs s ≡ true → Memᴰ s xs
unfolding has
has-Mem [] s h = absurd (cc)
has-Mem (x ∷ xs) s h = elim (Bool-cases (x === s)) [
  | inl e ↦ Memᴰ.head (sym (===→eq x s e))
  | inr e ↦ Memᴰ.tail (has-Mem xs s (rw e at h))
]

or-right : (a b : Bool) → b ≡ true → (a || b) ≡ true
or-right true b h = refl
or-right false b h = h

Mem-has : (xs : List Str) (s : Str) → Memᴰ s xs → has xs s ≡ true
unfolding has
Mem-has [] s m = elim m [ ]
Mem-has (x ∷ xs) s (Memᴰ.head e) = rw (e, ===-refl x) refl
Mem-has (x ∷ xs) s (Memᴰ.tail m) = or-right (x === s) (has xs s) (Mem-has xs s m)

strip_prefix-append : (p s rest : Str) → strip_prefix p s ≡ some rest → s ≡ p ++ rest
unfolding strip_prefix
strip_prefix-append [] s rest h = some-injective h
strip_prefix-append (c ∷ p) [] rest h = absurd (cc)
strip_prefix-append (c ∷ p) (d ∷ s) rest h = elim (Bool-cases (c == d)) [
  | inl e ↦ rw (==→eq c d e) (ap (λ t. d ∷ t) (strip_prefix-append p s rest (rw e at h)))
  | inr e ↦ absurd (cc (rw e at h))
]

append-strip_prefix : (p rest : Str) → strip_prefix p (p ++ rest) ≡ some rest
unfolding strip_prefix
append-strip_prefix [] rest = refl
append-strip_prefix (c ∷ p) rest = rw (eq→== c c refl) (append-strip_prefix p rest)

starts_with-IsAdminPath :
    (path : Str) → starts_with (codes "/v1/admin/") path ≡ true → IsAdminPath path
unfolding starts_with
starts_with-IsAdminPath path h = elim (Option-cases (strip_prefix (codes "/v1/admin/") path)) [
  | inl e ↦ absurd (cc (rw e at h))
  | inr (rest, e) ↦ (rest, strip_prefix-append (codes "/v1/admin/") path rest e)
]

IsAdminPath-starts_with :
    (path : Str) → IsAdminPath path → starts_with (codes "/v1/admin/") path ≡ true
unfolding starts_with
IsAdminPath-starts_with path (rest, e) = rw (e, append-strip_prefix (codes "/v1/admin/") rest) refl

and-cases : (a b : Bool) → (a && b) ≡ true → (a ≡ true) × (b ≡ true)
and-cases true b h = (refl, h)
and-cases false b h = absurd (cc)

segment-split :
    (s : Str)
    → segment_then_cancel s ≡ true
    → (id : Str) × All (λ c. c ≢ b'/') id × (s ≡ id ++ codes "/cancel")
unfolding segment_then_cancel
segment-split [] h = absurd (cc)
segment-split (c ∷ s) h = elim (Bool-cases (c == b'/')) [
  | inl e ↦ ([], tt, ap₂ (λ d t. d ∷ t) (==→eq c b'/' e) (===→eq s (codes "cancel") (rw e at h)))
  | inr e ↦
      let (id, plain, parts) = segment-split s (rw e at h) in
      (c ∷ id, ((λ q. absurd (let yes = eq→== c b'/' q in cc)), plain), ap (λ t. c ∷ t) parts)
]

split-segment :
    (id : Str) → All (λ c. c ≢ b'/') id → segment_then_cancel (id ++ codes "/cancel") ≡ true
unfolding segment_then_cancel ◌===◌
split-segment [] h = refl
split-segment (c ∷ id) h = rw (ne→== c b'/' h.0) (split-segment id h.1)

not-slash : (c : ℕ) → not (c == b'/') ≡ true → c ≢ b'/'
not-slash c h = λ e. absurd (cc (rw (eq→== c b'/' e) at h))

rest-split :
    (rest : Str)
    → cancel_of (some rest) ≡ true
    → (id : Str) × (id ≢ []) × All (λ c. c ≢ b'/') id × (rest ≡ id ++ codes "/cancel")
unfolding cancel_of
rest-split [] h = absurd (cc)
rest-split (c ∷ s) h =
    let (first, later) = and-cases (not (c == b'/')) (segment_then_cancel s) h in
    let (id, plain, parts) = segment-split s later in
    (c ∷ id, (λ e. absurd (cc (e))), (not-slash c first, plain), ap (λ t. c ∷ t) parts)

cancel_of-IsCancel :
    (prefix path : Str) → cancel_of (strip_prefix prefix path) ≡ true → IsCancel prefix path
unfolding cancel_of
cancel_of-IsCancel prefix path h = elim (Option-cases (strip_prefix prefix path)) [
  | inl e ↦ absurd (cc (rw e at h))
  | inr (rest, e) ↦
      let (id, some_char, plain, parts) = rest-split rest (rw e at h) in
      let at_path = strip_prefix-append prefix path rest e in
      (id, some_char, plain, at_path ∙ ap (λ t. prefix ++ t) parts)
]

IsCancel-cancel_of :
    (prefix path : Str) → IsCancel prefix path → cancel_of (strip_prefix prefix path) ≡ true
unfolding cancel_of
IsCancel-cancel_of prefix path ([], some_char, plain, e) = absurd (some_char refl)
IsCancel-cancel_of prefix path (c ∷ id, some_char, plain, e) =
    rw (e, append-strip_prefix prefix (c ∷ (id ++ codes "/cancel")), ne→== c b'/' plain.0)
      (split-segment id plain.1)

or-cases : (a b : Bool) → (a || b) ≡ true → (a ≡ true) ⊎ (b ≡ true)
or-cases true b h = inl refl
or-cases false b h = inr h

-- No path of the operator is under /v1/admin/.
not_admin : (path : Str) → IsOperatorPath path → starts_with (codes "/v1/admin/") path ≡ false
unfolding starts_with strip_prefix
not_admin path (inl m) =
    All-Mem (λ p. starts_with (codes "/v1/admin/") p ≡ false) path _
      (refl, (refl, (refl, (refl, (refl, (refl, (refl, (refl, (refl, tt))))))))) m
not_admin path (inr (inl (id, some_char, plain, e))) = rw e refl
not_admin path (inr (inr (id, some_char, plain, e))) = rw e refl

if-else : (a b : Bool) → b ≡ true → (if a then true else b) ≡ true
if-else true b h = refl
if-else false b h = h

operator_path-true :
    (path : Str)
    → IsOperatorPath path
    → (if has operator_write_exact path then true else operator_write_patterns path) ≡ true
unfolding operator_write_exact operator_write_patterns
operator_path-true path (inl m) = rw (Mem-has _ path m) refl
operator_path-true path (inr (inl c)) =
    if-else (has operator_write_exact path) (operator_write_patterns path)
      (rw (IsCancel-cancel_of (codes "/v1/orders/") path c) refl)
operator_path-true path (inr (inr c)) =
    if-else (has operator_write_exact path) (operator_write_patterns path) (
      or-right (cancel_of (strip_prefix (codes "/v1/orders/") path)) _
        (IsCancel-cancel_of (codes "/v1/rfq/") path c))

true-IsOperatorPath :
    (path : Str)
    → (if has operator_write_exact path then true else operator_write_patterns path) ≡ true
    → IsOperatorPath path
unfolding operator_write_exact operator_write_patterns
true-IsOperatorPath path h = elim (Bool-cases (has operator_write_exact path)) [
  | inl listed ↦ inl (has-Mem _ path listed)
  | inr other ↦ elim (or-cases _ _ (rw other at h)) [
    | inl order ↦ inr (inl (cancel_of-IsCancel (codes "/v1/orders/") path order))
    | inr quote ↦ inr (inr (cancel_of-IsCancel (codes "/v1/rfq/") path quote))
  ]
]

-- The operator's writes are those of the listed paths and the two cancels.
pub is_operator_write-IsOperatorPath :
    (method path : Str)
    → (is_operator_write method path ≡ true) ↔ (IsWrite method × IsOperatorPath path)
unfolding is_operator_write write_methods
is_operator_write-IsOperatorPath method path = (
  λ h. elim (Bool-cases (has write_methods method)) [
    | inr read ↦ absurd (cc (rw read at h))
    | inl write ↦ elim (Bool-cases (starts_with (codes "/v1/admin/") path)) [
      | inl admin ↦ absurd (cc (rw (write, admin) at h))
      | inr other ↦ (has-Mem _ method write, true-IsOperatorPath path (rw (write, other) at h))
    ]
  ],
  λ r. rw (Mem-has _ method r.0, not_admin path r.1) (operator_path-true path r.1),
)

abbrev pub is_admin_write : Str → Str → Bool
is_admin_write method path = starts_with (codes "/v1/admin/") path && has write_methods method

-- The admin's writes are those under /v1/admin/.
pub is_admin_write-IsAdminPath :
    (method path : Str) → (is_admin_write method path ≡ true) ↔ (IsWrite method × IsAdminPath path)
unfolding write_methods
is_admin_write-IsAdminPath method path = (
  λ h.
      let (admin, write) = and-cases (starts_with (codes "/v1/admin/") path) _ h in
      (has-Mem _ method write, starts_with-IsAdminPath path admin),
  λ r. rw (IsAdminPath-starts_with path r.1) (Mem-has _ method r.0),
)
