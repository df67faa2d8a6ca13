-- ===== src/Http/RateLimit/Level.antt =====
-- What one take of services/operator-backend/src/http/rate-limit.ts does to what a key can spend.
use canton_dex_reference_imp.Prelude.{
  ℕ, ◌+◌, ◌-◌, ◌*◌, ◌%◌, ◌≤◌, ◌==◌, ltb, ltb→lt, ltb→le, ◌≡◌, refl, ap, arith, Bool, false, not,
  Bool-cases, Option, none, some, inl, inr, List, if◌then◌else◌,
}
use canton_dex_reference_imp.Prelude.Text.{Str, ◌===◌, ===-refl}
use canton_dex_reference_imp.Prelude.Assoc.{lookup, lookup-insert}
use canton_dex_reference_imp.Prelude.Unique.{
  Unique, kept, insert-Unique, retain-Unique, lookup-retain-kept,
}
use native.Mathlib.Nat.{mul-le-mul_right, add-mul}
use canton_dex_reference_imp.Http.RateLimit.{
  RateLimitRule, Bucket, token, max_idle_ms, is_idle, sweep_buckets, refill, swept, spend,
}

-- A rule under which an idle bucket is full before it is swept.
abbrev pub Refills : RateLimitRule → Type 0
Refills rule = rule.capacity * token ≤ max_idle_ms * rule.refill_per_min

-- A bucket holds no more than its rule allows, and was last used before `t`.
abbrev pub Fits : RateLimitRule → ℕ → Option Bucket → Type 0
Fits rule t none = Unit
Fits rule t (some b) = (b.tokens ≤ rule.capacity * token) × (b.last ≤ t)

-- What the key could spend at time `t`.
abbrev pub level : RateLimitRule → ℕ → Option Bucket → ℕ
level rule t o = (refill rule t o).tokens

pub refill_bounded :
    (rule : RateLimitRule) (t : ℕ) (o : Option Bucket) → level rule t o ≤ rule.capacity * token
unfolding refill
refill_bounded rule t none = omega arith
refill_bounded rule t (some b) = omega arith

pub refill_last : (rule : RateLimitRule) (t : ℕ) (o : Option Bucket) → (refill rule t o).last ≡ t
unfolding refill
refill_last rule t none = refl
refill_last rule t (some b) = refl

-- The bucket of an idle key that is swept was full.
level-kept :
    (rule : RateLimitRule) (t : ℕ) (o : Option Bucket)
    → Refills rule
    → level rule t (kept (λ b. not (is_idle t b)) o) ≡ level rule t o
unfolding refill is_idle
level-kept rule t none r = refl
level-kept rule t (some b) r = elim (Bool-cases (ltb max_idle_ms (t - b.last))) [
  | inl idle ↦ rw idle (
      let long = mul-le-mul_right rule.refill_per_min (ltb→lt max_idle_ms (t - b.last) idle) in
      omega arith)
  | inr recent ↦ rw recent
]

kept-Fits :
    (rule : RateLimitRule) (t : ℕ) (p : Bucket → Bool) (o : Option Bucket)
    → Fits rule t o
    → Fits rule t (kept p o)
kept-Fits rule t p none h = tt
kept-Fits rule t p (some b) h = elim (Bool-cases (p b)) [ inl q ↦ rw q h | inr q ↦ rw q tt ]

pub later-Fits :
    (rule : RateLimitRule) (s t : ℕ) (o : Option Bucket) → s ≤ t → Fits rule s o → Fits rule t o
later-Fits rule s t none le h = tt
later-Fits rule s t (some b) le h = (h.0, omega arith)

pub split_time : (a b c rate : ℕ) → a ≤ b → b ≤ c → (c - a) * rate ≡ (b - a) * rate + (c - b) * rate
split_time a b c rate h k = rw (← add-mul (b - a) (c - b) rate) (ap (λ n. n * rate) (omega arith))

-- What time adds.
pub level-later :
    (rule : RateLimitRule) (s t : ℕ) (o : Option Bucket)
    → s ≤ t
    → Fits rule s o
    → level rule t o ≤ level rule s o + (t - s) * rule.refill_per_min
unfolding refill
level-later rule s t none le h = omega arith
level-later rule s t (some b) le h = omega (arith, split_time b.last s t rule.refill_per_min h.1 le)

pub swept-Unique : (n t : ℕ) (m : List (Str × Bucket)) → Unique m → Unique (swept n t m)
unfolding swept sweep_buckets
swept-Unique n t m h = elim (Bool-cases (n % 1024 == 0)) [
  | inl s ↦ rw s (retain-Unique (λ b. not (is_idle t b)) m h)
  | inr s ↦ rw s h
]

-- A sweep changes nothing that the key could spend.
pub swept-level :
    (rule : RateLimitRule) (n t : ℕ) (k : Str) (m : List (Str × Bucket))
    → Refills rule
    → Unique m
    → Fits rule t (lookup k m)
    → (level rule t (lookup k (swept n t m)) ≡ level rule t (lookup k m))
      × Fits rule t (lookup k (swept n t m))
unfolding swept sweep_buckets
swept-level rule n t k m r u h = elim (Bool-cases (n % 1024 == 0)) [
  | inl s ↦
      rw (s, lookup-retain-kept (λ b. not (is_idle t b)) k m u)
        (level-kept rule t (lookup k m) r, kept-Fits rule t (λ b. not (is_idle t b)) (lookup k m) h)
  | inr s ↦ rw s (refl, h)
]

-- The price of a take.
abbrev pub cost : Bool → ℕ
cost let_through = token * (if let_through then 1 else 0)

level-now :
    (rule : RateLimitRule) (t : ℕ) (b : Bucket)
    → b.tokens ≤ rule.capacity * token
    → b.last ≡ t
    → level rule t (some b) ≡ b.tokens
unfolding refill
level-now rule t b bounded is_now =
    rw (let none_left : t - b.last ≡ 0 = omega arith in none_left) (omega arith)

-- The key's own bucket after it has been asked.
pub spend-own :
    (rule : RateLimitRule) (k : Str) (n t : ℕ) (b : Bucket) (m : List (Str × Bucket))
    → b.tokens ≤ rule.capacity * token
    → b.last ≡ t
    → (level rule t (lookup k (spend k n b m).1.buckets) + cost (spend k n b m).0 ≡ b.tokens)
      × Fits rule t (lookup k (spend k n b m).1.buckets)
unfolding spend
spend-own rule k n t b m bounded is_now = elim (Bool-cases (ltb b.tokens token)) [
  | inl poor ↦
      rw (poor, lookup-insert k k b m, ===-refl k)
        (omega (arith, level-now rule t b bounded is_now), (bounded, omega arith))
  | inr rich ↦
      let enough = ltb→le b.tokens token rich in
      let rest : Bucket = record { tokens = b.tokens - token; last = b.last } in
      rw (rich, lookup-insert k k rest m, ===-refl k)
        (omega (arith, level-now rule t rest (omega arith) is_now), ((omega arith), omega arith))
]

pub spend-other :
    (k j : Str) (n : ℕ) (b : Bucket) (m : List (Str × Bucket))
    → (j === k) ≡ false
    → lookup k (spend j n b m).1.buckets ≡ lookup k m
unfolding spend
spend-other k j n b m other = elim (Bool-cases (ltb b.tokens token)) [
  | inl poor ↦ rw (poor, lookup-insert j k b m, other)
  | inr rich ↦
      rw (rich, lookup-insert j k (record { tokens = b.tokens - token; last = b.last }) m, other)
]

pub spend-Unique :
    (j : Str) (n : ℕ) (b : Bucket) (m : List (Str × Bucket))
    → Unique m
    → Unique (spend j n b m).1.buckets
unfolding spend
spend-Unique j n b m u = elim (Bool-cases (ltb b.tokens token)) [
  | inl poor ↦ rw poor (insert-Unique j b m u)
  | inr rich ↦ rw rich (insert-Unique j (record { tokens = b.tokens - token; last = b.last }) m u)
]
