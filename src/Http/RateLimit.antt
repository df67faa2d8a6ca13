-- ===== src/Http/RateLimit.antt =====
-- services/operator-backend/src/http/rate-limit.ts: the token buckets of the public writes. Tokens are
-- counted in sixty-thousandths, so that `refillPerSec`, a number of tokens in a minute over 60, adds
-- a whole number of them in each millisecond; rounding of floating-point sums is left out. A take and
-- the sweep in it read the clock once.
pub mod Level
pub mod Bound
use canton_dex_reference_imp.Prelude.{
  ℕ, suc, ◌+◌, ◌-◌, ◌*◌, ◌%◌, ◌==◌, ltb, min, Bool, true, false, not, Option, none, some, List, [],
  ◌∷◌, ◌++◌, if◌then◌else◌,
}
use canton_dex_reference_imp.Prelude.Text.{Str, codes}
use canton_dex_reference_imp.Prelude.Assoc.{lookup, insert, retain}

-- `refillPerSec` is `refill_per_min / 60`.
pub record RateLimitRule : Type 0 where
  pub capacity : ℕ
  pub refill_per_min : ℕ

-- One token, in the unit of a bucket.
abbrev pub token : ℕ
token = 60_000

pub record Bucket : Type 0 where
  pub tokens : ℕ
  pub last : ℕ

pub record RateLimiter : Type 0 where
  pub buckets : List (Str × Bucket)
  pub takes : ℕ

abbrev pub new_limiter : RateLimiter
new_limiter = record { buckets = []; takes = 0 }

-- The classes of RATE_LIMITS.
pub data RateClass : Type 0 where
  bootstrap request allocation_factory : RateClass

unfoldable pub rate_limits : RateClass → RateLimitRule
rate_limits bootstrap = record { capacity = 10; refill_per_min = 10 }
rate_limits request = record { capacity = 30; refill_per_min = 30 }
rate_limits allocation_factory = record { capacity = 60; refill_per_min = 60 }

unfoldable pub class_name : RateClass → Str
class_name bootstrap = codes "bootstrap"
class_name request = codes "request"
class_name allocation_factory = codes "allocation-factory"

unfoldable pub route_class : List (Str × RateClass)
route_class =
    (codes "POST /v1/session/bootstrap", bootstrap)
    ∷ (codes "POST /v1/pools/swap/request", request)
    ∷ (codes "POST /v1/pools/add-liquidity/request", request)
    ∷ (codes "POST /v1/pools/remove-liquidity/request", request)
    ∷ (codes "POST /v1/pools/recover-dvp-allocations", allocation_factory)
    ∷ (codes "POST /v1/registry/allocation-factory", allocation_factory)
    ∷ []

abbrev pub max_idle_ms : ℕ
max_idle_ms = 600_000

unfoldable pub is_idle : ℕ → Bucket → Bool
is_idle t b = ltb max_idle_ms (t - b.last)

-- `sweep` at time `t`
unfoldable pub sweep_buckets : ℕ → List (Str × Bucket) → List (Str × Bucket)
sweep_buckets t buckets = retain (λ b. not (is_idle t b)) buckets

-- The bucket at time `t`: new and full, or refilled since its last use.
unfoldable pub refill : RateLimitRule → ℕ → Option Bucket → Bucket
refill rule t none = record { tokens = rule.capacity * token; last = t }
refill rule t (some b) = record {
  tokens = min (rule.capacity * token) (b.tokens + (t - b.last) * rule.refill_per_min);
  last = t;
}

-- Every 1024th take sweeps.
unfoldable pub swept : ℕ → ℕ → List (Str × Bucket) → List (Str × Bucket)
swept takes t buckets = if takes % 1024 == 0 then sweep_buckets t buckets else buckets

-- `take` on the refilled bucket of the key.
unfoldable pub spend : Str → ℕ → Bucket → List (Str × Bucket) → Bool × RateLimiter
spend key takes b buckets =
    if ltb b.tokens token
    then (false, record { buckets = insert key b buckets; takes = takes })
    else (
      true,
      record {
        buckets = insert key (record { tokens = b.tokens - token; last = b.last }) buckets;
        takes = takes;
      },
    )

-- `take` at time `t`
unfoldable pub take_token : ℕ → Str → RateLimitRule → RateLimiter → Bool × RateLimiter
take_token t key rule limiter =
    let buckets = swept (suc limiter.takes) t limiter.buckets in
    spend key (suc limiter.takes) (refill rule t (lookup key buckets)) buckets

pub data RateLimitCheck : Type 0 where
  allowed : RateLimitCheck
  ran_dry : Str → RateLimitCheck

abbrev check_of : Str → Bool × RateLimiter → RateLimitCheck × RateLimiter
check_of name (true, limiter) = (allowed, limiter)
check_of name (false, limiter) = (ran_dry name, limiter)

unfoldable pub rate_limit_class_for : Str → Str → Option RateClass
rate_limit_class_for method path = lookup (method ++ b' ' ∷ path) route_class

unfoldable pub enforce_class :
    ℕ → RateLimiter → Option RateClass → Str → RateLimitCheck × RateLimiter
enforce_class t limiter none ip = (allowed, limiter)
enforce_class t limiter (some cls) ip =
    check_of (class_name cls)
      (take_token t (class_name cls ++ (codes "|ip:" ++ ip)) (rate_limits cls) limiter)

unfoldable pub enforce_rate_limit : ℕ → RateLimiter → Str → Str → Str → RateLimitCheck × RateLimiter
enforce_rate_limit t limiter method path ip =
    enforce_class t limiter (rate_limit_class_for method path) ip

unfoldable pub enforce_token_limit : ℕ → RateLimiter → Str → RateLimitCheck × RateLimiter
enforce_token_limit t limiter token_key =
    check_of (codes "request")
      (take_token t (codes "request|token:" ++ token_key) (rate_limits request) limiter)
