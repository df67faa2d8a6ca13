-- ===== src/Http/RateLimit/Bound.antt =====
-- How many requests the limiter of services/operator-backend/src/http/rate-limit.ts lets through.
use canton_dex_reference_imp.Prelude.{
  ℕ, suc, ◌+◌, ◌-◌, ◌*◌, ◌≤◌, ◌≡◌, ◌∙◌, arith, ◌&&◌, Bool-cases, inl, inr, List, [], ◌∷◌,
  if◌then◌else◌,
}
use canton_dex_reference_imp.Prelude.Text.{Str, ◌===◌, ===→eq}
use canton_dex_reference_imp.Prelude.Assoc.{lookup, lookup-empty}
use canton_dex_reference_imp.Prelude.Unique.{Unique}
use canton_dex_reference_imp.Http.RateLimit.{
  RateLimitRule, RateLimiter, token, refill, swept, take_token, new_limiter,
}
use canton_dex_reference_imp.Http.RateLimit.Level.{
  Refills, Fits, level, refill_bounded, refill_last, later-Fits, split_time, level-later,
  swept-Unique, swept-level, cost, spend-own, spend-other, spend-Unique,
}

pub record Attempt : Type 0 where
  pub time : ℕ
  pub key : Str

-- The attempts in the order of their times, none before `s` and none after `e`.
abbrev pub Within : ℕ → List Attempt → ℕ → Type 0
Within s [] e = s ≤ e
Within s (a ∷ rest) e = (s ≤ a.time) × Within a.time rest e

Within-le : (s e : ℕ) (attempts : List Attempt) → Within s attempts e → s ≤ e
Within-le s e [] w = w
Within-le s e (a ∷ rest) w = omega (arith, Within-le a.time e rest w.1, w.0)

-- Each key is always used with the rule of its class.
module _ (rule_of : Str → RateLimitRule) where
  abbrev pub after : RateLimiter → List Attempt → RateLimiter
  after limiter [] = limiter
  after limiter (a ∷ rest) = after (take_token a.time a.key (rule_of a.key) limiter).1 rest

  -- How many attempts of the key were let through.
  abbrev pub count_allowed : Str → RateLimiter → List Attempt → ℕ
  count_allowed k limiter [] = 0
  count_allowed k limiter (a ∷ rest) =
      (if a.key === k && (take_token a.time a.key (rule_of a.key) limiter).0 then 1 else 0)
      + count_allowed k (take_token a.time a.key (rule_of a.key) limiter).1 rest

  module _ (k : Str) (refills : Refills (rule_of k)) where
    abbrev IsSound : ℕ → RateLimiter → Type 0
    IsSound t limiter = Unique limiter.buckets × Fits (rule_of k) t (lookup k limiter.buckets)

    abbrev level_at : ℕ → RateLimiter → ℕ
    level_at t limiter = level (rule_of k) t (lookup k limiter.buckets)

    take_token-own :
        (t : ℕ) (limiter : RateLimiter)
        → IsSound t limiter
        → (level_at t (take_token t k (rule_of k) limiter).1
              + cost (take_token t k (rule_of k) limiter).0
            ≡ level_at t limiter)
          × Fits (rule_of k) t (lookup k (take_token t k (rule_of k) limiter).1.buckets)
    unfolding take_token
    take_token-own t limiter (u, h) =
        let m = swept (suc limiter.takes) t limiter.buckets in
        let (same, fits) =
          swept-level (rule_of k) (suc limiter.takes) t k limiter.buckets refills u h in
        let (spent, fits') =
          spend-own (rule_of k) k (suc limiter.takes) t (refill (rule_of k) t (lookup k m)) m
            (refill_bounded (rule_of k) t (lookup k m)) (refill_last (rule_of k) t (lookup k m)) in
        (spent ∙ same, fits')

    take_token-level :
        (t : ℕ) (j : Str) (limiter : RateLimiter)
        → IsSound t limiter
        → (level_at t (take_token t j (rule_of j) limiter).1
              + cost (j === k && (take_token t j (rule_of j) limiter).0)
            ≡ level_at t limiter)
          × Fits (rule_of k) t (lookup k (take_token t j (rule_of j) limiter).1.buckets)
    unfolding take_token
    take_token-level t j limiter (u, h) =
        let n = suc limiter.takes in
        let m = swept n t limiter.buckets in
        let (same, fits) = swept-level (rule_of k) n t k limiter.buckets refills u h in
        elim (Bool-cases (j === k)) [
          | inl own ↦ rw own (rw (===→eq j k own) (take_token-own t limiter (u, h)))
          | inr other ↦
              rw (other, spend-other k j n (refill (rule_of j) t (lookup j m)) m other)
                (omega (arith, same), fits)
        ]

    take_token-Unique :
        (t : ℕ) (j : Str) (limiter : RateLimiter)
        → Unique limiter.buckets
        → Unique (take_token t j (rule_of j) limiter).1.buckets
    unfolding take_token
    take_token-Unique t j limiter u =
        let m = swept (suc limiter.takes) t limiter.buckets in
        spend-Unique j (suc limiter.takes) (refill (rule_of j) t (lookup j m)) m
          (swept-Unique (suc limiter.takes) t limiter.buckets u)

    -- Time passes, then a take.
    take_token-IsSound :
        (s t : ℕ) (j : Str) (limiter : RateLimiter)
        → s ≤ t
        → IsSound s limiter
        → IsSound t (take_token t j (rule_of j) limiter).1
    take_token-IsSound s t j limiter le (u, h) = (
      take_token-Unique t j limiter u,
      (take_token-level t j limiter
          (u, later-Fits (rule_of k) s t (lookup k limiter.buckets) le h)).1,
    )

    after-IsSound :
        (s e : ℕ) (attempts : List Attempt) (limiter : RateLimiter)
        → Within s attempts e
        → IsSound s limiter
        → IsSound e (after limiter attempts)
    after-IsSound s e [] limiter w (u, h) =
        (u, later-Fits (rule_of k) s e (lookup k limiter.buckets) w h)
    after-IsSound s e (a ∷ rest) limiter w sound =
        after-IsSound a.time e rest (take_token a.time a.key (rule_of a.key) limiter).1 w.1
          (take_token-IsSound s a.time a.key limiter w.0 sound)

    count_allowed-bounded :
        (s e : ℕ) (attempts : List Attempt) (limiter : RateLimiter)
        → Within s attempts e
        → IsSound s limiter
        → token * count_allowed k limiter attempts
          ≤ level_at s limiter + (e - s) * (rule_of k).refill_per_min
    count_allowed-bounded s e [] limiter w sound = omega arith
    count_allowed-bounded s e (a ∷ rest) limiter w sound =
        let next = (take_token a.time a.key (rule_of a.key) limiter).1 in
        let now_sound : IsSound a.time limiter =
          (sound.0, later-Fits (rule_of k) s a.time (lookup k limiter.buckets) w.0 sound.1) in
        omega (
          arith,
          count_allowed-bounded a.time e rest next w.1
              (take_token-IsSound s a.time a.key limiter w.0 sound),
          (take_token-level a.time a.key limiter now_sound).0,
          level-later (rule_of k) s a.time (lookup k limiter.buckets) w.0 sound.1,
          split_time s a.time e (rule_of k).refill_per_min w.0 (Within-le a.time e rest w.1),
        )

-- Whatever requests of other keys run in between, and whatever is swept, from the start of the
-- limiter or later: in a stretch of time the attempts of one key that are let through are at most
-- its capacity and what the rule refills in that time, if the rule fills an empty bucket within the
-- time after which idle buckets are swept. A token is 60000 units, of which a millisecond refills as
-- many as the rule refills tokens in a minute.
pub count_allowed-IsBounded :
    (rule_of : Str → RateLimitRule) (k : Str) (before attempts : List Attempt) (t s e : ℕ)
    → Refills (rule_of k)
    → Within t before s
    → Within s attempts e
    → token * count_allowed rule_of k (after rule_of new_limiter before) attempts
      ≤ (rule_of k).capacity * token + (e - s) * (rule_of k).refill_per_min
count_allowed-IsBounded rule_of k before attempts t s e refills w v =
    let sound =
      after-IsSound rule_of k refills t s before new_limiter w (tt, rw (lookup-empty k) tt) in
    let limiter = after rule_of new_limiter before in
    omega (
      arith,
      count_allowed-bounded rule_of k refills s e attempts limiter v sound,
      refill_bounded (rule_of k) s (lookup k limiter.buckets),
    )
