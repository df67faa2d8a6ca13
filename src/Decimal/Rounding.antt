-- ===== src/Decimal/Rounding.antt =====
-- The rounding of pool/decimal.ts: half to even, to the floor, and up after one exact product.
use canton_dex_reference_imp.Prelude.{
  leb, leb→le, leb→lt, ℕ, zero, suc, ◌+◌, ◌-◌, ◌*◌, ◌/◌, ◌%◌, ◌≤◌, ◌<◌, ◌≡◌, refl, arith, ltb, ◌==◌,
  if◌then◌else◌, Bool-cases, inl, inr, subst, ltb→lt, ltb→le, le→ltb, ==→eq, ==→ne, ne→==,
}
use canton_dex_reference_imp.Prelude.Int.{
  ℤ, pos, negsuc, ◌+ℤ◌, ◌*ℤ◌, ◌≤ℤ◌, ◌<ℤ◌, neg_ℤ, neg_ℕ, abs_ℕ, ltb_ℤ, eqb_ℤ, neg_ℕ-mul,
  neg_ℕ-sub-one, neg_ℕ_parts, negsuc-add-one,
}
use canton_dex_reference_imp.Prelude.Outcome.{returns}
use native.Mathlib.Nat.{mod-lt, div-add-mod', div-eq_of_lt}
use canton_dex_reference_imp.Decimal.{
  scale, div_round_half_even, mul, div, div_floor_int, mul_floor, div_floor, ceil_mul_div,
  round_up_half,
}

-- The rounded quotient of two numbers.
unfoldable pub round_even : ℕ → ℕ → ℕ
round_even n d =
    if ltb d (2 * (n % d))
    then n / d + 1
    else if 2 * (n % d) == d
    then (if n / d % 2 == 1 then n / d + 1 else n / d)
    else n / d

pub round_up_half-pos :
    (n d : ℕ) → round_up_half (pos (n / d)) (pos (n % d)) (pos d) ≡ pos (round_even n d)
unfolding round_up_half round_even
round_up_half-pos n d = ground arith

pub div_round_half_even-pos : (n d : ℕ) → div_round_half_even (pos n) (pos d) ≡ pos (round_even n d)
unfolding div_round_half_even
div_round_half_even-pos n d = ground (arith, round_up_half-pos n d)

pub div_round_half_even-negsuc :
    (n d : ℕ) → div_round_half_even (negsuc n) (pos d) ≡ neg_ℤ (pos (round_even (suc n) d))
unfolding div_round_half_even
div_round_half_even-negsuc n d = rw (round_up_half-pos (suc n) d)

-- The multiple of `d` is nearest to `n`, and on a tie the quotient is even.
abbrev pub IsNearestEven : ℕ → ℕ → ℕ → Type 0
IsNearestEven n d q =
    (2 * n ≤ 2 * (q * d) + d)
    × (2 * (q * d) ≤ 2 * n + d)
    × (2 * n ≡ 2 * (q * d) + d → q % 2 ≡ 0)
    × (2 * (q * d) ≡ 2 * n + d → q % 2 ≡ 0)

abbrev round_parts : ℕ → ℕ → ℕ → ℕ
round_parts q r d =
    if ltb d (2 * r) then q + 1 else if 2 * r == d then (if q % 2 == 1 then q + 1 else q) else q

round_parts-nearest : (q r d : ℕ) → r < d → IsNearestEven (q * d + r) d (round_parts q r d)
round_parts-nearest q r d h = elim (Bool-cases (ltb d (2 * r))) [
  | inl up ↦ rw up (let u = ltb→lt _ _ up in omega arith)
  | inr low ↦ elim (Bool-cases (2 * r == d)) [
    | inl tie ↦ elim (Bool-cases (q % 2 == 1)) [
      | inl odd ↦ rw (low, tie, odd) (let t = ==→eq _ _ tie in let o = ==→eq _ _ odd in omega arith)
      | inr even ↦
          rw (low, tie, even) (let t = ==→eq _ _ tie in let o = ==→ne _ _ even in omega arith)
    ]
    | inr away ↦ rw (low, away) (let l = ltb→le _ _ low in let a = ==→ne _ _ away in omega arith)
  ]
]

no_multiple : (j d n k : ℕ) → 0 < d → 2 * ((k + 1 + j) * d) ≤ 2 * n + d → ¬ (n ≤ k * d)
no_multiple j d n k p h e = omega arith

le_of_multiple : (q d n k : ℕ) → 0 < d → 2 * (q * d) ≤ 2 * n + d → n ≤ k * d → q ≤ k
le_of_multiple q d n k p h e = elim (Bool-cases (leb q k)) [
  | inl le ↦ leb→le q k le
  | inr gt ↦
      let l = leb→lt q k gt in
      absurd (
        no_multiple (q - k - 1) d n k p (subst (λ (t : ℕ). 2 * (t * d) ≤ 2 * n + d) (omega arith) h)
          e)
]

pub round_even-nearest : (n d : ℕ) → 0 < d → IsNearestEven n d (round_even n d)
unfolding round_even
round_even-nearest n d h =
    subst (λ k. IsNearestEven k d (round_even n d)) (div-add-mod' n d)
      (round_parts-nearest (n / d) (n % d) d (mod-lt n h))

-- A rounded quotient stays at or under a whole bound of the quotient.
pub round_even-le : (n d k : ℕ) → 0 < d → n ≤ k * d → round_even n d ≤ k
round_even-le n d k p h = le_of_multiple (round_even n d) d n k p (round_even-nearest n d p).1 h

-- A quotient that is floored.
pub div_floor_int-pos : (n d : ℕ) → div_floor_int (pos n) (pos d) ≡ pos (n / d)
unfolding div_floor_int
div_floor_int-pos n d = ground arith

eqb_neg_ℕ : (m n : ℕ) → eqb_ℤ (neg_ℕ m) (negsuc n) ≡ (m == suc n)
eqb_neg_ℕ m n = ground arith

pub div_floor_int-negsuc :
    (n d : ℕ)
    → div_floor_int (negsuc n) (pos d)
      ≡ (if suc n / d * d == suc n then neg_ℕ (suc n / d) else neg_ℕ (suc n / d + 1))
unfolding div_floor_int
div_floor_int-negsuc n d =
    rw (neg_ℕ-mul (suc n / d) d, eqb_neg_ℕ (suc n / d * d) n, neg_ℕ-sub-one (suc n / d))
      (ground arith)

-- `q` is the floor of `num / d`.
abbrev pub IsFloor : ℤ → ℕ → ℤ → Type 0
IsFloor num d q = (q *ℤ pos d ≤ℤ num) × (num <ℤ (q +ℤ pos 1) *ℤ pos d)

neg_ℕ-IsFloor : (m d q : ℕ) → m ≤ q * d → q * d < m + d → IsFloor (neg_ℕ m) d (neg_ℕ q)
neg_ℕ-IsFloor m d zero h k = omega (arith, neg_ℕ_parts m, neg_ℕ_parts (0 * d))
neg_ℕ-IsFloor m d (suc q) h k =
    rw (negsuc-add-one q, neg_ℕ-mul q d)
      (omega (arith, neg_ℕ_parts m, neg_ℕ_parts (suc q * d), neg_ℕ_parts (q * d)))

-- `divFloorInt` by a positive divisor gives the floor of the quotient, below zero too.
pub div_floor_int-IsFloor : (num : ℤ) (d : ℕ) → 0 < d → IsFloor num d (div_floor_int num (pos d))
div_floor_int-IsFloor (pos n) d h =
    rw (div_floor_int-pos n d) (omega (arith, div-add-mod' n d, mod-lt n h))
div_floor_int-IsFloor (negsuc n) d h =
    rw (div_floor_int-negsuc n d) (elim (Bool-cases (suc n / d * d == suc n)) [
      | inl whole ↦ rw whole (
          neg_ℕ-IsFloor (suc n) d (suc n / d) (omega (arith, ==→eq _ _ whole))
            (omega (arith, ==→eq _ _ whole)))
      | inr part ↦ rw part (
          neg_ℕ-IsFloor (suc n) d (suc n / d + 1)
            (omega (arith, ==→ne _ _ part, div-add-mod' (suc n) d, mod-lt (suc n) h))
            (omega (arith, ==→ne _ _ part, div-add-mod' (suc n) d, mod-lt (suc n) h)))
    ])

pub mul_floor-pos : (a b : ℕ) → mul_floor (pos a) (pos b) ≡ pos (a * b / scale)
unfolding mul_floor
mul_floor-pos a b = div_floor_int-pos (a * b) scale

pub div_floor-pos : (a b : ℕ) → 0 < b → div_floor (pos a) (pos b) ≡ returns (pos (a * scale / b))
unfolding div_floor
div_floor-pos a b h = rw (div_floor_int-pos, ne→== b 0 (omega arith))

pub mul-pos : (a b : ℕ) → mul (pos a) (pos b) ≡ pos (round_even (a * b) scale)
unfolding mul
mul-pos a b = div_round_half_even-pos (a * b) scale

pub div-pos : (a b : ℕ) → 0 < b → div (pos a) (pos b) ≡ returns (pos (round_even (a * scale) b))
unfolding div
div-pos a b h = rw (div_round_half_even-pos, ne→== b 0 (omega arith))

pub ceil_mul_div-pos :
    (a b d : ℕ) → 0 < d → ceil_mul_div (pos a) (pos b) (pos d) ≡ returns (pos ((a * b + d - 1) / d))
unfolding ceil_mul_div
ceil_mul_div-pos zero b d h = ground (arith, div-eq_of_lt {n = 0 * b + d - 1} {m = d} (omega arith))
ceil_mul_div-pos (suc a) zero d h =
    ground (arith, div-eq_of_lt {n = suc a * 0 + d - 1} {m = d} (omega arith))
ceil_mul_div-pos (suc a) (suc b) d h = ground arith

-- The smallest multiple of `d` that is not below the product.
pub ceil_bounds : (n d : ℕ) → 0 < d → (n ≤ (n + d - 1) / d * d) × ((n + d - 1) / d * d < n + d)
ceil_bounds n d h = omega (arith, div-add-mod' (n + d - 1) d, mod-lt (n + d - 1) h)

abs-neg_ℕ : (n : ℕ) → abs_ℕ (neg_ℕ n) ≡ n
abs-neg_ℕ zero = refl
abs-neg_ℕ (suc n) = refl

-- A count whose multiple lies less than one divisor above a number is no larger than any other
-- count that reaches it.
pub div-le_of_lt-mul : (c n k d : ℕ) → n ≤ k * d → c * d < n + d → c ≤ k
div-le_of_lt-mul c n k d e lt = grind arith

-- `divRoundHalfEven` rounds a quotient by a positive divisor to the nearest integer in size, a tie
-- to the even one, and the result has the sign of the dividend.
pub div_round_half_even-nearest :
    (num : ℤ) (d : ℕ)
    → 0 < d
    → let q = div_round_half_even num (pos d) in
      IsNearestEven (abs_ℕ num) d (abs_ℕ q)
      × (q ≡ (if ltb_ℤ num (pos 0) then neg_ℕ (abs_ℕ q) else pos (abs_ℕ q)))
div_round_half_even-nearest (pos n) d h =
    rw (div_round_half_even-pos n d, le→ltb n 0 (omega arith)) (round_even-nearest n d h, refl)
div_round_half_even-nearest (negsuc n) d h =
    rw (div_round_half_even-negsuc n d, abs-neg_ℕ (round_even (suc n) d))
      (round_even-nearest (suc n) d h, refl)

-- `ceilMulDiv` on numbers and a positive divisor gives the smallest multiple count of the divisor
-- that is not below the exact product.
pub ceil_mul_div-least :
    (a b d : ℕ)
    → 0 < d
    → (c : ℕ) × (ceil_mul_div (pos a) (pos b) (pos d) ≡ returns (pos c))
      × (a * b ≤ c * d)
      × ((k : ℕ) → a * b ≤ k * d → c ≤ k)
ceil_mul_div-least a b d h =
    let n = a * b in
    (
      (n + d - 1) / d,
      ceil_mul_div-pos a b d h,
      (ceil_bounds n d h).0,
      λ k e. div-le_of_lt-mul ((n + d - 1) / d) n k d e (ceil_bounds n d h).1,
    )
