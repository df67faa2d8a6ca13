-- ===== src/Decimal/Root.antt =====
-- `isqrt` and `sqrt` of services/operator-backend/src/pool/decimal.ts against the floor of the root.
use canton_dex_reference_imp.Prelude.{
  ℕ, zero, suc, ◌+◌, ◌-◌, ◌*◌, ◌/◌, ◌≤◌, ◌<◌, ◌≡◌, refl, arith, ltb, ltb→lt, ltb→le, some, leb,
  leb→le, leb→lt, le→ltb, subst, Bool-cases, inl, inr,
}
use canton_dex_reference_imp.Prelude.Int.{pos}
use canton_dex_reference_imp.Prelude.Outcome.{returns}
use native.Mathlib.Nat.{mod-lt, div-add-mod', div_self}
use canton_dex_reference_imp.Decimal.{scale, newton, isqrt, sqrt}

square_mono : (a b k : ℕ) → a + k ≡ b → a * a ≤ b * b
square_mono a b k e = rw (← e) (omega arith)

square-le-square : (a b : ℕ) → a ≤ b → a * a ≤ b * b
square-le-square a b h = square_mono a b (b - a) (omega arith)

-- Four times a product is at most the square of the sum.
four_mul-le_ordered : (x k : ℕ) → 4 * (x * (x + k)) ≤ (x + (x + k)) * (x + (x + k))
four_mul-le_ordered x k = omega arith

four_mul-le_of_le : (x s : ℕ) → x ≤ s → 4 * (x * s) ≤ (x + s) * (x + s)
four_mul-le_of_le x s h =
    subst (λ t. 4 * (x * t) ≤ (x + t) * (x + t)) (let e : x + (s - x) ≡ s = omega arith in e)
      (four_mul-le_ordered x (s - x))

four_mul-le : (x s : ℕ) → 4 * (x * s) ≤ (x + s) * (x + s)
four_mul-le x s = elim (Bool-cases (leb x s)) [
  | inl h ↦ four_mul-le_of_le x s (leb→le x s h)
  | inr h ↦
      let l : s ≤ x = (let k = leb→lt x s h in omega arith) in
      omega (arith, four_mul-le_of_le s x l)
]

-- The step never falls under the root.
next_above_of : (n x q t : ℕ) → n < x * (q + 1) → x + q ≤ 2 * t + 1 → n < (t + 1) * (t + 1)
next_above_of n x q t h k =
    let a = four_mul-le x (q + 1) in
    let b : (x + (q + 1)) * (x + (q + 1)) ≤ (2 * t + 2) * (2 * t + 2) =
      square-le-square (x + (q + 1)) (2 * t + 2) (omega arith) in
    omega arith

next_above : (n x : ℕ) → 0 < x → n < ((x + n / x) / 2 + 1) * ((x + n / x) / 2 + 1)
next_above n x h =
    next_above_of n x (n / x) ((x + n / x) / 2) (omega (arith, div-add-mod' n x, mod-lt n h))
      (omega arith)

-- Where the next step does not fall, the root is found.
square-le_of_stop : (n x : ℕ) → 0 < x → x ≤ (x + n / x) / 2 → x * x ≤ n
square-le_of_stop n x p h =
    let k : x ≤ n / x = omega arith in
    let m : x * x ≤ n / x * x = grind arith in omega (arith, div-add-mod' n x)

pos_of_square : (y n : ℕ) → 0 < n → n < (y + 1) * (y + 1) → 0 < y
pos_of_square zero n p h = absurd (omega arith)
pos_of_square (suc y) n p h = omega arith

newton_lem :
    (fuel n x y : ℕ)
    → 0 < n
    → 0 < x
    → y ≡ (x + n / x) / 2
    → x < fuel
    → n < (x + 1) * (x + 1)
    → (r : ℕ) × (newton fuel n x y ≡ some r) × (r * r ≤ n) × (n < (r + 1) * (r + 1))
unfolding newton
newton_lem zero n x y n0 p e f b = absurd (omega arith)
newton_lem (suc fuel) n x y n0 p e f b = elim (Bool-cases (ltb y x)) [
  | inl falls ↦
      let next : n < (y + 1) * (y + 1) = rw e (next_above n x p) in
      let (r, q, low, high) =
        newton_lem fuel n y ((y + n / y) / 2) n0 (pos_of_square y n n0 next) refl
          (let l = ltb→lt y x falls in omega arith) next in
      (r, rw falls q, low, high)
  | inr stops ↦ (x, rw stops, square-le_of_stop n x p (let l = ltb→le y x stops in omega arith), b)
]

-- `isqrt` returns on every number, and what it returns is the floor of the root: the loop ends.
pub isqrt-floor :
    (n : ℕ) → (r : ℕ) × (isqrt (pos n) ≡ returns (pos r)) × (r * r ≤ n) × (n < (r + 1) * (r + 1))
unfolding isqrt
isqrt-floor zero = (0, refl, omega arith, omega arith)
isqrt-floor (suc zero) = (1, refl, omega arith, omega arith)
isqrt-floor (suc (suc n)) =
    let m : ℕ = suc (suc n) in
    let (r, q, low, high) =
      newton_lem (suc m) m m ((m + 1) / 2) (omega arith) (omega arith)
        (rw (div_self {n = suc (suc n)} (omega arith))) (omega arith) (omega arith) in
    (r, rw (le→ltb m 2 (omega arith), q), low, high)

-- `sqrt` of a scaled number is its scaled root, floored: never above the true root, and less than
-- one unit below it.
pub sqrt-floor :
    (a : ℕ)
    → (r : ℕ) × (sqrt (pos a) ≡ returns (pos r))
      × (r * r ≤ a * scale)
      × (a * scale < (r + 1) * (r + 1))
unfolding sqrt
sqrt-floor a =
    let (r, q, low, high) = isqrt-floor (a * scale) in
    (r, rw (le→ltb a 0 (omega arith)) q, low, high)
