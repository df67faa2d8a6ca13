-- ===== src/Prelude/Text.antt =====
-- Texts as the lists of their code units: JavaScript compares and slices a string by those.
use Prim.Native.Nat.{ℕ}
use Prim.Native.Char.{code}
use Prim.Native.String.{String}
use mathlib.Core.Path.{◌≡◌, refl}
use mathlib.Core.Logic.{◌↔◌}
use mathlib.Core.Bool.{Bool, true, false, ◌&&◌}
use mathlib.Core.List.{List, [], ◌∷◌}
use native.Mathlib.Omega.{arith}
use canton_dex_reference_imp.Prelude.Tests.{◌==◌, ==→eq, and-eq-true}

abbrev pub Str : Type 0
Str = List ℕ

-- The code units of a literal (ASCII).
abbrev pub codes : String → Str
codes String.[] = []
codes (String.◌∷◌ c s) = code c ∷ codes s

-- `a === b`
infix 50 ◌===◌
unfoldable pub ◌===◌ : Str → Str → Bool
[] === [] = true
[] === (y ∷ ys) = false
(x ∷ xs) === [] = false
(x ∷ xs) === (y ∷ ys) = x == y && xs === ys

pub ===-refl : (a : Str) → (a === a) ≡ true
unfolding ◌===◌
===-refl [] = refl
===-refl (x ∷ xs) = ground (arith, ===-refl xs)

pub ===→eq : (a b : Str) → (a === b) ≡ true → a ≡ b
unfolding ◌===◌
===→eq [] [] h = refl
===→eq [] (y ∷ ys) h = cc
===→eq (x ∷ xs) [] h = cc
===→eq (x ∷ xs) (y ∷ ys) h =
    let (p, q) = and-eq-true (x == y) (xs === ys) h in cc (==→eq x y p, ===→eq xs ys q)

pub ===_iff : (a b : Str) → ((a === b) ≡ true) ↔ (a ≡ b)
===_iff a b = (===→eq a b, λ e. rw e (===-refl b))
