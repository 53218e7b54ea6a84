-- ===== src/Prelude/Lex.antt =====
-- The lexicographic order on lists of numbers, which is Python's order of tuples and of texts.
use Prim.Native.Nat.{ℕ}
use mathlib.Core.Path.{◌≡◌, refl}
use mathlib.Core.Bool.{Bool, true, false}
use mathlib.Core.List.{List, [], ◌∷◌}
use native.Mathlib.Omega.{arith}
use agentic_fintech_ecosyste.Prelude.Tests.{ltb, ◌==◌, if◌then◌else◌}

unfoldable pub lex_lt : List ℕ → List ℕ → Bool
lex_lt [] [] = false
lex_lt [] (y ∷ ys) = true
lex_lt (x ∷ xs) [] = false
lex_lt (x ∷ xs) (y ∷ ys) = if ltb x y then true else if x == y then lex_lt xs ys else false

pub lex_lt_irrefl : (xs : List ℕ) → lex_lt xs xs ≡ false
unfolding lex_lt
lex_lt_irrefl [] = refl
lex_lt_irrefl (x ∷ xs) = ground (arith, lex_lt_irrefl xs)

pub lex_lt_trans :
    (xs ys zs : List ℕ) → lex_lt xs ys ≡ true → lex_lt ys zs ≡ true → lex_lt xs zs ≡ true
unfolding lex_lt
lex_lt_trans [] [] zs h k = ground arith
lex_lt_trans [] (y ∷ ys) [] h k = ground arith
lex_lt_trans [] (y ∷ ys) (z ∷ zs) h k = refl
lex_lt_trans (x ∷ xs) [] zs h k = ground arith
lex_lt_trans (x ∷ xs) (y ∷ ys) [] h k = ground arith
lex_lt_trans (x ∷ xs) (y ∷ ys) (z ∷ zs) h k = ground (arith, lex_lt_trans xs ys zs)

-- What is not below another list is below whatever that other list is below, or equal to it.
pub lex_lt_of_not_lt :
    (xs ys zs : List ℕ) → lex_lt xs ys ≡ false → lex_lt xs zs ≡ true → lex_lt ys zs ≡ true
unfolding lex_lt
lex_lt_of_not_lt [] [] zs h k = k
lex_lt_of_not_lt [] (y ∷ ys) zs h k = ground arith
lex_lt_of_not_lt (x ∷ xs) ys [] h k = ground arith
lex_lt_of_not_lt (x ∷ xs) [] (z ∷ zs) h k = refl
lex_lt_of_not_lt (x ∷ xs) (y ∷ ys) (z ∷ zs) h k = ground (arith, lex_lt_of_not_lt xs ys zs)
