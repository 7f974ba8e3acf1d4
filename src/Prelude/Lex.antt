-- ===== src/Prelude/Lex.antt =====
-- Byte strings in lexicographic order, and their equality.
use Prim.Native.Nat.{ℕ}
use mathlib.Core.Path.{◌≡◌, refl}
use mathlib.Core.Bool.{Bool, true, false, ◌&&◌, ◌||◌}
use mathlib.Core.List.{List, [], ◌∷◌}
use native.Mathlib.Omega.{arith}
use atlas_net.Prelude.Tests.{ltb, ◌==◌}

abbrev pub lex_less : List ℕ → List ℕ → Bool
lex_less [] [] = false
lex_less [] (b ∷ ys) = true
lex_less (a ∷ xs) [] = false
lex_less (a ∷ xs) (b ∷ ys) = ltb a b || ((a == b) && lex_less xs ys)

abbrev pub lex_same : List ℕ → List ℕ → Bool
lex_same [] [] = true
lex_same [] (b ∷ ys) = false
lex_same (a ∷ xs) [] = false
lex_same (a ∷ xs) (b ∷ ys) = (a == b) && lex_same xs ys

pub lex_less_trans :
    (a b c : List ℕ) → lex_less a b ≡ true → lex_less b c ≡ true → lex_less a c ≡ true
lex_less_trans [] [] c h k = k
lex_less_trans [] (b ∷ ys) [] h k = k
lex_less_trans [] (b ∷ ys) (c ∷ zs) h k = refl
lex_less_trans (a ∷ xs) [] c h k = cc
lex_less_trans (a ∷ xs) (b ∷ ys) [] h k = k
lex_less_trans (a ∷ xs) (b ∷ ys) (c ∷ zs) h k = ground (arith, lex_less_trans xs ys zs)

pub lex_less_irrefl : (a : List ℕ) → lex_less a a ≡ false
lex_less_irrefl [] = refl
lex_less_irrefl (a ∷ xs) = ground (arith, lex_less_irrefl xs)

pub lex_less_total : (a b : List ℕ) → lex_less a b ≡ false → lex_less b a ≡ false → a ≡ b
lex_less_total [] [] h k = refl
lex_less_total [] (b ∷ ys) h k = cc
lex_less_total (a ∷ xs) [] h k = cc
lex_less_total (a ∷ xs) (b ∷ ys) h k = ground (arith, lex_less_total xs ys)

pub lex_same_refl : (a : List ℕ) → lex_same a a ≡ true
lex_same_refl [] = refl
lex_same_refl (a ∷ xs) = ground (arith, lex_same_refl xs)

pub lex_same_eq : (a b : List ℕ) → lex_same a b ≡ true → a ≡ b
lex_same_eq [] [] h = refl
lex_same_eq [] (b ∷ ys) h = cc
lex_same_eq (a ∷ xs) [] h = cc
lex_same_eq (a ∷ xs) (b ∷ ys) h = ground (arith, lex_same_eq xs ys)
