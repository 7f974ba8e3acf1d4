-- ===== src/Heuristic/Floats.antt =====
-- What AABB.hpp uses of floats and of glm. The laws hold of IEEE 754 numbers, NaN included, and say of
-- `glm::min` and `glm::max` what glm documents. Nothing here models code of the repository.
use atlas_net.Prelude.{ℕ, ◌≡◌, refl, Bool, true, false, ltb, if◌then◌else◌, arith}

pub record Floats : Type 0 where
  pub less : ℕ → ℕ → Bool
  pub min : ℕ → ℕ → ℕ
  pub max : ℕ → ℕ → ℕ
  pub less_irrefl : (a : ℕ) → less a a ≡ false
  pub less_trans : (a b c : ℕ) → less a b ≡ true → less b c ≡ true → less a c ≡ true
  pub min_eq : (a b : ℕ) → min a b ≡ (if less b a then b else a)
  pub max_eq : (a b : ℕ) → max a b ≡ (if less a b then b else a)

pub ltb_irrefl : (a : ℕ) → ltb a a ≡ false
ltb_irrefl a = ground arith

pub ltb_trans : (a b c : ℕ) → ltb a b ≡ true → ltb b c ≡ true → ltb a c ≡ true
ltb_trans a b c h k = ground arith

-- The patterns of the numbers from zero up are ordered as natural numbers are.
abbrev pub nonnegative : Floats
nonnegative = record {
  less = ltb;
  min = λ a b. if ltb b a then b else a;
  max = λ a b. if ltb a b then b else a;
  less_irrefl = ltb_irrefl;
  less_trans = ltb_trans;
  min_eq = λ a b. refl;
  max_eq = λ a b. refl;
}
