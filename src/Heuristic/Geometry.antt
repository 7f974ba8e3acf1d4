-- ===== src/Heuristic/Geometry.antt =====
-- Containment and expansion of an `AABB3f` (AtlasNet/lib/Native/Global/Types/AABB.hpp).
use atlas_net.Prelude.{
  ℕ, ◌≡◌, ◌≢◌, refl, sym, ap, ◌∙◌, inl, inr, Bool, true, false, ◌||◌, if◌then◌else◌, Bool-cases,
  arith,
}
use atlas_net.Bytes.Writer.{Vec3}
use atlas_net.Entity.Aabb.{Aabb}
use atlas_net.Heuristic.Floats.{Floats}

-- One round of the loop over the three coordinates: it returns false here.
unfoldable pub off_axis : Floats → ℕ → ℕ → ℕ → Bool
off_axis f p low high = f.less p low || f.less high p

unfoldable pub contains : Floats → Aabb → Vec3 → Bool
contains f b p =
    if off_axis f p.x b.min.x b.max.x
    then false
    else if off_axis f p.y b.min.y b.max.y
    then false
    else if off_axis f p.z b.min.z b.max.z
    then false
    else true

-- `glm::min` and `glm::max` on vectors, coordinate by coordinate.
unfoldable pub expand : Floats → Vec3 → Aabb → Aabb
expand f p b = record {
  min = record { x = f.min b.min.x p.x; y = f.min b.min.y p.y; z = f.min b.min.z p.z };
  max = record { x = f.max b.max.x p.x; y = f.max b.max.y p.y; z = f.max b.max.z p.z };
}

true-ne-false : true ≢ false
true-ne-false e = cc

module _ (f : Floats) where
  -- `a` is not less than `b` when it would then be less than `c`.
  not_less : (a b c : ℕ) → f.less a c ≡ false → f.less b c ≡ true → f.less a b ≡ false
  not_less a b c h k = elim (Bool-cases (f.less a b)) [
    | inl lower ↦ absurd (true-ne-false (sym (f.less_trans a b c lower k) ∙ h))
    | inr fine ↦ fine
  ]

  not_less' : (a b c : ℕ) → f.less c a ≡ false → f.less c b ≡ true → f.less b a ≡ false
  not_less' a b c h k = elim (Bool-cases (f.less b a)) [
    | inl lower ↦ absurd (true-ne-false (sym (f.less_trans c b a k lower) ∙ h))
    | inr fine ↦ fine
  ]

  under_min : (p q low : ℕ) → f.less q low ≡ false → f.less q (f.min low p) ≡ false
  under_min p q low h = rw (f.min_eq low p) (elim (Bool-cases (f.less p low)) [
    | inl lower ↦ rw lower (not_less q p low h lower)
    | inr fine ↦ rw fine h
  ])

  over_max : (p q high : ℕ) → f.less high q ≡ false → f.less (f.max high p) q ≡ false
  over_max p q high h = rw (f.max_eq high p) (elim (Bool-cases (f.less high p)) [
    | inl higher ↦ rw higher (not_less' q p high h higher)
    | inr fine ↦ rw fine h
  ])

  min_self : (p low : ℕ) → f.less p (f.min low p) ≡ false
  min_self p low = rw (f.min_eq low p) (elim (Bool-cases (f.less p low)) [
    | inl lower ↦ rw lower (f.less_irrefl p)
    | inr fine ↦ rw fine fine
  ])

  max_self : (p high : ℕ) → f.less (f.max high p) p ≡ false
  max_self p high = rw (f.max_eq high p) (elim (Bool-cases (f.less high p)) [
    | inl higher ↦ rw higher (f.less_irrefl p)
    | inr fine ↦ rw fine fine
  ])

  off_axis_self : (p low high : ℕ) → off_axis f p (f.min low p) (f.max high p) ≡ false
  unfolding off_axis
  off_axis_self p low high = rw (min_self p low, max_self p high) refl

  off_axis-expand :
      (p q low high : ℕ)
      → off_axis f q low high ≡ false
      → off_axis f q (f.min low p) (f.max high p) ≡ false
  unfolding off_axis
  off_axis-expand p q low high h = elim (Bool-cases (f.less q low)) [
    | inl out ↦ absurd (true-ne-false (sym (ap (λ x. x || f.less high q) out) ∙ h))
    | inr fine ↦
        rw (under_min p q low fine)
          (over_max p q high (sym (ap (λ x. x || f.less high q) fine) ∙ h))
  ]

  contains-on :
      (b : Aabb) (p : Vec3)
      → off_axis f p.x b.min.x b.max.x ≡ false
      → off_axis f p.y b.min.y b.max.y ≡ false
      → off_axis f p.z b.min.z b.max.z ≡ false
      → contains f b p ≡ true
  unfolding contains
  contains-on b p hx hy hz = rw (hx, hy, hz) refl

  -- What `contains` says of each axis.
  on_axes :
      (b : Aabb) (p : Vec3)
      → contains f b p ≡ true
      → (off_axis f p.x b.min.x b.max.x ≡ false)
        × (off_axis f p.y b.min.y b.max.y ≡ false)
        × (off_axis f p.z b.min.z b.max.z ≡ false)
  unfolding contains
  on_axes b p h = ground (arith, h)

  -- Where a box contains a point `q`, the box expanded to a point `p` contains `p` and `q`.
  pub expand-contains :
      (b : Aabb) (p q : Vec3)
      → contains f b q ≡ true
      → (contains f (expand f p b) p ≡ true) × (contains f (expand f p b) q ≡ true)
  unfolding expand
  expand-contains b p q h =
      let (hx, hy, hz) = on_axes b q h in
      (
        contains-on (expand f p b) p (off_axis_self p.x b.min.x b.max.x)
            (off_axis_self p.y b.min.y b.max.y) (off_axis_self p.z b.min.z b.max.z),
        contains-on (expand f p b) q (off_axis-expand p.x q.x b.min.x b.max.x hx)
            (off_axis-expand p.y q.y b.min.y b.max.y hy)
            (off_axis-expand p.z q.z b.min.z b.max.z hz),
      )
