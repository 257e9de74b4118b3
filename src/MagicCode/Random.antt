-- ===== src/MagicCode/Random.antt =====
-- `random_below` of bauth_server/src/magic_code.rs.
use native.Mathlib.Nat.{mul-add-mod_self_right, mod-eq_of_lt}
use bauth.Base.{
  ◌∙◌, ℕ, ◌+◌, ◌*◌, ◌-◌, ◌/◌, ◌%◌, ◌≤◌, ◌<◌, ◌≡◌, ◌↔◌, ◌⊎◌, true, List, [], ◌∷◌, some, any, leb,
  inl, inr, Bool-cases, arith,
}
use bauth.MagicCode.{u32_max, zone, Draw, from_le_bytes, random_below}

pub zone_bounds :
    (range : ℕ)
    → 0 < range
    → range ≤ u32_max
    → (zone range ≤ u32_max) × (u32_max < 2 * (zone range + 1)) × (u32_max - zone range < range)
unfolding zone
zone_bounds range p q = (grind arith, grind arith, grind arith)

pub zone_multiple :
    (range : ℕ) → 0 < range → range ≤ u32_max → (k : ℕ) × (zone range + 1 ≡ k * range)
unfolding zone
zone_multiple range p q = ((u32_max - range + 1) / range + 1, grind arith)

-- If one of the draws lies in the zone, and the range is not 0, the loop returns a number below
-- the range.
pub random_below_total :
    (range : ℕ) (draws : List Draw)
    → 0 < range
    → any (λ d. leb (from_le_bytes d) (zone range)) draws ≡ true
    → (r : ℕ) × (random_below range draws ≡ some r) × (r < range)
unfolding random_below
random_below_total range [] p h = absurd (ground arith)
random_below_total range (d ∷ ds) p h = elim (Bool-cases (leb (from_le_bytes d) (zone range))) [
  | inl t ↦ (from_le_bytes d % range, ground arith, omega arith)
  | inr t ↦ ground (arith, random_below_total range ds p)
]

pub random_below-lt :
    (range : ℕ) (draws : List Draw) {r : ℕ}
    → 0 < range
    → random_below range draws ≡ some r
    → r < range
unfolding random_below
random_below-lt range [] p e = absurd (ground arith)
random_below-lt range (d ∷ ds) {r} p e = elim (Bool-cases (leb (from_le_bytes d) (zone range))) [
  | inl t ↦ let same : from_le_bytes d % range ≡ r = ground arith in omega arith
  | inr t ↦ random_below-lt range ds p (ground arith)
]

-- More than half of the 32-bit values lie in the zone.
zone_half : (range : ℕ) → 0 < range → range ≤ u32_max → u32_max + 1 < 2 * (zone range + 1)
unfolding zone
zone_half range p q = grind arith

-- A value of the zone is a copy of its remainder.
zone_copy :
    (range copies v r : ℕ)
    → 0 < range
    → zone range + 1 ≡ copies * range
    → ((v ≤ zone range) × (v % range ≡ r))
      ↔ ((k : ℕ) × (k < copies) × (r < range) × (v ≡ k * range + r))
zone_copy range copies v r p e = (
  λ (inside, m). (v / range, grind arith, omega arith, grind arith),
  λ (k, below, lt, m). (grind arith, rw m (mul-add-mod_self_right k range r ∙ mod-eq_of_lt lt)),
)

-- For a range from 1 to the largest 32-bit number there is a number of copies such that: more
-- than half of the 32-bit values are below that many times the range; and the loop gives a
-- result exactly when the value of its first draw is one of so many copies of the result, which
-- is below the range, or is not below that bound and the loop gives the result from the other
-- draws.
pub random_below_uniform :
    (range : ℕ)
    → 0 < range
    → range ≤ u32_max
    → (copies : ℕ) × (u32_max + 1 < 2 * (copies * range))
      × (copies * range ≤ u32_max + 1)
      × ((d : Draw) (ds : List Draw) (r : ℕ)
          → (random_below range (d ∷ ds) ≡ some r) ↔ (
              ((k : ℕ) × (k < copies) × (r < range) × (from_le_bytes d ≡ k * range + r))
              ⊎ ((copies * range ≤ from_le_bytes d) × (random_below range ds ≡ some r))))
unfolding random_below
random_below_uniform range p q =
    let (copies, e) = zone_multiple range p q in
    (
      copies,
      omega (arith, zone_half range p q),
      omega (arith, zone_bounds range p q),
      λ d ds r. (
        λ h. elim (Bool-cases (leb (from_le_bytes d) (zone range))) [
          | inl t ↦
              inl ((zone_copy range copies (from_le_bytes d) r p e).0 (ground arith, ground arith))
          | inr t ↦ inr (ground arith, ground arith)
        ],
        λ h. elim h [
          | inl copy ↦
              let (inside, m) = (zone_copy range copies (from_le_bytes d) r p e).1 copy in
              ground arith
          | inr (beyond, later) ↦ ground arith
        ],
      ),
    )
