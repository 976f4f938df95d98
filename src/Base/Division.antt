-- ===== src/Base/Division.antt =====
-- Boolean tests across a division.
use Prim.Native.Nat.{ℕ, ◌+◌, ◌-◌, ◌*◌, ◌/◌, ◌≤◌, ◌<◌}
use mathlib.Core.Path.{◌≡◌}
use mathlib.Core.Logic.{inl, inr}
use native.Mathlib.Omega.{arith}
use native.Mathlib.Nat.{
  le-div_iff_mul-le, div-lt_iff_lt-mul, mul-div_cancel, div-eq_of_lt-le, div-mul-le_self,
}
use linuxreflect.Base.Tests.{leb, leb→le, Bool-cases}

leb-eq_of : (a b c d : ℕ) → (a ≤ b → c ≤ d) → (c ≤ d → a ≤ b) → leb a b ≡ leb c d
leb-eq_of a b c d f g = ground arith

pub leb-mul_left : (d a y : ℕ) → 0 < d → leb (a * d) y ≡ leb a (y / d)
leb-mul_left d a y h = leb-eq_of (a * d) y a (y / d) (le-div_iff_mul-le h).1 (le-div_iff_mul-le h).0

-- The last number of block `h` bounds exactly the blocks up to `h`.
pub leb_block_end : (d h y : ℕ) → 0 < d → leb y (h * d + (d - 1)) ≡ leb (y / d) h
leb_block_end d h y p =
    leb-eq_of y (h * d + (d - 1)) (y / d) h
      (λ q. omega (arith, (div-lt_iff_lt-mul {k = d} {x = y} {y = h + 1} p).1 (omega arith)))
      (λ q. omega (arith, (div-lt_iff_lt-mul {k = d} {x = y} {y = h + 1} p).0 (omega arith)))

pub block_start_div : (d a : ℕ) → 0 < d → a * d / d ≡ a
block_start_div d a p = mul-div_cancel a p

pub block_end_div : (d a : ℕ) → 0 < d → (a * d + (d - 1)) / d ≡ a
block_end_div d a p = div-eq_of_lt-le d (omega arith) (omega arith)

pub div_mono : (d a b : ℕ) → 0 < d → a ≤ b → a / d ≤ b / d
div_mono d a b p h = (le-div_iff_mul-le p).1 (omega (arith, div-mul-le_self a d))

-- A block that a range touches holds a number of the range.
pub pick_in_block :
    (d lo hi c : ℕ)
    → 0 < d
    → lo ≤ hi
    → lo / d ≤ c
    → c ≤ hi / d
    → (y : ℕ) × (y / d ≡ c) × (lo ≤ y) × (y ≤ hi)
pick_in_block d lo hi c p h k l =
    let below : c * d ≤ hi = (le-div_iff_mul-le p).0 l in
    elim (Bool-cases (leb (c * d) lo)) [
      | inl e ↦
          (let up : c ≤ lo / d = (le-div_iff_mul-le p).1 (leb→le _ _ e) in
            (lo, omega arith, omega arith, h))
      | inr e ↦ (c * d, block_start_div d c p, ground arith, below)
    ]

-- A block that starts no later than the end of block `b` is block `b` or an earlier one.
pub block_le : (d a b : ℕ) → 0 < d → a * d ≤ b * d + (d - 1) → a ≤ b
block_le d a b p h = rw (block_end_div d b p) at ((le-div_iff_mul-le p).1 h)

pub mul_mono_left : (d a b : ℕ) → a ≤ b → a * d ≤ b * d
mul_mono_left d a b h = grind arith
