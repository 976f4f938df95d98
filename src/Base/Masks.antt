-- ===== src/Base/Masks.antt =====
-- The mask of the low 14 bits of a 16-bit number as arithmetic, by evaluation at every number.
use Prim.Native.Nat.{ℕ, zero, suc, ◌+◌, ◌*◌, ◌/◌, ◌%◌, ◌^◌, ◌<◌, bit_and, bit_or}
use mathlib.Core.Path.{◌≡◌, refl, subst}
use mathlib.Core.Logic.{◌⊎◌, inl, inr}
use mathlib.Core.Bool.{Bool, true, ◌&&◌}
use native.Mathlib.Omega.{arith}
use native.Mathlib.Nat.{pow-suc}
use linuxreflect.Base.Tests.{◌==◌, ==_iff}

-- The two functions agree at every number of `k` bits: at the even ones and at the odd ones.
agree : ℕ → (ℕ → ℕ) → (ℕ → ℕ) → Bool
agree zero f g = f 0 == g 0
agree (suc k) f g =
    agree k (λ x. f (x * 2)) (λ x. g (x * 2)) && agree k (λ x. f (x * 2 + 1)) (λ x. g (x * 2 + 1))

even_or_odd : (i : ℕ) → (i / 2 * 2 ≡ i) ⊎ (i / 2 * 2 + 1 ≡ i)
even_or_odd i = omega arith

agree-eq : (k : ℕ) (f g : ℕ → ℕ) → agree k f g ≡ true → (i : ℕ) → i < 2 ^ k → f i ≡ g i
unfolding agree
agree-eq zero f g e i h =
    let first : 0 ≡ i = omega arith in subst (λ n. f n ≡ g n) first ((==_iff (f 0) (g 0)).0 e)
agree-eq (suc k) f g e i h =
    let half : i / 2 < 2 ^ k = omega (arith, h, pow-suc 2 k) in
    elim (even_or_odd i) [
      | inl even ↦
          subst (λ n. f n ≡ g n) even
            (agree-eq k (λ x. f (x * 2)) (λ x. g (x * 2)) (ground arith) (i / 2) half)
      | inr odd ↦
          subst (λ n. f n ≡ g n) odd
            (agree-eq k (λ x. f (x * 2 + 1)) (λ x. g (x * 2 + 1)) (ground arith) (i / 2) half)
    ]

pub bit_and-low : (x : ℕ) → x < 2 ^ 16 → bit_and x 0x3FFF ≡ x % 2 ^ 14
unfolding agree
bit_and-low = agree-eq 16 (λ x. bit_and x 0x3FFF) (λ x. x % 2 ^ 14) refl

-- The low 14 bits beside the two high ones.
pub bit_or-high : (x : ℕ) → x < 2 ^ 16 → bit_or (x % 2 ^ 14) (x / 2 ^ 14 * 2 ^ 14) ≡ x
unfolding agree
bit_or-high = agree-eq 16 (λ x. bit_or (x % 2 ^ 14) (x / 2 ^ 14 * 2 ^ 14)) (λ x. x) refl
