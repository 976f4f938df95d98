-- ===== src/FsMap/Extents/Regions.antt =====
-- `complement` and `to_bytes`: what the results cover.
use linuxreflect.Base.{
  ℕ, ◌+◌, ◌-◌, ◌/◌, ◌%◌, ◌^◌, ◌≤◌, ◌<◌, ◌≡◌, refl, false, not, ◌&&◌, List, [], ◌∷◌, arith, leb, ltb,
  Bool-cases, inl, inr, ◌*◌, leb-mul_left, leb_block_end,
}
use linuxreflect.Base.Result.{ok}
use linuxreflect.FsMap.Extents.{
  Range, u64_max, covered, Separated, complement_from, complement, to_bytes,
}

-- All ranges lie inside `[first, end_exclusive)`.
abbrev pub Inside : ℕ → ℕ → List Range → Type 0
Inside first end_exclusive [] = Unit
Inside first end_exclusive ((lo, hi) ∷ rest) =
    (first ≤ lo) × (hi < end_exclusive) × Inside first end_exclusive rest

Separated-weaken : (m n : ℕ) (rs : List Range) → m ≤ n → Separated n rs → Separated m rs
Separated-weaken m n [] h s = tt
Separated-weaken m n ((a, b) ∷ rs) h (p, q, s) = (omega arith, q, s)

covered-below : (x n : ℕ) (rs : List Range) → x < n → Separated n rs → covered x rs ≡ false
covered-below x n [] h s = refl
covered-below x n ((a, b) ∷ rs) h (p, q, s) = ground (arith, covered-below x (b + 2) rs)

complement_from_lem :
    (first end_exclusive cursor : ℕ) (free : List Range)
    → Separated cursor free
    → Inside first end_exclusive free
    → (used : List Range) × (complement_from first end_exclusive cursor free ≡ ok used)
      × Separated cursor used
      × ((x : ℕ) → covered x used ≡ (leb cursor x && ltb x end_exclusive && not (covered x free)))
unfolding complement_from
complement_from_lem first e cursor [] s i = elim (Bool-cases (ltb cursor e)) [
  | inl more ↦ ((cursor, e - 1) ∷ [], rw more, ground arith, λ x. ground arith)
  | inr done ↦ ([], rw done, tt, λ x. ground arith)
]
complement_from_lem first e cursor ((lo, hi) ∷ free) (p, q, s) (l, u, i) =
    let (used, r, sep, cov) =
      complement_from_lem first e (hi + 1) free
        (Separated-weaken (hi + 1) (hi + 2) free (omega arith) s) i in
    elim (Bool-cases (ltb cursor lo)) [
      | inl gap ↦ (
        (cursor, lo - 1) ∷ used,
        ground arith,
        ground (arith, Separated-weaken (lo - 1 + 2) (hi + 1) used),
        λ x. ground (arith, cov x, covered-below x (hi + 2) free),
      )
      | inr tight ↦ (
        used,
        ground arith,
        Separated-weaken cursor (hi + 1) used (omega arith) sep,
        λ x. ground (arith, cov x, covered-below x (hi + 2) free),
      )
    ]

-- Of separated free ranges inside the region, `complement` returns separated ranges that cover
-- exactly the numbers of the region that no free range holds.
pub complement_lem :
    (first end_exclusive : ℕ) (free : List Range)
    → Separated first free
    → Inside first end_exclusive free
    → (used : List Range) × (complement first end_exclusive free ≡ ok used)
      × Separated first used
      × ((x : ℕ) → covered x used ≡ (leb first x && ltb x end_exclusive && not (covered x free)))
unfolding complement
complement_lem first e free s i = complement_from_lem first e first free s i

-- All ranges, in bytes, end inside the `u64` numbers.
abbrev pub FitsBytes : ℕ → List Range → Type 0
FitsBytes block_size [] = Unit
FitsBytes block_size ((lo, hi) ∷ rest) =
    (lo ≤ hi) × ((hi + 1) * block_size ≤ 2 ^ 64) × FitsBytes block_size rest

byte_ends :
    (bs lo hi : ℕ)
    → 0 < bs
    → lo ≤ hi
    → (hi + 1) * bs ≤ 2 ^ 64
    → (lo * bs % 2 ^ 64 ≡ lo * bs)
      × (((hi + 1) * bs % 2 ^ 64 + u64_max) % 2 ^ 64 ≡ hi * bs + (bs - 1))
byte_ends bs lo hi p h f =
    let below : lo * bs ≤ hi * bs = grind arith in
    let split : (hi + 1) * bs ≡ hi * bs + bs = omega arith in (omega arith, ground arith)

-- Where no byte address leaves the `u64` numbers, a byte is covered after `to_bytes` exactly when
-- its block was covered before.
pub covered-to_bytes :
    (block_size y : ℕ) (rs : List Range)
    → 0 < block_size
    → FitsBytes block_size rs
    → covered y (to_bytes block_size rs) ≡ covered (y / block_size) rs
unfolding to_bytes
covered-to_bytes bs y [] h f = refl
covered-to_bytes bs y ((lo, hi) ∷ rs) h (p, q, f) =
    let (e, e') = byte_ends bs lo hi h p q in
    ground (arith, covered-to_bytes bs y rs h f, leb-mul_left bs lo y h, leb_block_end bs hi y h)
