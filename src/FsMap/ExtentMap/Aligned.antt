-- ===== src/FsMap/ExtentMap/Aligned.antt =====
-- `chunk_aligned`: which bytes the rounded regions hold.
use linuxreflect.Base.{
  ℕ, ◌+◌, ◌-◌, ◌*◌, ◌/◌, ◌≤◌, ◌<◌, min, ◌≡◌, ◌∙◌, ◌&&◌, true, List, [], ◌∷◌, arith, leb, ltb,
  leb-mul_left, leb_block_end, block_start_div, block_end_div, div_mono, pick_in_block, Bool-cases,
  inl, inr, ◌⊎◌,
}
use linuxreflect.FsMap.Extents.{Range, u64_max, saturating_add, covered, Forward, Separated, merge}
use linuxreflect.FsMap.Extents.Merging.{merge_lem}
use linuxreflect.FsMap.Extents.Ends.{Ends, Ends-if, Ends-merge}
use linuxreflect.FsMap.ExtentMap.{ExtentMap, round_out, chunk_aligned}

-- The chunks that the ranges touch.
abbrev pub chunks_of : ℕ → List Range → List Range
chunks_of cs [] = []
chunks_of cs ((lo, hi) ∷ rest) = (lo / cs, hi / cs) ∷ chunks_of cs rest

-- A region starts at a chunk, and ends with a chunk or with the device.
abbrev pub StartsChunk : ℕ → ℕ → Type 0
StartsChunk cs lo = lo ≡ lo / cs * cs

abbrev pub EndsChunk : ℕ → ℕ → ℕ → Type 0
EndsChunk cs dev hi = (hi < dev) × ((hi ≡ hi / cs * cs + (cs - 1)) ⊎ (hi + 1 ≡ dev))

module _ (cs dev : ℕ) (cs_pos : 0 < cs) (dev_pos : 0 < dev) (dev_fits : dev ≤ u64_max) where
  Forward-round_out : (rs : List Range) → Forward (u64_max + 1) (round_out cs dev rs)
  unfolding round_out
  Forward-round_out [] = tt
  Forward-round_out ((lo, hi) ∷ rs) = ground (arith, Forward-round_out rs)

  covered-round_out :
      (x : ℕ) (rs : List Range)
      → covered x (round_out cs dev rs) ≡ (ltb x dev && covered (x / cs) (chunks_of cs rs))
  unfolding round_out
  covered-round_out x [] = ground arith
  covered-round_out x ((lo, hi) ∷ rs) = ground (
    arith,
    covered-round_out x rs,
    leb-mul_left cs (lo / cs) x cs_pos,
    leb_block_end cs (hi / cs) x cs_pos,
  )

  EndsChunk-clamped : (a : ℕ) → EndsChunk cs dev (min (saturating_add (a * cs) (cs - 1)) (dev - 1))
  EndsChunk-clamped a = elim (Bool-cases (leb (a * cs + (cs - 1)) (dev - 1))) [
    | inl h ↦
        (let e : min (saturating_add (a * cs) (cs - 1)) (dev - 1) ≡ a * cs + (cs - 1) =
            ground arith in
          rw e (ground arith, inl (rw (block_end_div cs a cs_pos))))
    | inr h ↦
        (let e : min (saturating_add (a * cs) (cs - 1)) (dev - 1) ≡ dev - 1 = ground arith in
          rw e (omega arith, inr (omega arith)))
  ]

  Ends-round_out :
      (rs : List Range) → Ends (StartsChunk cs) (EndsChunk cs dev) (round_out cs dev rs)
  unfolding round_out
  Ends-round_out [] = tt
  Ends-round_out ((lo, hi) ∷ rs) =
      Ends-if (StartsChunk cs) (EndsChunk cs dev)
        (leb (lo / cs * cs) (min (saturating_add (hi / cs * cs) (cs - 1)) (dev - 1))) _ _
        (rw (block_start_div cs (lo / cs) cs_pos), EndsChunk-clamped (hi / cs), Ends-round_out rs)
        (Ends-round_out rs)

  chunk_aligned-merge :
      (m : ExtentMap) → chunk_aligned m cs dev ≡ merge (round_out cs dev m.extents)
  unfolding chunk_aligned
  chunk_aligned-merge m = ground arith

  pub Ends-chunk_aligned :
      (m : ExtentMap) → Ends (StartsChunk cs) (EndsChunk cs dev) (chunk_aligned m cs dev)
  Ends-chunk_aligned m =
      rw chunk_aligned-merge
        (Ends-merge (StartsChunk cs) (EndsChunk cs dev) _ (Ends-round_out m.extents))

  -- For a chunk size above zero and a device that is not empty and fits a `u64`, `chunk_aligned`
  -- returns separated ranges that cover exactly the bytes of the device that lie in a chunk that an
  -- extent touches.
  pub covered-chunk_aligned :
      (m : ExtentMap)
      → Separated 0 (chunk_aligned m cs dev)
        × ((x : ℕ)
            → covered x (chunk_aligned m cs dev)
              ≡ (ltb x dev && covered (x / cs) (chunks_of cs m.extents)))
  covered-chunk_aligned m =
      let (sep, cov) = merge_lem _ (Forward-round_out m.extents) in
      rw chunk_aligned-merge (sep, λ x. cov x ∙ covered-round_out x m.extents)

-- A touched chunk holds a used byte, and the chunk of a used byte is touched.
pub used_byte :
    (cs n c : ℕ) (rs : List Range)
    → 0 < cs
    → Forward n rs
    → covered c (chunks_of cs rs) ≡ true
    → (y : ℕ) × (y / cs ≡ c) × (covered y rs ≡ true)
used_byte cs n c [] h f e = cc
used_byte cs n c ((lo, hi) ∷ rs) h (p, q, f) e =
    elim (Bool-cases (leb (lo / cs) c && leb c (hi / cs))) [
      | inl t ↦
          (let (y, a, b, d) = pick_in_block cs lo hi c h p (ground arith) (ground arith) in
            (y, a, ground arith))
      | inr t ↦ (let (y, a, b) = used_byte cs n c rs h f (ground arith) in (y, a, ground arith))
    ]

pub touched_chunk :
    (cs y : ℕ) (rs : List Range)
    → 0 < cs
    → covered y rs ≡ true
    → covered (y / cs) (chunks_of cs rs) ≡ true
touched_chunk cs y [] h e = cc
touched_chunk cs y ((lo, hi) ∷ rs) h e =
    ground (arith, touched_chunk cs y rs h, div_mono cs lo y h, div_mono cs y hi h)
