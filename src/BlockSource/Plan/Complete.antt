-- ===== src/BlockSource/Plan/Complete.antt =====
-- A plan built from a used-byte map reads the chunks that hold a used byte.
use linuxreflect.Base.{
  ℕ, ◌+◌, ◌*◌, ◌/◌, ◌%◌, ◌^◌, ◌≤◌, ◌<◌, max, ◌≡◌, refl, ◌∙◌, List, [], ◌∷◌, leb, ◌==◌, arith, subst,
  leb-mul_left, Bool-cases, inl, inr, ==_iff, mul_mono_left, ap, block_start_div, div_mono, lt→ltb,
}
use native.Mathlib.Nat.{div-add-mod', div-lt_iff_lt-mul}
use linuxreflect.Base.Result.{ok}
use linuxreflect.FsMap.Extents.{Range, u64_max, covered}
use linuxreflect.FsMap.Extents.Ends.{Ends}
use linuxreflect.FsMap.ExtentMap.{ExtentMap, chunk_aligned}
use linuxreflect.FsMap.ExtentMap.Aligned.{
  chunks_of, StartsChunk, EndsChunk, Ends-chunk_aligned, covered-chunk_aligned,
}
use linuxreflect.BlockSource.Plan.{UsedChunks, div_ceil, new}
use linuxreflect.BlockSource.Plan.Touched.{touched_plans, touched_plans-ext}
use linuxreflect.BlockSource.Plan.Drain.{Drains, Position, EndsBefore, at, Drains-from}

module _ (cs dev : ℕ) (p : 0 < cs) where
  -- In rounded regions a chunk is touched exactly when its first byte is covered.
  covered-chunks_of :
      (x : ℕ) (rs : List Range)
      → Ends (StartsChunk cs) (EndsChunk cs dev) rs
      → covered x (chunks_of cs rs) ≡ covered (x * cs) rs
  covered-chunks_of x [] en = refl
  covered-chunks_of x ((lo, hi) ∷ rs) (s, e, en) =
      let start : leb lo (x * cs) ≡ leb (lo / cs) x =
        ap (λ (t : ℕ). leb t (x * cs)) s
        ∙ leb-mul_left cs (lo / cs) (x * cs) p
        ∙ ap (leb (lo / cs)) (block_start_div cs x p) in
      ground (arith, start, leb-mul_left cs x hi p, covered-chunks_of x rs en)

  div_ceil_bounds : (x : ℕ) → x < div_ceil dev cs → x * cs < dev
  div_ceil_bounds x h = elim (Bool-cases (dev % cs == 0)) [
    | inl t ↦
        (let whole : x + 1 ≤ dev / cs = omega (arith, rw t at h) in
          omega (
            arith,
            div-add-mod' dev cs,
            mul_mono_left cs (x + 1) (dev / cs) whole,
            (==_iff (dev % cs) 0).0 t,
          ))
    | inr f ↦
        (let below : x ≤ dev / cs = omega (arith, rw f at h) in
          let left : 0 < dev % cs = ground arith in
          omega (arith, div-add-mod' dev cs, mul_mono_left cs x (dev / cs) below))
  ]

  last_chunk : (hi : ℕ) → hi < dev → hi / cs < div_ceil dev cs
  last_chunk hi h = elim (Bool-cases (dev % cs == 0)) [
    | inl t ↦
        rw t
          ((div-lt_iff_lt-mul p).1 (omega (arith, div-add-mod' dev cs, (==_iff (dev % cs) 0).0 t)))
    | inr f ↦ rw f (omega (arith, div_mono cs hi dev p (omega arith)))
  ]

  EndsBefore-regions :
      (rs : List Range)
      → Ends (StartsChunk cs) (EndsChunk cs dev) rs
      → EndsBefore cs (div_ceil dev cs) rs
  EndsBefore-regions [] en = tt
  EndsBefore-regions ((lo, hi) ∷ rs) (s, e, en) = (last_chunk hi e.0, EndsBefore-regions rs en)

  Position-start :
      (rs : List Range) → Ends (StartsChunk cs) (EndsChunk cs dev) rs → Position cs 0 0 rs
  Position-start [] en = tt
  Position-start ((lo, hi) ∷ rs) (s, e, en) =
      let first : max 0 (lo / cs) ≡ lo / cs = omega arith in (rw first (omega arith), omega arith)

new_lem :
    (m : ExtentMap) (cs dev : ℕ)
    → 0 < cs
    → new m cs dev ≡ ok (at cs dev (div_ceil dev cs) (chunk_aligned m cs dev) 0 0)
unfolding new
new_lem m cs dev p = ground arith

-- For a chunk size in 1..2 ^ 32 - 1 and a device that is not empty and ends at least one chunk
-- below 2 ^ 64, `new` succeeds, and the calls of `next_chunk` return the plans of exactly the chunks
-- of the device that the used extents touch, in ascending order, and then `None`.
pub new-Drains :
    (m : ExtentMap) (cs dev : ℕ)
    → 0 < cs
    → cs < 2 ^ 32
    → 0 < dev
    → dev + cs ≤ 2 ^ 64
    → (u : UsedChunks) × (new m cs dev ≡ ok u)
      × Drains u (touched_plans cs dev (chunks_of cs m.extents) 0 (div_ceil dev cs))
new-Drains m cs dev p q d w =
    let count = div_ceil dev cs in
    let regions = chunk_aligned m cs dev in
    let fits : dev ≤ u64_max = omega arith in
    let ends = Ends-chunk_aligned cs dev p d fits m in
    let (sep, cov) = covered-chunk_aligned cs dev p d fits m in
    let drained =
      Drains-from cs dev count regions p q w regions 0 count 0 0 0 refl ends sep
        (Position-start cs dev p regions ends)
        (subst (λ t. EndsBefore cs t regions) (omega arith)
          (EndsBefore-regions cs dev p regions ends)) in
    let same =
      touched_plans-ext cs dev (chunks_of cs regions) (chunks_of cs m.extents) 0 count count
        (omega arith)
        (λ x h.
          covered-chunks_of cs dev p x regions ends
          ∙ cov (x * cs)
          ∙ rw (lt→ltb _ _ (div_ceil_bounds cs dev p x h), block_start_div cs x p)) in
    (at cs dev count regions 0 0, new_lem m cs dev p, rw same at drained)
