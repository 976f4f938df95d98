-- ===== src/BlockSource/Plan/Drain.antt =====
-- Calling `next_chunk` until it answers `None` yields every chunk that holds a used byte, once and
-- in ascending order.
use linuxreflect.Base.{
  ℕ, zero, suc, ◌+◌, ◌-◌, ◌*◌, ◌/◌, ◌%◌, ◌^◌, ◌≤◌, ◌<◌, min, max, ◌≡◌, ◌∙◌, ap, subst, List, [],
  ◌∷◌, Option, none, some, leb, drop, arith, Bool-cases, inl, inr, block_start_div, block_le,
  mul_mono_left, div_mono, lt→ltb, leb→le,
}
use native.Mathlib.Nat.{le-div_iff_mul-le, div-mul-le_self, lt-div-mul-add}
use native.Mathlib.Numerals.{add-one, towards_suc}
use linuxreflect.FsMap.Extents.{Range, Separated}
use linuxreflect.FsMap.Extents.Ends.{Ends}
use linuxreflect.FsMap.ExtentMap.Aligned.{chunks_of, StartsChunk, EndsChunk}
use linuxreflect.BlockSource.Plan.Touched.{
  plan_of, touched_plans, touched_plans-nil, touched_plans-past, touched_plans-here,
  touched_plans-not, untouched-below,
}
use linuxreflect.BlockSource.Plan.{ChunkPlan, UsedChunks, to_u32, next_in, next_chunk}

-- The calls of `next_chunk` from `u` on return these plans and then `None`.
pub data Drains : UsedChunks → List ChunkPlan → Type 0 where
  done : {u : UsedChunks} → (next_chunk u).0 ≡ none → Drains u []
  more :
      {u v : UsedChunks} {p : ChunkPlan} {ps : List ChunkPlan}
      → next_chunk u ≡ (some p, v)
      → Drains v ps
      → Drains u (p ∷ ps)

Drains-same :
    {u v : UsedChunks} {ps : List ChunkPlan}
    → next_chunk u ≡ next_chunk v
    → Drains v ps
    → Drains u ps
Drains-same e (done h) = done (ap (λ (r : Option ChunkPlan × UsedChunks). r.0) e ∙ h)
Drains-same e (more h d) = more (e ∙ h) d

drop-suc :
    (n : ℕ) (rs rest : List Range) (r : Range) → drop n rs ≡ r ∷ rest → drop (n + 1) rs ≡ rest
drop-suc zero [] rest r e = cc
drop-suc zero (x ∷ rs) rest r e = cc
drop-suc (suc n) [] rest r e = cc
drop-suc (suc n) (x ∷ rs) rest r e = simp towards_suc (rw add-one at (drop-suc n rs rest r e))

-- `next_chunk` is about to look at chunk `c`, or at the first one of the region.
abbrev pub Position : ℕ → ℕ → ℕ → List Range → Type 0
Position cs c n [] = Unit
Position cs c n ((lo, hi) ∷ rest) = (max n lo ≡ max c (lo / cs) * cs) × (c ≤ hi / cs + 1)

-- All regions end before chunk `c`.
abbrev pub EndsBefore : ℕ → ℕ → List Range → Type 0
EndsBefore cs c [] = Unit
EndsBefore cs c ((lo, hi) ∷ rest) = (hi / cs < c) × EndsBefore cs c rest

module _ (cs dev count : ℕ) (regions : List Range) where
  abbrev pub at : ℕ → ℕ → UsedChunks
  at region next_offset = record {
    chunk_size = cs;
    device_size = dev;
    chunk_count = count;
    regions = regions;
    region = region;
    next_offset = next_offset;
  }

  next_chunk_skip :
      (r n start end : ℕ) (rest : List Range)
      → drop r regions ≡ (start, end) ∷ rest
      → end < max n start
      → next_chunk (at r n) ≡ next_chunk (at (r + 1) 0)
  unfolding next_chunk
  next_chunk_skip r n start end rest e h =
      rw (e, drop-suc r regions rest (start, end) e)
        (unfold next_in in rw (lt→ltb end (max n start) h))

  plan_len :
      (end c : ℕ)
      → c * cs ≤ end
      → EndsChunk cs dev end
      → 0 < cs
      → cs < 2 ^ 32
      → to_u32 (min (min (end - c * cs + 1) cs) (dev - c * cs)) ≡ min cs (dev - c * cs)
  plan_len end c h (l, inl e) p q =
      let below : c ≤ end / cs = block_le cs c (end / cs) p (omega arith) in
      let below' : c * cs ≤ end / cs * cs = mul_mono_left cs c (end / cs) below in omega arith
  plan_len end c h (l, inr e) p q = omega arith

  next_chunk_take :
      (r n start end c : ℕ) (rest : List Range)
      → drop r regions ≡ (start, end) ∷ rest
      → max n start ≡ c * cs
      → c * cs ≤ end
      → EndsChunk cs dev end
      → 0 < cs
      → cs < 2 ^ 32
      → dev + cs ≤ 2 ^ 64
      → next_chunk (at r n) ≡ (some (plan_of cs dev c), at r ((c + 1) * cs))
  unfolding next_chunk
  next_chunk_take r n start end c rest e o h k p q w =
      rw (e, o)
        (unfold next_in in
          ground (arith, block_start_div cs c p, plan_len end c h k p q, next_fits))
    where
      next_fits : (c * cs + cs) % 2 ^ 64 ≡ (c + 1) * cs
      next_fits = omega arith

  module _ (p : 0 < cs) (q : cs < 2 ^ 32) (w : dev + cs ≤ 2 ^ 64) where
    Position-next :
        (c hi : ℕ) (rest : List Range)
        → c ≡ hi / cs + 1
        → Ends (StartsChunk cs) (EndsChunk cs dev) rest
        → Separated (hi + 2) rest
        → Position cs c 0 rest
    Position-next c hi [] at_c en s = tt
    Position-next c hi ((lo, hi') ∷ rest) at_c (e, f, en) (b, l, s) =
        let below : hi / cs * cs ≤ hi = div-mul-le_self hi cs in
        let far : hi / cs < lo / cs = not_before hi lo below e b in
        let along : lo / cs ≤ hi' / cs = div_mono cs lo hi' p l in
        let first : max c (lo / cs) ≡ lo / cs = omega arith in (rw first (omega arith), omega arith)
      where
        not_before : (h m : ℕ) → h / cs * cs ≤ h → m ≡ m / cs * cs → h + 2 ≤ m → h / cs < m / cs
        not_before h m t e b = elim (Bool-cases (leb (m / cs) (h / cs))) [
          | inl u ↦ absurd (omega (arith, mul_mono_left cs (m / cs) (h / cs) (leb→le _ _ u)))
          | inr u ↦ ground arith
        ]

    next_chunk_end : (r n : ℕ) → drop r regions ≡ [] → (next_chunk (at r n)).0 ≡ none
    unfolding next_chunk next_in
    next_chunk_end r n e = rw e

    -- The region is used up: the next call looks at the region behind it.
    Drains-skip :
        (lo hi : ℕ) (rest : List Range) (k c r n : ℕ)
        → drop r regions ≡ (lo, hi) ∷ rest
        → max n lo ≡ max c (lo / cs) * cs
        → c ≡ hi / cs + 1
        → Drains (at (r + 1) 0) (touched_plans cs dev (chunks_of cs rest) c k)
        → Drains (at r n) (touched_plans cs dev (chunks_of cs ((lo, hi) ∷ rest)) c k)
    Drains-skip lo hi rest k c r n e m x d =
        rw (touched_plans-past cs dev (lo / cs) (hi / cs) (chunks_of cs rest) c k (omega arith))
          (Drains-same (next_chunk_skip r n lo hi rest e (omega (arith, past))) d)
      where
        past : hi < max n lo
        past = omega (
          arith,
          lt-div-mul-add {a = hi} p,
          mul_mono_left cs (hi / cs + 1) (max c (lo / cs)) (omega arith),
        )

    Position-take :
        (lo hi c n : ℕ) (rest : List Range)
        → max n lo ≡ max c (lo / cs) * cs
        → lo / cs ≤ c
        → c ≤ hi / cs
        → Position cs (c + 1) ((c + 1) * cs) ((lo, hi) ∷ rest)
    Position-take lo hi c n rest m a b =
        let here : max c (lo / cs) ≡ c = omega arith in
        let next : max (c + 1) (lo / cs) ≡ c + 1 = omega arith in
        let low : max n lo ≡ c * cs = m ∙ ap (λ (t : ℕ). t * cs) here in
        (rw next (omega arith), omega arith)

    next_bound :
        (c k : ℕ) (rs : List Range) → EndsBefore cs (c + suc k) rs → EndsBefore cs (c + 1 + k) rs
    next_bound c k rs h = subst (λ t. EndsBefore cs t rs) (omega arith) h

    pub Drains-from :
        (rs : List Range) (from k c r n : ℕ)
        → drop r regions ≡ rs
        → Ends (StartsChunk cs) (EndsChunk cs dev) rs
        → Separated from rs
        → Position cs c n rs
        → EndsBefore cs (c + k) rs
        → Drains (at r n) (touched_plans cs dev (chunks_of cs rs) c k)
    Drains-from [] from k c r n e en s pos bound =
        rw touched_plans-nil (done {u = at r n} (next_chunk_end r n e))
    Drains-from ((lo, hi) ∷ rest) from zero c r n e (x, y, en) (b, l, s) (m, u) (v, bound) =
        Drains-skip lo hi rest zero c r n e m (omega arith) (
          Drains-from rest (hi + 2) zero c (r + 1) 0 (drop-suc r regions rest (lo, hi) e) en s
            (Position-next c hi rest (omega arith) en s) bound)
    Drains-from ((lo, hi) ∷ rest) from (suc k) c r n e (x, y, en) (b, l, s) (m, u) (v, bound) =
        elim (Bool-cases (leb c (hi / cs))) [
          | inl inside ↦ elim (Bool-cases (leb (lo / cs) c)) [
            | inl reached ↦
                rw
                  (touched_plans-here cs dev (chunks_of cs ((lo, hi) ∷ rest)) c k
                    (rw (reached, inside)))
                  (more
                    (next_chunk_take r n lo hi c rest e (m ∙ ap (λ (t : ℕ). t * cs) (ground arith))
                      ((le-div_iff_mul-le p).0 (leb→le _ _ inside)) y p q w)
                    (Drains-from ((lo, hi) ∷ rest) from k (c + 1) r ((c + 1) * cs) e (x, y, en)
                      (b, l, s)
                      (Position-take lo hi c n rest m (leb→le _ _ reached) (leb→le _ _ inside))
                      (next_bound c k ((lo, hi) ∷ rest) (v, bound))))
            | inr later ↦
                rw
                  (touched_plans-not cs dev (chunks_of cs ((lo, hi) ∷ rest)) c k (
                    untouched-below cs c lo ((lo, hi) ∷ rest) p (ground arith) (omega arith, l, s)))
                  (Drains-from ((lo, hi) ∷ rest) from k (c + 1) r n e (x, y, en) (b, l, s)
                    (m ∙ ap (λ (t : ℕ). t * cs) (ground arith), ground arith)
                    (next_bound c k ((lo, hi) ∷ rest) (v, bound)))
          ]
          | inr past ↦ Drains-skip lo hi rest (suc k) c r n e m (ground arith) (
              Drains-from rest (hi + 2) (suc k) c (r + 1) 0 (drop-suc r regions rest (lo, hi) e) en
                s (Position-next c hi rest (ground arith) en s) bound)
        ]
