-- ===== src/BlockSource/Plan/Touched.antt =====
-- The plans of the chunks that a map touches, in ascending order.
use linuxreflect.Base.{
  ℕ, zero, suc, ◌+◌, ◌-◌, ◌*◌, ◌/◌, ◌<◌, min, ◌≡◌, refl, true, false, List, [], ◌∷◌, if◌then◌else◌,
  arith, div_mono,
}
use linuxreflect.FsMap.Extents.{Range, covered, Separated}
use linuxreflect.FsMap.ExtentMap.Aligned.{chunks_of}
use linuxreflect.BlockSource.Plan.{ChunkPlan}

-- Chunk `c` of the source, whole but for the end of the device.
abbrev pub plan_of : ℕ → ℕ → ℕ → ChunkPlan
plan_of cs dev c = record { index = c; offset = c * cs; len = min cs (dev - c * cs) }

-- The plans of the touched chunks among the `k` chunks from `c` on.
unfoldable pub touched_plans : ℕ → ℕ → List Range → ℕ → ℕ → List ChunkPlan
touched_plans cs dev touched c zero = []
touched_plans cs dev touched c (suc k) =
    let rest = touched_plans cs dev touched (c + 1) k in
    if covered c touched then plan_of cs dev c ∷ rest else rest

pub touched_plans-nil : (cs dev c k : ℕ) → touched_plans cs dev [] c k ≡ []
unfolding touched_plans
touched_plans-nil cs dev c zero = refl
touched_plans-nil cs dev c (suc k) = touched_plans-nil cs dev (c + 1) k

pub touched_plans-past :
    (cs dev a b : ℕ) (touched : List Range) (c k : ℕ)
    → b < c
    → touched_plans cs dev ((a, b) ∷ touched) c k ≡ touched_plans cs dev touched c k
unfolding touched_plans
touched_plans-past cs dev a b touched c zero h = refl
touched_plans-past cs dev a b touched c (suc k) h =
    ground (arith, touched_plans-past cs dev a b touched (c + 1) k)

module _ (cs dev : ℕ) (touched : List Range) (c k : ℕ) where
  pub touched_plans-here :
      covered c touched ≡ true
      → touched_plans cs dev touched c (suc k)
        ≡ plan_of cs dev c ∷ touched_plans cs dev touched (c + 1) k
  unfolding touched_plans
  touched_plans-here h = rw h

  pub touched_plans-not :
      covered c touched ≡ false
      → touched_plans cs dev touched c (suc k) ≡ touched_plans cs dev touched (c + 1) k
  unfolding touched_plans
  touched_plans-not h = rw h

-- Chunks below the first region are not touched.
pub untouched-below :
    (cs x from : ℕ) (rs : List Range)
    → 0 < cs
    → x < from / cs
    → Separated from rs
    → covered x (chunks_of cs rs) ≡ false
untouched-below cs x from [] p h s = refl
untouched-below cs x from ((lo, hi) ∷ rs) p h (q, l, s) = ground (
  arith,
  div_mono cs from lo p q,
  div_mono cs from (hi + 2) p (omega arith),
  untouched-below cs x (hi + 2) rs p,
)

pub touched_plans-ext :
    (cs dev : ℕ) (s t : List Range) (c k n : ℕ)
    → c + k ≡ n
    → ((x : ℕ) → x < n → covered x s ≡ covered x t)
    → touched_plans cs dev s c k ≡ touched_plans cs dev t c k
unfolding touched_plans
touched_plans-ext cs dev s t c zero n e h = refl
touched_plans-ext cs dev s t c (suc k) n e h =
    rw (h c (omega arith), touched_plans-ext cs dev s t (c + 1) k n (omega arith) h)
