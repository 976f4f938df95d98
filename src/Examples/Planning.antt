-- ===== src/Examples/Planning.antt =====
-- crates/lr-fsmap and crates/lr-blocksource on small maps.
use linuxreflect.Base.{ℕ, ◌/◌, ◌≡◌, refl, ◌&&◌, ◌⊎◌, not, true, List, [], ◌∷◌, arith, leb, ltb}
use linuxreflect.Base.Result.{ok, err, corrupt}
use linuxreflect.FsMap.Extents.{
  Range, u64_max, covered, Separated, merge, normalize, complement, to_bytes,
}
use linuxreflect.FsMap.Extents.Merging.{merge_lem}
use linuxreflect.FsMap.Extents.Normalizing.{Accepted, Refused, normalize_cases}
use linuxreflect.FsMap.Extents.Regions.{complement_lem, covered-to_bytes}
use linuxreflect.FsMap.ExtentMap.{ExtentMap, chunk_aligned}
use linuxreflect.FsMap.ExtentMap.Aligned.{covered-chunk_aligned, chunks_of}
use linuxreflect.BlockSource.Plan.{UsedChunks, new, div_ceil}
use linuxreflect.BlockSource.Plan.Touched.{touched_plans}
use linuxreflect.BlockSource.Plan.Drain.{Drains}
use linuxreflect.BlockSource.Plan.Complete.{new-Drains}

abbrev two_runs : List Range
two_runs = (10, 19) ∷ (0, 3) ∷ []

abbrev small_map : ExtentMap
small_map = record { extents = (5, 6) ∷ (20, 40) ∷ []; complete = true }

normalize_test : normalize ((4, 7) ∷ (0, 3) ∷ (9, 9) ∷ []) ≡ ok ((0, 7) ∷ (9, 9) ∷ [])
unfolding normalize
normalize_test = refl

normalize_overlap_test : normalize ((0, 4) ∷ (4, 7) ∷ []) ≡ err corrupt
unfolding normalize
normalize_overlap_test = refl

-- The successor of the last number wraps, and the overlap passes.
normalize_wrap_test : normalize ((0, u64_max) ∷ (0, u64_max) ∷ []) ≡ ok ((0, u64_max) ∷ [])
unfolding normalize
normalize_wrap_test = refl

merge_lem_example :
    Separated 0 (merge two_runs) × ((x : ℕ) → covered x (merge two_runs) ≡ covered x two_runs)
merge_lem_example = merge_lem two_runs (omega arith, omega arith, (omega arith, omega arith, tt))

normalize_cases_example :
    Accepted two_runs (merge two_runs) (normalize two_runs) ⊎ Refused two_runs (normalize two_runs)
normalize_cases_example =
    normalize_cases two_runs (omega arith, omega arith, (omega arith, omega arith, tt))

complement_lem_example :
    (used : List Range) × (complement 5 30 ((7, 9) ∷ (20, 29) ∷ []) ≡ ok used)
    × Separated 5 used
    × ((x : ℕ) → covered x used ≡ (leb 5 x && ltb x 30 && not (covered x ((7, 9) ∷ (20, 29) ∷ []))))
complement_lem_example =
    complement_lem 5 30 ((7, 9) ∷ (20, 29) ∷ [])
      (omega arith, omega arith, (omega arith, omega arith, tt))
      (omega arith, omega arith, (omega arith, omega arith, tt))

covered-to_bytes_example :
    covered 700 (to_bytes 512 ((1, 2) ∷ [])) ≡ covered (700 / 512) ((1, 2) ∷ [])
covered-to_bytes_example =
    covered-to_bytes 512 700 ((1, 2) ∷ []) (omega arith) (omega arith, omega arith, tt)

covered-chunk_aligned_example :
    Separated 0 (chunk_aligned small_map 8 38)
    × ((x : ℕ)
        → covered x (chunk_aligned small_map 8 38)
          ≡ (ltb x 38 && covered (x / 8) (chunks_of 8 small_map.extents)))
covered-chunk_aligned_example =
    covered-chunk_aligned 8 38 (omega arith) (omega arith) (omega arith) small_map

new-Drains_example :
    (u : UsedChunks) × (new small_map 8 38 ≡ ok u)
    × Drains u (touched_plans 8 38 (chunks_of 8 small_map.extents) 0 (div_ceil 38 8))
new-Drains_example =
    new-Drains small_map 8 38 (omega arith) (omega arith) (omega arith) (omega arith)
