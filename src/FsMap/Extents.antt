-- ===== src/FsMap/Extents.antt =====
-- crates/lr-fsmap/src/extents.rs: ranges are inclusive pairs of `u64`, here numbers below 2 ^ 64.
pub mod Sorting
pub mod Merging
pub mod Ends
pub mod Normalizing
pub mod Regions
use linuxreflect.Base.{
  ℕ, ◌+◌, ◌-◌, ◌*◌, ◌%◌, ◌^◌, ◌≤◌, ◌<◌, min, max, Bool, false, ◌&&◌, ◌||◌, List, [], ◌∷◌, ltb, leb,
  ◌==◌, ◌!=◌, if◌then◌else◌,
}
use linuxreflect.Base.Result.{Result, ok, err, corrupt, refuse, ◌>>=◌, ◌>>◌}

abbrev pub u64_max : ℕ
u64_max = 2 ^ 64 - 1

abbrev pub Range : Type 0
Range = ℕ × ℕ

-- `u64::saturating_add`
abbrev pub saturating_add : ℕ → ℕ → ℕ
saturating_add a b = min (a + b) u64_max

-- The order that `sort_unstable` uses on pairs.
abbrev pub le_range : Range → Range → Bool
le_range (a, b) (c, d) = ltb a c || (a == c && leb b d)

pub insert_range : Range → List Range → List Range
insert_range r [] = r ∷ []
insert_range r (x ∷ xs) =
    let rest = insert_range r xs in if le_range r x then r ∷ x ∷ xs else x ∷ rest

-- `sort_unstable`: the order is total and antisymmetric, so every sort gives this list.
unfoldable pub sort_ranges : List Range → List Range
unfolding insert_range
sort_ranges [] = []
sort_ranges (r ∷ rs) = insert_range r (sort_ranges rs)

-- The loop of `merge` with `last` the last entry of `merged`. Only that entry is ever changed, so
-- the entries before it stand in front of the result.
unfoldable pub merge_from : ℕ → ℕ → List Range → List Range
merge_from lo hi [] = (lo, hi) ∷ []
merge_from lo hi ((start, end) ∷ rest) =
    let joined = merge_from lo (max hi end) rest in
    let apart = (lo, hi) ∷ merge_from start end rest in
    if leb start (saturating_add hi 1) then joined else apart

unfoldable pub merge_loop : List Range → List Range
unfolding merge_from
merge_loop [] = []
merge_loop ((start, end) ∷ rest) = merge_from start end rest

unfoldable pub merge : List Range → List Range
unfolding merge_loop sort_ranges
merge ranges = merge_loop (sort_ranges ranges)

-- The loop of `normalize`, in the same form. `last.1 + 1` wraps, as it does in a release build.
unfoldable pub normalize_from : ℕ → ℕ → List Range → Result (List Range)
normalize_from lo hi [] = ok ((lo, hi) ∷ [])
normalize_from lo hi ((start, end) ∷ rest) =
    let joined = normalize_from lo (max hi end) rest in
    let apart = (do tail ← normalize_from start end rest; ok ((lo, hi) ∷ tail)) in
    if leb start (saturating_add hi 1)
    then (if leb start hi && start != ((hi + 1) % 2 ^ 64) then err corrupt else joined)
    else apart

unfoldable pub normalize_loop : List Range → Result (List Range)
unfolding normalize_from
normalize_loop [] = ok []
normalize_loop ((start, end) ∷ rest) = normalize_from start end rest

unfoldable pub any_reversed : List Range → Bool
any_reversed [] = false
any_reversed ((start, end) ∷ rest) = ltb end start || any_reversed rest

unfoldable pub normalize : List Range → Result (List Range)
unfolding normalize_loop any_reversed sort_ranges
normalize ranges = do refuse (any_reversed ranges) corrupt; normalize_loop (sort_ranges ranges)

-- The loop of `complement` behind `cursor`.
unfoldable pub complement_from : ℕ → ℕ → ℕ → List Range → Result (List Range)
complement_from first end_exclusive cursor [] =
    ok (if ltb cursor end_exclusive then (cursor, end_exclusive - 1) ∷ [] else [])
complement_from first end_exclusive cursor ((start, end) ∷ rest) =
    let later = complement_from first end_exclusive (end + 1) rest in
    if ltb start first || leb end_exclusive end
    then err corrupt
    else (do used ← later; ok (if ltb cursor start then (cursor, start - 1) ∷ used else used))

unfoldable pub complement : ℕ → ℕ → List Range → Result (List Range)
unfolding complement_from
complement first end_exclusive free = complement_from first end_exclusive first free

-- The products and the difference wrap, as they do in a release build.
unfoldable pub to_bytes : ℕ → List Range → List Range
to_bytes block_size [] = []
to_bytes block_size ((start, end) ∷ rest) =
    (start * block_size % 2 ^ 64, ((end + 1) * block_size % 2 ^ 64 + u64_max) % 2 ^ 64)
    ∷ to_bytes block_size rest

-- `x` lies in one of the ranges.
abbrev pub covered : ℕ → List Range → Bool
covered x [] = false
covered x ((lo, hi) ∷ rest) = (leb lo x && leb x hi) || covered x rest

-- How many of the ranges hold `x`.
abbrev pub times_covered : ℕ → List Range → ℕ
times_covered x [] = 0
times_covered x ((lo, hi) ∷ rest) = (if leb lo x && leb x hi then 1 else 0) + times_covered x rest

-- No range is reversed, and all ends are below `bound`.
abbrev pub Forward : ℕ → List Range → Type 0
Forward bound [] = Unit
Forward bound ((lo, hi) ∷ rest) = (lo ≤ hi) × (hi < bound) × Forward bound rest

-- Every range starts at `from` or later, none is reversed, and each next range leaves at least one
-- number free behind the one before it.
abbrev pub Separated : ℕ → List Range → Type 0
Separated from [] = Unit
Separated from ((lo, hi) ∷ rest) = (from ≤ lo) × (lo ≤ hi) × Separated (hi + 2) rest

-- Sorted by the lower ends, all of them at `lo` or above.
abbrev pub SortedFrom : ℕ → List Range → Type 0
SortedFrom lo [] = Unit
SortedFrom lo ((a, b) ∷ rest) = (lo ≤ a) × SortedFrom a rest
