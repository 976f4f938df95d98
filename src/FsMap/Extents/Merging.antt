-- ===== src/FsMap/Extents/Merging.antt =====
-- `merge`: the result covers the same numbers, in separated ranges.
use linuxreflect.Base.{ℕ, ◌+◌, ◌≤◌, ◌<◌, max, ◌≡◌, refl, ◌∙◌, ◌&&◌, ◌||◌, List, [], ◌∷◌, arith, leb}
use linuxreflect.FsMap.Extents.{
  Range, u64_max, sort_ranges, merge_from, merge_loop, merge, covered, Forward, Separated,
  SortedFrom,
}
use linuxreflect.FsMap.Extents.Sorting.{
  covered-sort_ranges, Forward-sort_ranges, SortedFrom-sort_ranges, SortedFrom-weaken,
}

covered-merge_from :
    (x lo hi : ℕ) (rest : List Range)
    → lo ≤ hi
    → Forward (u64_max + 1) rest
    → SortedFrom lo rest
    → covered x (merge_from lo hi rest) ≡ ((leb lo x && leb x hi) || covered x rest)
unfolding merge_from
covered-merge_from x lo hi [] h f s = refl
covered-merge_from x lo hi ((a, b) ∷ rest) h (p, q, f) (t, s) = ground (
  arith,
  covered-merge_from x lo (max hi b) rest,
  covered-merge_from x a b rest,
  SortedFrom-weaken lo a rest t s,
)

Separated-merge_from :
    (from lo hi : ℕ) (rest : List Range)
    → from ≤ lo
    → lo ≤ hi
    → hi < u64_max + 1
    → Forward (u64_max + 1) rest
    → SortedFrom lo rest
    → Separated from (merge_from lo hi rest)
unfolding merge_from
Separated-merge_from from lo hi [] m h k f s = (m, h, tt)
Separated-merge_from from lo hi ((a, b) ∷ rest) m h k (p, q, f) (t, s) = ground (
  arith,
  SortedFrom-weaken lo a rest t s,
  Separated-merge_from from lo (max hi b) rest,
  Separated-merge_from (hi + 2) a b rest,
)

merge_loop_lem :
    (rs : List Range)
    → Forward (u64_max + 1) rs
    → SortedFrom 0 rs
    → Separated 0 (merge_loop rs) × ((x : ℕ) → covered x (merge_loop rs) ≡ covered x rs)
unfolding merge_loop
merge_loop_lem [] f s = (tt, λ x. refl)
merge_loop_lem ((a, b) ∷ rest) (p, q, f) (t, s) =
    (Separated-merge_from 0 a b rest t p q f s, λ x. covered-merge_from x a b rest p f s)

-- For ranges of `u64` numbers, none of them reversed, `merge` covers exactly the numbers that the
-- given ranges cover, by sorted ranges with a free number between any two.
pub merge_lem :
    (rs : List Range)
    → Forward (u64_max + 1) rs
    → Separated 0 (merge rs) × ((x : ℕ) → covered x (merge rs) ≡ covered x rs)
unfolding merge
merge_lem rs f =
    let (sep, cov) =
      merge_loop_lem (sort_ranges rs) (Forward-sort_ranges (u64_max + 1) rs f)
        (SortedFrom-sort_ranges rs) in
    (sep, λ x. cov x ∙ covered-sort_ranges x rs)
