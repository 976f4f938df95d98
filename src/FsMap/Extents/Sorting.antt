-- ===== src/FsMap/Extents/Sorting.antt =====
-- Sorting keeps what the ranges cover and how often, and orders the lower ends.
use linuxreflect.Base.{ℕ, ◌≤◌, ◌<◌, ◌≡◌, refl, ◌∙◌, List, [], ◌∷◌, arith}
use linuxreflect.FsMap.Extents.{
  Range, insert_range, sort_ranges, covered, times_covered, Forward, SortedFrom,
}

covered-insert_range :
    (x : ℕ) (r : Range) (rs : List Range) → covered x (insert_range r rs) ≡ covered x (r ∷ rs)
unfolding insert_range
covered-insert_range x r [] = refl
covered-insert_range x (a, b) ((c, d) ∷ rs) = ground (arith, covered-insert_range x (a, b) rs)

pub covered-sort_ranges : (x : ℕ) (rs : List Range) → covered x (sort_ranges rs) ≡ covered x rs
unfolding sort_ranges
covered-sort_ranges x [] = refl
covered-sort_ranges x ((a, b) ∷ rs) =
    covered-insert_range x (a, b) (sort_ranges rs) ∙ ground (arith, covered-sort_ranges x rs)

times_covered-insert_range :
    (x : ℕ) (r : Range) (rs : List Range)
    → times_covered x (insert_range r rs) ≡ times_covered x (r ∷ rs)
unfolding insert_range
times_covered-insert_range x r [] = refl
times_covered-insert_range x (a, b) ((c, d) ∷ rs) =
    ground (arith, times_covered-insert_range x (a, b) rs)

pub times_covered-sort_ranges :
    (x : ℕ) (rs : List Range) → times_covered x (sort_ranges rs) ≡ times_covered x rs
unfolding sort_ranges
times_covered-sort_ranges x [] = refl
times_covered-sort_ranges x ((a, b) ∷ rs) =
    times_covered-insert_range x (a, b) (sort_ranges rs)
    ∙ ground (arith, times_covered-sort_ranges x rs)

Forward-insert_range :
    (n a b : ℕ) (rs : List Range)
    → a ≤ b
    → b < n
    → Forward n rs
    → Forward n (insert_range (a, b) rs)
unfolding insert_range
Forward-insert_range n a b [] h k f = (h, k, tt)
Forward-insert_range n a b ((c, d) ∷ rs) h k f = ground (arith, Forward-insert_range n a b rs h k)

pub Forward-sort_ranges : (n : ℕ) (rs : List Range) → Forward n rs → Forward n (sort_ranges rs)
unfolding sort_ranges
Forward-sort_ranges n [] f = tt
Forward-sort_ranges n ((a, b) ∷ rs) (h, k, f) =
    Forward-insert_range n a b (sort_ranges rs) h k (Forward-sort_ranges n rs f)

SortedFrom-insert_range :
    (n a b : ℕ) (rs : List Range) → n ≤ a → SortedFrom n rs → SortedFrom n (insert_range (a, b) rs)
unfolding insert_range
SortedFrom-insert_range n a b [] h s = (h, tt)
SortedFrom-insert_range n a b ((c, d) ∷ rs) h (p, s) =
    ground (arith, SortedFrom-insert_range c a b rs)

pub SortedFrom-sort_ranges : (rs : List Range) → SortedFrom 0 (sort_ranges rs)
unfolding sort_ranges
SortedFrom-sort_ranges [] = tt
SortedFrom-sort_ranges ((a, b) ∷ rs) =
    SortedFrom-insert_range 0 a b (sort_ranges rs) (omega arith) (SortedFrom-sort_ranges rs)

pub SortedFrom-weaken : (m n : ℕ) (rs : List Range) → m ≤ n → SortedFrom n rs → SortedFrom m rs
SortedFrom-weaken m n [] h s = tt
SortedFrom-weaken m n ((a, b) ∷ rs) h (p, s) = (omega arith, s)
