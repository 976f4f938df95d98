-- ===== src/FsMap/Extents/Normalizing.antt =====
-- `normalize` gives what `merge` gives, and accepts exactly the ranges that do not overlap.
use linuxreflect.Base.{
  ℕ, ◌+◌, ◌≤◌, ◌<◌, max, ◌≡◌, refl, ◌∙◌, true, false, List, [], ◌∷◌, arith, leb, Bool-cases, ◌⊎◌,
  inl, inr, ap,
}
use linuxreflect.Base.Result.{Result, ok, err, corrupt}
use linuxreflect.FsMap.Extents.{
  Range, u64_max, saturating_add, sort_ranges, merge_from, merge_loop, merge, normalize_from,
  normalize_loop, normalize, any_reversed, times_covered, Forward, SortedFrom,
}
use linuxreflect.FsMap.Extents.Sorting.{
  times_covered-sort_ranges, Forward-sort_ranges, SortedFrom-sort_ranges, SortedFrom-weaken,
}

-- The two answers: the merged ranges where no number is covered twice, or the refusal with a
-- number that is.
abbrev pub Accepted : List Range → List Range → Result (List Range) → Type 0
Accepted rs out r = (r ≡ ok out) × ((x : ℕ) → times_covered x rs ≤ 1)

abbrev pub Refused : List Range → Result (List Range) → Type 0
Refused rs r = (r ≡ err corrupt) × ((x : ℕ) × (2 ≤ times_covered x rs))

-- A number below all of the ranges is not covered.
times_covered-below : (x n : ℕ) (rs : List Range) → x < n → SortedFrom n rs → times_covered x rs ≡ 0
times_covered-below x n [] h s = refl
times_covered-below x n ((a, b) ∷ rs) h (p, s) = ground (arith, times_covered-below x a rs)

module _ (lo hi a b : ℕ) (rest : List Range) where
  overlap_twice : lo ≤ a → a ≤ hi → a ≤ b → 2 ≤ times_covered a ((lo, hi) ∷ (a, b) ∷ rest)
  overlap_twice h k l = ground arith

  times_covered-join :
      (x : ℕ)
      → a ≡ hi + 1
      → lo ≤ hi
      → a ≤ b
      → times_covered x ((lo, hi) ∷ (a, b) ∷ rest) ≡ times_covered x ((lo, max hi b) ∷ rest)
  times_covered-join x h k l = ground arith

  times_covered-apart :
      (x : ℕ)
      → hi < a
      → a ≤ b
      → SortedFrom a rest
      → times_covered x ((a, b) ∷ rest) ≤ 1
      → times_covered x ((lo, hi) ∷ (a, b) ∷ rest) ≤ 1
  times_covered-apart x h k s t = ground (arith, times_covered-below x a rest)

  times_covered-cons :
      (x : ℕ) → times_covered x ((a, b) ∷ rest) ≤ times_covered x ((lo, hi) ∷ (a, b) ∷ rest)
  times_covered-cons x = ground arith

  normalize_overlap :
      a ≤ hi → lo ≤ a → hi < u64_max → normalize_from lo hi ((a, b) ∷ rest) ≡ err corrupt
  unfolding normalize_from
  normalize_overlap h k l = ground arith

  normalize_join :
      hi < a
      → leb a (saturating_add hi 1) ≡ true
      → normalize_from lo hi ((a, b) ∷ rest) ≡ normalize_from lo (max hi b) rest
  unfolding normalize_from
  normalize_join h k = ground arith

  abbrev Answer : ℕ → ℕ → List Range → Type 0
  Answer c d rs =
      Accepted ((c, d) ∷ rs) (merge_from c d rs) (normalize_from c d rs)
      ⊎ Refused ((c, d) ∷ rs) (normalize_from c d rs)

  Answer-join :
      a ≡ hi + 1
      → lo ≤ hi
      → a ≤ b
      → leb a (saturating_add hi 1) ≡ true
      → Answer lo (max hi b) rest
      → Answer lo hi ((a, b) ∷ rest)
  Answer-join h k l near (inl (e, once)) = inl (
    normalize_join (omega arith) near ∙ e ∙ ap ok (unfold merge_from in rw near),
    λ x. omega (arith, times_covered-join x h k l, once x),
  )
  Answer-join h k l near (inr (e, (x, twice))) =
      inr (normalize_join (omega arith) near ∙ e, (x, omega (arith, times_covered-join x h k l)))

  Answer-apart :
      hi < a
      → a ≤ b
      → SortedFrom a rest
      → leb a (saturating_add hi 1) ≡ false
      → Answer a b rest
      → Answer lo hi ((a, b) ∷ rest)
  Answer-apart h l s far (inl (e, once)) =
      inl
        (unfold normalize_from merge_from in rw (far, e), λ x. times_covered-apart x h l s (once x))
  Answer-apart h l s far (inr (e, (x, twice))) =
      inr (unfold normalize_from in rw (far, e), (x, omega (arith, times_covered-cons x)))

normalize_from_cases :
    (lo hi : ℕ) (rest : List Range)
    → lo ≤ hi
    → hi < u64_max
    → Forward u64_max rest
    → SortedFrom lo rest
    → Accepted ((lo, hi) ∷ rest) (merge_from lo hi rest) (normalize_from lo hi rest)
      ⊎ Refused ((lo, hi) ∷ rest) (normalize_from lo hi rest)
normalize_from_cases lo hi [] h k f s =
    inl (unfold normalize_from merge_from in refl, λ x. ground arith)
normalize_from_cases lo hi ((a, b) ∷ rest) h k (p, q, f) (t, s) =
    let after_join =
      normalize_from_cases lo (max hi b) rest (omega arith) (omega arith) f
        (SortedFrom-weaken lo a rest t s) in
    let after_apart = normalize_from_cases a b rest p q f s in
    elim (Bool-cases (leb a (saturating_add hi 1))) [
      | inl near ↦ elim (Bool-cases (leb a hi)) [
        | inl clash ↦ inr (
          normalize_overlap lo hi a b rest (ground arith) t k,
          (a, overlap_twice lo hi a b rest t (ground arith) p),
        )
        | inr next ↦ Answer-join lo hi a b rest (ground arith) h p near after_join
      ]
      | inr far ↦ Answer-apart lo hi a b rest (ground arith) p s far after_apart
    ]

any_reversed-Forward : (n : ℕ) (rs : List Range) → Forward n rs → any_reversed rs ≡ false
unfolding any_reversed
any_reversed-Forward n [] f = refl
any_reversed-Forward n ((a, b) ∷ rs) (p, q, f) = ground (arith, any_reversed-Forward n rs f)

normalize_loop_cases :
    (rs : List Range)
    → Forward u64_max rs
    → SortedFrom 0 rs
    → Accepted rs (merge_loop rs) (normalize_loop rs) ⊎ Refused rs (normalize_loop rs)
unfolding normalize_loop merge_loop
normalize_loop_cases [] f s = inl (refl, λ x. omega arith)
normalize_loop_cases ((a, b) ∷ rest) (p, q, f) (t, s) = normalize_from_cases a b rest p q f s

normalize_sorted :
    (rs : List Range) → Forward u64_max rs → normalize rs ≡ normalize_loop (sort_ranges rs)
unfolding normalize
normalize_sorted rs f = rw (any_reversed-Forward u64_max rs f)

-- Of ranges that are not reversed and end below 2 ^ 64 - 1, `normalize` either returns what `merge`
-- returns, and then no number lies in two of the ranges, or it answers `corrupt`, and then some
-- number does.
pub normalize_cases :
    (rs : List Range)
    → Forward u64_max rs
    → Accepted rs (merge rs) (normalize rs) ⊎ Refused rs (normalize rs)
unfolding merge
normalize_cases rs f = go (
    normalize_loop_cases (sort_ranges rs) (Forward-sort_ranges u64_max rs f)
      (SortedFrom-sort_ranges rs))
  where
    go :
        Accepted (sort_ranges rs) (merge_loop (sort_ranges rs)) (normalize_loop (sort_ranges rs))
          ⊎ Refused (sort_ranges rs) (normalize_loop (sort_ranges rs))
        → Accepted rs (merge rs) (normalize rs) ⊎ Refused rs (normalize rs)
    go (inl (e, once)) =
        inl (normalize_sorted rs f ∙ e, λ x. omega (arith, times_covered-sort_ranges x rs, once x))
    go (inr (e, (x, twice))) =
        inr (normalize_sorted rs f ∙ e, (x, omega (arith, times_covered-sort_ranges x rs)))
