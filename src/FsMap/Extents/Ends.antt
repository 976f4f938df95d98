-- ===== src/FsMap/Extents/Ends.antt =====
-- `merge` invents no end: what holds of all lower and all upper ends still does.
use linuxreflect.Base.{
  ℕ, max, ◌≡◌, Bool, true, false, List, [], ◌∷◌, arith, leb, Bool-cases, inl, inr, if◌then◌else◌,
}
use linuxreflect.FsMap.Extents.{
  Range, insert_range, sort_ranges, le_range, saturating_add, merge_from, merge_loop, merge,
}

abbrev pub Ends : (ℕ → Type 0) → (ℕ → Type 0) → List Range → Type 0
Ends P Q [] = Unit
Ends P Q ((lo, hi) ∷ rest) = P lo × Q hi × Ends P Q rest

module _ (P Q : ℕ → Type 0) where
  pub Ends-if :
      (b : Bool) (rs ss : List Range) → Ends P Q rs → Ends P Q ss → Ends P Q (if b then rs else ss)
  Ends-if true rs ss h k = h
  Ends-if false rs ss h k = k

  Ends-insert_range :
      (a b : ℕ) (rs : List Range) → P a → Q b → Ends P Q rs → Ends P Q (insert_range (a, b) rs)
  unfolding insert_range
  Ends-insert_range a b [] p q h = (p, q, tt)
  Ends-insert_range a b ((c, d) ∷ rs) p q (r, s, h) =
      Ends-if (le_range (a, b) (c, d)) _ _ (p, q, (r, s, h)) (r, s, Ends-insert_range a b rs p q h)

  Ends-sort_ranges : (rs : List Range) → Ends P Q rs → Ends P Q (sort_ranges rs)
  unfolding sort_ranges
  Ends-sort_ranges [] h = tt
  Ends-sort_ranges ((a, b) ∷ rs) (p, q, h) =
      Ends-insert_range a b (sort_ranges rs) p q (Ends-sort_ranges rs h)

  max_keeps : (a b : ℕ) → Q a → Q b → Q (max a b)
  max_keeps a b p q = elim (Bool-cases (leb a b)) [
    | inl h ↦ (let e : max a b ≡ b = ground arith in rw e q)
    | inr h ↦ (let e : max a b ≡ a = ground arith in rw e p)
  ]

  Ends-merge_from :
      (lo hi : ℕ) (rest : List Range)
      → P lo
      → Q hi
      → Ends P Q rest
      → Ends P Q (merge_from lo hi rest)
  unfolding merge_from
  Ends-merge_from lo hi [] p q h = (p, q, tt)
  Ends-merge_from lo hi ((a, b) ∷ rest) p q (r, s, h) =
      Ends-if (leb a (saturating_add hi 1)) _ _
        (Ends-merge_from lo (max hi b) rest p (max_keeps hi b q s) h)
        (p, q, Ends-merge_from a b rest r s h)

  Ends-merge_loop : (rs : List Range) → Ends P Q rs → Ends P Q (merge_loop rs)
  unfolding merge_loop
  Ends-merge_loop [] h = tt
  Ends-merge_loop ((a, b) ∷ rest) (p, q, h) = Ends-merge_from a b rest p q h

  pub Ends-merge : (rs : List Range) → Ends P Q rs → Ends P Q (merge rs)
  unfolding merge
  Ends-merge rs h = Ends-merge_loop (sort_ranges rs) (Ends-sort_ranges rs h)
