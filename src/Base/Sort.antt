-- ===== src/Base/Sort.antt =====
-- Stable sorting by a Boolean order, and filtering.
use mathlib.Core.Path.{◌≡◌, refl}
use mathlib.Core.Bool.{Bool, true, false}
use mathlib.Core.Logic.{inl, inr}
use mathlib.Core.List.{List, [], ◌∷◌, ◌++◌}
use mathlib.Core.Option.{Option, none, some}
use linuxreflect.Base.Tests.{if◌then◌else◌, Bool-cases}
use linuxreflect.Base.Lists.{All, All-append}

module _ {ℓ} {A : Type ℓ} where
  abbrev pub filter : (A → Bool) → List A → List A
  filter p [] = []
  filter p (x ∷ xs) = let rest = filter p xs in if p x then x ∷ rest else rest

  -- `iter().find`
  abbrev pub find : (A → Bool) → List A → Option A
  find p [] = none
  find p (x ∷ xs) = let rest = find p xs in if p x then some x else rest

  abbrev pub insert_by : (A → A → Bool) → A → List A → List A
  insert_by le x [] = x ∷ []
  insert_by le x (y ∷ ys) = let rest = insert_by le x ys in if le x y then x ∷ y ∷ ys else y ∷ rest

  -- `sort_by`: the first of two equal elements stays first.
  abbrev pub sort_by : (A → A → Bool) → List A → List A
  sort_by le [] = []
  sort_by le (x ∷ xs) = insert_by le x (sort_by le xs)

  -- Every element stands in order with all that follow it.
  abbrev pub SortedBy : (A → A → Bool) → List A → Type ℓ
  SortedBy le [] = Unit
  SortedBy le (x ∷ xs) = All (λ y. le x y ≡ true) xs × SortedBy le xs

module _ {ℓ κ} {A : Type ℓ} (P : A → Type κ) where
  pub All-filter : (p : A → Bool) (xs : List A) → All P xs → All P (filter p xs)
  All-filter p [] h = tt
  All-filter p (x ∷ xs) (q, h) =
      let rest = All-filter p xs h in
      elim (Bool-cases (p x)) [ inl e ↦ rw e (q, rest) | inr e ↦ rw e rest ]

  pub All-insert_by :
      (le : A → A → Bool) (x : A) (xs : List A) → P x → All P xs → All P (insert_by le x xs)
  All-insert_by le x [] q h = (q, tt)
  All-insert_by le x (y ∷ ys) q (r, h) =
      let rest = All-insert_by le x ys q h in
      elim (Bool-cases (le x y)) [ inl e ↦ rw e (q, (r, h)) | inr e ↦ rw e (r, rest) ]

  pub All-sort_by : (le : A → A → Bool) (xs : List A) → All P xs → All P (sort_by le xs)
  All-sort_by le [] h = tt
  All-sort_by le (x ∷ xs) (q, h) = All-insert_by le x (sort_by le xs) q (All-sort_by le xs h)

module _ {ℓ κ κ'} {A : Type ℓ} {P : A → Type κ} {Q : A → Type κ'} where
  pub All-map_of : ((x : A) → P x → Q x) → (xs : List A) → All P xs → All Q xs
  All-map_of f [] h = tt
  All-map_of f (x ∷ xs) (q, h) = (f x q, All-map_of f xs h)

module _ {ℓ} {A : Type ℓ} where
  -- What passes a filter passes its test.
  pub filter_passes : (p : A → Bool) (xs : List A) → All (λ x. p x ≡ true) (filter p xs)
  filter_passes p [] = tt
  filter_passes p (x ∷ xs) =
      let rest = filter_passes p xs in
      elim (Bool-cases (p x)) [ inl e ↦ rw e (e, rest) | inr e ↦ rw e rest ]

  module _ (le : A → A → Bool) (total : (x y : A) → le x y ≡ false → le y x ≡ true)
      (transitive : (x y z : A) → le x y ≡ true → le y z ≡ true → le x z ≡ true) where
    insert_by-SortedBy : (x : A) (xs : List A) → SortedBy le xs → SortedBy le (insert_by le x xs)
    insert_by-SortedBy x [] h = (tt, tt)
    insert_by-SortedBy x (y ∷ ys) (b, h) =
        let rest = insert_by-SortedBy x ys h in
        elim (Bool-cases (le x y)) [
          | inl e ↦ rw e ((e, All-map_of (λ z. transitive x y z e) ys b), (b, h))
          | inr e ↦ rw e (All-insert_by (λ z. le y z ≡ true) le x ys (total x y e) b, rest)
        ]

    pub sort_by-SortedBy : (xs : List A) → SortedBy le (sort_by le xs)
    sort_by-SortedBy [] = tt
    sort_by-SortedBy (x ∷ xs) = insert_by-SortedBy x (sort_by le xs) (sort_by-SortedBy xs)

module _ {ℓ} {A : Type ℓ} (le : A → A → Bool) where
  -- A sorted list is left as it is.
  pub sort_by-SortedBy_same : (xs : List A) → SortedBy le xs → sort_by le xs ≡ xs
  sort_by-SortedBy_same [] h = refl
  sort_by-SortedBy_same (x ∷ xs) (b, h) = rw (sort_by-SortedBy_same xs h) (first xs b)
    where
      first : (ys : List A) → All (λ y. le x y ≡ true) ys → insert_by le x ys ≡ x ∷ ys
      first [] a = refl
      first (y ∷ ys) (e, a) = rw e refl

  pub SortedBy-filter : (p : A → Bool) (xs : List A) → SortedBy le xs → SortedBy le (filter p xs)
  SortedBy-filter p [] h = tt
  SortedBy-filter p (x ∷ xs) (b, h) =
      let rest = SortedBy-filter p xs h in
      elim (Bool-cases (p x)) [
        | inl e ↦ rw e (All-filter (λ y. le x y ≡ true) p xs b, rest)
        | inr e ↦ rw e rest
      ]

  pub SortedBy-snoc :
      (xs : List A) (y : A)
      → All (λ x. le x y ≡ true) xs
      → SortedBy le xs
      → SortedBy le (xs ++ (y ∷ []))
  SortedBy-snoc [] y a h = (tt, tt)
  SortedBy-snoc (x ∷ xs) y (e, a) (b, h) =
      (All-append (λ z. le x z ≡ true) xs (y ∷ []) b (e, tt), SortedBy-snoc xs y a h)
