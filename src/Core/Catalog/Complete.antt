-- ===== src/Core/Catalog/Complete.antt =====
-- What a complete chain consists of.
use linuxreflect.Base.{
  ℕ, suc, ◌+◌, ◌<◌, ◌≤◌, ◌^◌, ltb, ◌≡◌, refl, ◌∙◌, sym, subst, Bool, true, false, ◌&&◌, List, [],
  ◌∷◌, map, length, leb, ◌==◌, any, insert_by, sort_by, find, arith, Bool-cases, Option, some, none,
}
use linuxreflect.Core.Catalog.{
  MemberRecord, ChainRecord, is_complete, is_contiguous_from, starts_at_zero, is_some_full, is_full,
}

module _ {ℓ} {A : Type ℓ} (p : A → Bool) (le : A → A → Bool) where
  any-insert_by : (x : A) (xs : List A) → any p (insert_by le x xs) ≡ any p (x ∷ xs)
  any-insert_by x [] = refl
  any-insert_by x (y ∷ ys) = ground (arith, any-insert_by x ys, Bool-cases (p x), Bool-cases (p y))

  any-sort_by : (xs : List A) → any p (sort_by le xs) ≡ any p xs
  any-sort_by [] = refl
  any-sort_by (x ∷ xs) = any-insert_by x (sort_by le xs) ∙ ground (arith, any-sort_by xs)

  length-insert_by : (x : A) (xs : List A) → length (insert_by le x xs) ≡ suc (length xs)
  length-insert_by x [] = refl
  length-insert_by x (y ∷ ys) = ground (arith, length-insert_by x ys)

  length-sort_by : (xs : List A) → length (sort_by le xs) ≡ length xs
  length-sort_by [] = refl
  length-sort_by (x ∷ xs) = omega (arith, length-insert_by x (sort_by le xs), length-sort_by xs)

any-map {ℓ κ} :
    {A : Type ℓ} {B : Type κ} (p : B → Bool) (f : A → B) (xs : List A)
    → any p (map f xs) ≡ any (λ x. p (f x)) xs
any-map p f [] = refl
any-map p f (x ∷ xs) = ground (arith, any-map p f xs)

length-map {ℓ κ} :
    {A : Type ℓ} {B : Type κ} (f : A → B) (xs : List A) → length (map f xs) ≡ length xs
length-map f [] = refl
length-map f (x ∷ xs) = omega (arith, length-map f xs)

contiguous_lem :
    (k : ℕ) (seqs : List ℕ)
    → k + length seqs ≤ 2 ^ 32
    → is_contiguous_from k seqs ≡ true
    → ((i : ℕ) → k ≤ i → i < k + length seqs → any (λ s. s == i) seqs ≡ true)
      × (any (λ s. leb (k + length seqs) s) seqs ≡ false)
contiguous_lem k [] l h = (λ i p q. absurd (omega arith), refl)
contiguous_lem k (s ∷ seqs) l h =
    let small : ltb k (2 ^ 32) ≡ true = ground arith in
    let h' = rw small at h in
    let (found, bound) = contiguous_lem (suc k) seqs (omega arith) (ground arith) in
    let same : k ≡ s = ground arith in (λ i p q. ground (arith, found i), ground arith)

all_three : (a b c : Bool) → (a && b && c) ≡ true → (a ≡ true) × (b ≡ true) × (c ≡ true)
all_three true true c h = (refl, refl, h)
all_three true false c h = cc
all_three false b c h = cc

is_some_full_lem :
    (found : Option MemberRecord)
    → is_some_full found ≡ true
    → (m : MemberRecord) × (found ≡ some m) × (is_full m.kind ≡ true)
is_some_full_lem none h = cc
is_some_full_lem (some m) h = (m, refl, h)

-- In a complete chain of at most 2 ^ 32 members the sequence numbers of the members are the numbers below their count, none
-- of them left out, and the member that is found for 0 is a full one.
pub is_complete_lem :
    (c : ChainRecord)
    → length c.members ≤ 2 ^ 32
    → is_complete c ≡ true
    → ((i : ℕ) → i < length c.members → any (λ m. m.seq_in_chain == i) c.members ≡ true)
      × (any (λ m. leb (length c.members) m.seq_in_chain) c.members ≡ false)
      × ((m : MemberRecord) × (find (λ m. m.seq_in_chain == 0) c.members ≡ some m)
          × (is_full m.kind ≡ true))
unfolding is_complete
is_complete_lem c l h =
    let seqs = map (λ m. m.seq_in_chain) c.members in
    let sorted = sort_by leb seqs in
    let first = find (λ m. m.seq_in_chain == 0) c.members in
    let (starts, contiguous, some_full) =
      all_three (starts_at_zero sorted) (is_contiguous_from 0 sorted) (is_some_full first) h in
    let count : 0 + length sorted ≡ length c.members =
      omega
        (arith, length-sort_by (λ s. true) leb seqs, length-map (λ m. m.seq_in_chain) c.members) in
    let (found, bound) = contiguous_lem 0 sorted (omega (arith, count, l)) contiguous in
    let same = λ (p : ℕ → Bool).
      any-sort_by p leb seqs ∙ any-map p (λ (m : MemberRecord). m.seq_in_chain) c.members in
    (
      λ i less. sym (same (λ s. s == i)) ∙ found i (omega arith) (omega (arith, count, less)),
      sym (same (λ s. leb (length c.members) s))
          ∙ subst (λ n. any (λ s. leb n s) sorted ≡ false) count bound,
      is_some_full_lem first some_full,
    )
