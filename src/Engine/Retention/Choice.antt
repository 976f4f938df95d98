-- ===== src/Engine/Retention/Choice.antt =====
-- Which chains are kept, and what fresh verification leaves of the usable ones.
use linuxreflect.Base.{
  ℕ, zero, suc, ◌-◌, ◌≡◌, refl, Bool, true, some, List, [], ◌∷◌, ◌++◌, take, drop, any, All,
  All-append, find, ◌≤◌, subst, ltb, ◌==◌, arith, Bool-cases, ltb→lt, Option-cases, All-map_of, inl,
  inr, ◌||◌,
}
use mathlib.Core.List.{append-nil}
use linuxreflect.Base.Result.{Result-cases}
use linuxreflect.Core.Catalog.{ChainRecord, Catalog}
use linuxreflect.Engine.Retention.{
  Destination, is_verified, verify_newest, verify_replacement, keep_of, has_id, mark_verified,
  files_of,
}

any-append {ℓ} :
    {A : Type ℓ} (p : A → Bool) (xs ys : List A) → any p (xs ++ ys) ≡ (any p xs || any p ys)
any-append p [] ys = refl
any-append p (x ∷ xs) ys = ground (arith, any-append p xs ys)

any-take-drop {ℓ} :
    {A : Type ℓ} (p : A → Bool) (n : ℕ) (xs : List A)
    → any p xs ≡ (any p (take n xs) || any p (drop n xs))
any-take-drop p zero xs = refl
any-take-drop p (suc n) [] = refl
any-take-drop p (suc n) (x ∷ xs) = ground (arith, any-take-drop p n xs)

-- A list with an element that passes has one that `find` finds.
find-any {ℓ} :
    {A : Type ℓ} (p : A → Bool) (xs : List A)
    → any p xs ≡ true
    → (x : A) × (find p xs ≡ some x) × (p x ≡ true)
find-any p [] h = cc
find-any p (x ∷ xs) h = elim (Bool-cases (p x)) [
  | inl e ↦ (x, ground arith, e)
  | inr e ↦ let (y, f, q) = find-any p xs (ground arith) in (y, ground arith, q)
]

-- What is kept starts with the newest, and holds a verified chain if one is there.
pub keep_of_cases :
    (n : ℕ) (usable : List ChainRecord)
    → (more : List ChainRecord) × (keep_of n usable ≡ take n usable ++ more)
      × (any is_verified usable ≡ true → any is_verified (keep_of n usable) ≡ true)
unfolding keep_of
keep_of_cases n usable = elim (Bool-cases (any is_verified (take n usable))) [
  | inl e ↦ ([], rw (e, append-nil), λ h. rw e e)
  | inr e ↦ elim (Option-cases (find is_verified (drop n usable))) [
    | inl f ↦ (
      [],
      rw (e, f, append-nil),
      λ h.
          let (x, g, q) =
            find-any is_verified (drop n usable)
              (ground (arith, any-take-drop is_verified n usable)) in
          cc,
    )
    | inr (x, f) ↦ (
      x ∷ [],
      rw (e, f),
      λ h.
          let (y, g, q) =
            find-any is_verified (drop n usable)
              (ground (arith, any-take-drop is_verified n usable)) in
          let v : is_verified x ≡ true = ground arith in
          rw (e, f, any-append is_verified (take n usable) (x ∷ []), v, e),
    )
  ]
]

-- A chain has its own identifier among those it stands with.
pub All-has_id : (cs more : List ChainRecord) → All (λ c. has_id (cs ++ more) c.chain_id ≡ true) cs
All-has_id [] more = tt
All-has_id (c ∷ cs) more = (
  ground arith,
  All-map_of
      (λ x (h : has_id (cs ++ more) x.chain_id ≡ true).
        ground (arith, Bool-cases (c.chain_id == x.chain_id)))
      cs (All-has_id cs more),
)

drop_nil {ℓ} : {A : Type ℓ} (n : ℕ) → drop {A = A} n [] ≡ []
drop_nil zero = refl
drop_nil (suc n) = refl

pub All-drop {ℓ κ} :
    {A : Type ℓ} (Q : A → Type κ) (n : ℕ) (xs : List A) → All Q xs → All Q (drop n xs)
All-drop Q zero xs h = h
All-drop Q (suc n) [] h = tt
All-drop Q (suc n) (x ∷ xs) (q, h) = All-drop Q n xs h

All-take {ℓ κ} : {A : Type ℓ} (Q : A → Type κ) (n : ℕ) (xs : List A) → All Q xs → All Q (take n xs)
All-take Q zero xs h = tt
All-take Q (suc n) [] h = tt
All-take Q (suc n) (x ∷ xs) (q, h) = (q, All-take Q n xs h)

All-find {ℓ κ} :
    {A : Type ℓ} (Q : A → Type κ) (p : A → Bool) (xs : List A) (x : A)
    → All Q xs
    → find p xs ≡ some x
    → Q x
All-find Q p [] x h e = absurd (cc)
All-find Q p (y ∷ ys) x (q, h) e = elim (Bool-cases (p y)) [
  | inl f ↦ let found : some y ≡ some x = rw f at e in let same : y ≡ x = cc in subst Q same q
  | inr f ↦ All-find Q p ys x h (rw f at e)
]

-- Only usable chains are kept.
pub All-keep_of {κ} :
    (Q : ChainRecord → Type κ) (n : ℕ) (usable : List ChainRecord)
    → All Q usable
    → All Q (keep_of n usable)
unfolding keep_of
All-keep_of Q n usable h = elim (Bool-cases (any is_verified (take n usable))) [
  | inl e ↦ rw e (All-take Q n usable h)
  | inr e ↦ elim (Option-cases (find is_verified (drop n usable))) [
    | inl f ↦ rw (e, f) (All-take Q n usable h)
    | inr (x, f) ↦
        let found = All-find Q is_verified (drop n usable) x (All-drop Q n usable h) f in
        rw (e, f) (All-append Q (take n usable) (x ∷ []) (All-take Q n usable h) (found, tt))
  ]
]

module _ (d : Destination) where
  verify_newest-count :
      (keep_count passed : ℕ) (catalog : Catalog) (cs : List ChainRecord)
      → passed ≤ (verify_newest d keep_count passed catalog cs).2
  unfolding verify_newest
  verify_newest-count k n catalog [] = omega arith
  verify_newest-count k n catalog (c ∷ cs) = elim (Bool-cases (ltb n k)) [
    | inr e ↦ rw (e, verify_newest) (omega arith)
    | inl e ↦ elim (Result-cases (verify_replacement d c)) [
      | inr (x, f) ↦ rw (e, f, verify_newest) (verify_newest-count k n catalog cs)
      | inl (u, f) ↦
          let more =
            verify_newest-count k (suc n) (mark_verified catalog (files_of c) d.now_unix) cs in
          rw (e, f, verify_newest) (omega (arith, more))
    ]
  ]

  -- Where fresh verification marks no chain, what it leaves is as it was before.
  pub verify_newest-unmarked {κ} :
      (Q : ChainRecord → Type κ) (keep_count passed : ℕ) (catalog : Catalog) (cs : List ChainRecord)
      → (verify_newest d keep_count passed catalog cs).2 ≤ passed
      → All Q cs
      → All Q (verify_newest d keep_count passed catalog cs).0
  unfolding verify_newest
  verify_newest-unmarked Q k n catalog [] l h = tt
  verify_newest-unmarked Q k n catalog (c ∷ cs) l (q, h) = elim (Bool-cases (ltb n k)) [
    | inr e ↦ rw (e, verify_newest) (q, h)
    | inl e ↦ elim (Result-cases (verify_replacement d c)) [
      | inr (x, f) ↦
          let l' = rw (e, f, verify_newest) at l in
          rw (e, f, verify_newest) (verify_newest-unmarked Q k n catalog cs l' h)
      | inl (u, f) ↦
          let l' = rw (e, f, verify_newest) at l in
          let more =
            verify_newest-count k (suc n) (mark_verified catalog (files_of c) d.now_unix) cs in
          absurd (omega (arith, l', more))
    ]
  ]

  -- What fresh verification leaves beyond the chains it marks is as it was before.
  pub verify_newest-drop {κ} :
      (Q : ChainRecord → Type κ) (keep_count passed : ℕ) (catalog : Catalog) (cs : List ChainRecord)
      → All Q cs
      → All Q (drop (keep_count - passed) (verify_newest d keep_count passed catalog cs).0)
  unfolding verify_newest
  verify_newest-drop Q k n catalog [] h = All-drop Q (k - n) [] tt
  verify_newest-drop Q k n catalog (c ∷ cs) (q, h) = elim (Bool-cases (ltb n k)) [
    | inr e ↦ rw (e, verify_newest) (All-drop Q (k - n) (c ∷ cs) (q, h))
    | inl e ↦ elim (Result-cases (verify_replacement d c)) [
      | inr (x, f) ↦ rw (e, f, verify_newest) (verify_newest-drop Q k n catalog cs h)
      | inl (u, f) ↦
          let less : k - n ≡ suc (k - suc n) = omega (arith, ltb→lt n k e) in
          rw (e, f, verify_newest, less)
            (verify_newest-drop Q k (suc n) (mark_verified catalog (files_of c) d.now_unix) cs h)
    ]
  ]
