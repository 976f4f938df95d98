-- ===== src/Engine/Retention/Newest.antt =====
-- crates/lr-engine/src/retention.rs: the order of the usable chains, by age, and the one kept first.
use linuxreflect.Base.{
  ℕ, suc, ◌≤◌, ◌≡◌, ◌≢◌, refl, sym, subst, ap, ◌∙◌, true, false, Option-cases, some, List, [], ◌∷◌,
  map, any, All, All-map_of, All-filter, All-sort_by, filter, SortedBy, SortedBy-filter,
  sort_by-SortedBy, is_some, not, ltb, ◌==◌, arith, Bool-cases, inl, inr,
}
use linuxreflect.Base.Result.{Result-cases}
use linuxreflect.Core.Catalog.{ChainRecord, Catalog, chain, chain_of, is_complete}
use linuxreflect.Core.Catalog.Lookup.{DistinctChains}
use linuxreflect.Engine.Retention.{
  Destination, RetentionOptions, is_verified, damaged_member, newest_first, mark_chain,
  mark_verified, files_of, unwrap_or, verify_newest, verify_replacement, complete_of, usable_of,
  keep_count_of, plan,
}
use linuxreflect.Engine.Retention.Plan.{plan-first_kept}

-- None of the chains is newer than the first one.
abbrev pub NotNewer : ChainRecord → List ChainRecord → Type 0
NotNewer c cs = All (λ x. x.created_unix ≤ c.created_unix) cs

abbrev Descending : List ChainRecord → Type 0
Descending [] = Unit
Descending (c ∷ cs) = NotNewer c cs × Descending cs

SortedBy-Descending : (cs : List ChainRecord) → SortedBy newest_first cs → Descending cs
SortedBy-Descending [] h = tt
SortedBy-Descending (c ∷ cs) (b, h) =
    (All-map_of (λ x (e : newest_first c x ≡ true). ground arith) cs b, SortedBy-Descending cs h)

-- What the catalog finds under the identifier of the chain is as old as the chain.
abbrev Dated : Catalog → ChainRecord → Type 0
Dated catalog c =
    (x : ChainRecord) → chain catalog c.chain_id ≡ some x → x.created_unix ≡ c.created_unix

chain_of-Dated :
    (cs : List ChainRecord)
    → DistinctChains cs
    → All
        (λ c. (x : ChainRecord) → chain_of cs c.chain_id ≡ some x → x.created_unix ≡ c.created_unix)
        cs
unfolding DistinctChains
chain_of-Dated [] h = tt
chain_of-Dated (c ∷ cs) (d, h) = (
  λ x e.
      let here : (c.chain_id == c.chain_id) ≡ true = ground arith in
      let found : some c ≡ some x = rw here at e in
      let same : c ≡ x = cc in ap (λ (y : ChainRecord). y.created_unix) (sym same),
  later cs (chain_of-Dated cs h) d,
)
  where
    later :
        (ys : List ChainRecord)
        → All
            (λ y.
              (x : ChainRecord) → chain_of cs y.chain_id ≡ some x → x.created_unix ≡ y.created_unix)
            ys
        → All (λ y. c.chain_id ≢ y.chain_id) ys
        → All
            (λ y.
              (x : ChainRecord)
              → chain_of (c ∷ cs) y.chain_id ≡ some x
              → x.created_unix ≡ y.created_unix)
            ys
    later [] a b = tt
    later (y ∷ ys) (f, a) (n, b) = (
      λ x e. let other : (c.chain_id == y.chain_id) ≡ false = ground arith in f x (rw other at e),
      later ys a b,
    )

-- Marking members leaves the age of every chain.
chain_of-mark_chain :
    (files : List (List ℕ)) (now id : ℕ) (cs : List ChainRecord) (x : ChainRecord)
    → chain_of (map (mark_chain files now) cs) id ≡ some x
    → (y : ChainRecord) × (chain_of cs id ≡ some y) × (x.created_unix ≡ y.created_unix)
chain_of-mark_chain files now id [] x e = absurd (cc)
chain_of-mark_chain files now id (c ∷ cs) x e = elim (Bool-cases (c.chain_id == id)) [
  | inl f ↦
      let found : some (mark_chain files now c) ≡ some x = rw f at e in
      let same : mark_chain files now c ≡ x = cc in
      (c, rw f refl, ap (λ (y : ChainRecord). y.created_unix) (sym same))
  | inr f ↦ let (y, g, t) = chain_of-mark_chain files now id cs x (rw f at e) in (y, rw f g, t)
]

Dated-mark_verified :
    (catalog : Catalog) (files : List (List ℕ)) (now : ℕ) (c : ChainRecord)
    → Dated catalog c
    → Dated (mark_verified catalog files now) c
Dated-mark_verified catalog files now c h x e =
    let (y, f, t) = chain_of-mark_chain files now c.chain_id catalog.chains x e in t ∙ h y f

created-unwrap_or :
    (catalog : Catalog) (c : ChainRecord)
    → Dated catalog c
    → (unwrap_or (chain catalog c.chain_id) c).created_unix ≡ c.created_unix
created-unwrap_or catalog c h = elim (Option-cases (chain catalog c.chain_id)) [
  | inl e ↦ rw e refl
  | inr (x, e) ↦ rw e (h x e)
]

module _ (d : Destination) where
  verify_newest-NotNewer :
      (b k n : ℕ) (catalog : Catalog) (cs : List ChainRecord)
      → All (Dated catalog) cs
      → All (λ x. x.created_unix ≤ b) cs
      → All (λ x. x.created_unix ≤ b) (verify_newest d k n catalog cs).0
  unfolding verify_newest
  verify_newest-NotNewer b k n catalog [] a h = tt
  verify_newest-NotNewer b k n catalog (c ∷ cs) (dated, a) (p, h) = elim (Bool-cases (ltb n k)) [
    | inr e ↦ rw (e, verify_newest) (p, h)
    | inl e ↦ elim (Result-cases (verify_replacement d c)) [
      | inr (x, f) ↦ rw (e, f, verify_newest) (verify_newest-NotNewer b k n catalog cs a h)
      | inl (u, f) ↦
          let catalog' = mark_verified catalog (files_of c) d.now_unix in
          let marks = Dated-mark_verified catalog (files_of c) d.now_unix in
          let same = created-unwrap_or catalog' c (marks c dated) in
          rw (e, f, verify_newest)
            (
              omega (arith, same, p),
              verify_newest-NotNewer b k (suc n) catalog' cs (All-map_of marks cs a) h,
            )
    ]
  ]

  verify_newest-Descending :
      (k n : ℕ) (catalog : Catalog) (cs : List ChainRecord)
      → All (Dated catalog) cs
      → Descending cs
      → Descending (verify_newest d k n catalog cs).0
  unfolding verify_newest
  verify_newest-Descending k n catalog [] a h = tt
  verify_newest-Descending k n catalog (c ∷ cs) (dated, a) (p, h) = elim (Bool-cases (ltb n k)) [
    | inr e ↦ rw (e, verify_newest) (p, h)
    | inl e ↦ elim (Result-cases (verify_replacement d c)) [
      | inr (x, f) ↦ rw (e, f, verify_newest) (verify_newest-Descending k n catalog cs a h)
      | inl (u, f) ↦
          let catalog' = mark_verified catalog (files_of c) d.now_unix in
          let marks = Dated-mark_verified catalog (files_of c) d.now_unix in
          let same = created-unwrap_or catalog' c (marks c dated) in
          let a' = All-map_of marks cs a in
          let below = verify_newest-NotNewer c.created_unix k (suc n) catalog' cs a' p in
          rw (e, f, verify_newest)
            (
              subst (λ b. All (λ x. x.created_unix ≤ b) (verify_newest d k (suc n) catalog' cs).0)
                  (sym same) below,
              verify_newest-Descending k (suc n) catalog' cs a' h,
            )
    ]
  ]

  usable_of-Descending : (catalog : Catalog) → Descending (usable_of d catalog)
  usable_of-Descending catalog = SortedBy-Descending (usable_of d catalog) (
      SortedBy-filter newest_first (λ c. not (is_some (damaged_member d c))) (complete_of catalog)
        (sort_by-SortedBy newest_first (λ x y e. ground arith) (λ x y z e f. ground arith)
          (filter is_complete catalog.chains)))

  usable_of-Dated :
      (catalog : Catalog)
      → DistinctChains catalog.chains
      → All (Dated catalog) (usable_of d catalog)
  usable_of-Dated catalog h =
      All-filter (Dated catalog) (λ c. not (is_some (damaged_member d c))) (complete_of catalog)
        (All-sort_by (Dated catalog) newest_first (filter is_complete catalog.chains)
          (All-filter (Dated catalog) is_complete catalog.chains (chain_of-Dated catalog.chains h)))

  plan-Descending :
      (options : RetentionOptions) (catalog : Catalog)
      → DistinctChains catalog.chains
      → Descending (plan d options catalog).usable
  unfolding plan
  plan-Descending options catalog h = elim (Bool-cases options.verify_first) [
    | inl e ↦ rw e (
        verify_newest-Descending (keep_count_of options) 0 catalog (usable_of d catalog)
          (usable_of-Dated catalog h) (usable_of-Descending catalog))
    | inr e ↦ rw e (usable_of-Descending catalog)
  ]

  -- Where the identifiers in the catalog are distinct, no usable chain is newer than the first usable
  -- one. Whatever `keep_chains` is, that newest one is kept, and where a usable chain is marked
  -- verified, one that is marked verified is kept.
  pub plan-kept :
      (options : RetentionOptions) (catalog : Catalog) (c : ChainRecord) (cs : List ChainRecord)
      → DistinctChains catalog.chains
      → (plan d options catalog).usable ≡ c ∷ cs
      → NotNewer c cs
        × ((more : List ChainRecord) × ((plan d options catalog).kept_chains ≡ c ∷ more))
        × (any is_verified (c ∷ cs) ≡ true
            → any is_verified (plan d options catalog).kept_chains ≡ true)
  plan-kept options catalog c cs h e =
      let (kept, verified) = plan-first_kept d options catalog c cs e in
      ((subst Descending e (plan-Descending options catalog h)).0, kept, verified)
