-- ===== src/Engine/Retention/Plan.antt =====
-- What retention plans to delete.
use linuxreflect.Base.{
  is_some, ℕ, zero, suc, ◌-◌, ◌≤◌, ◌≡◌, refl, ◌∙◌, ap, subst, Bool, true, false, not, ◌&&◌, Option,
  none, some, List, [], ◌∷◌, ◌++◌, map, take, drop, any, All, All-append, ltb, arith, Bool-cases,
  All-map_of, All-filter, All-sort_by, filter_passes, SortedBy, sort_by-SortedBy, inl, inr, filter,
}
use linuxreflect.Core.Catalog.{ChainRecord, Catalog, is_complete}
use linuxreflect.Engine.Retention.{
  Destination, RetentionOptions, RetentionPlan, Reason, is_verified, damaged_member, plan,
  usable_of, complete_of, keep_count_of, verify_if_first, verify_newest, doomed_of, beyond_of,
  incomplete_of, newest_created, oldest_first, has_id, newest_first,
}
use linuxreflect.Engine.Retention.Choice.{All-drop, keep_of_cases, All-has_id, verify_newest-drop}

-- What makes a chain one that retention may delete.
pub Expendable : Destination → RetentionPlan → ChainRecord × Reason → Type 0
Expendable d a (c, Reason.beyond_keep_chains) =
    (is_complete c ≡ true) × (damaged_member d c ≡ none) × (has_id a.kept_chains c.chain_id ≡ false)
Expendable d a (c, Reason.incomplete) =
    (is_complete c ≡ false) × (c.created_unix ≤ newest_created a.usable)

All-filter-drop {ℓ κ} :
    {A : Type ℓ} (P : A → Type κ) (q : A → Bool) (n : ℕ) (xs : List A)
    → All (λ x. q x ≡ false) (take n xs)
    → All P (drop n xs)
    → All P (filter q xs)
All-filter-drop P q zero xs h k = All-filter P q xs k
All-filter-drop P q (suc n) [] h k = tt
All-filter-drop P q (suc n) (x ∷ xs) (e, h) k = rw e (All-filter-drop P q n xs h k)

All-map {ℓ ℓ' κ} :
    {A : Type ℓ} {B : Type ℓ'} (P : B → Type κ) (f : A → B) (xs : List A)
    → All (λ x. P (f x)) xs
    → All P (map f xs)
All-map P f [] h = tt
All-map P f (x ∷ xs) (p, h) = (p, All-map P f xs h)

All-both {ℓ κ κ'} :
    {A : Type ℓ} (P : A → Type κ) (Q : A → Type κ') (xs : List A)
    → All P xs
    → All Q xs
    → All (λ x. P x × Q x) xs
All-both P Q [] h k = tt
All-both P Q (x ∷ xs) (p, h) (q, k) = ((p, q), All-both P Q xs h k)

is_some_none : {A : Type 0} (o : Option A) → not (is_some o) ≡ true → o ≡ none
is_some_none none h = refl
is_some_none (some a) h = cc

module _ (d : Destination) where
  -- Complete, and every member opens.
  abbrev Sound : ChainRecord → Type 0
  Sound c = (is_complete c ≡ true) × (damaged_member d c ≡ none)

  usable_of-Sound : (catalog : Catalog) → All Sound (usable_of d catalog)
  usable_of-Sound catalog =
      let test = λ (c : ChainRecord). not (is_some (damaged_member d c)) in
      All-both _ _ (usable_of d catalog)
        (All-filter _ test (complete_of catalog) (
          All-sort_by _ newest_first (filter is_complete catalog.chains)
            (filter_passes is_complete catalog.chains)))
        (All-map_of (λ c h. is_some_none (damaged_member d c) h) (usable_of d catalog)
          (filter_passes test (complete_of catalog)))

  beyond-Sound :
      (options : RetentionOptions) (catalog : Catalog)
      → All Sound (drop (keep_count_of options) (verify_if_first d options catalog).0)
  beyond-Sound options catalog =
      let k = keep_count_of options in
      let usable = usable_of d catalog in
      elim (Bool-cases options.verify_first) [
        | inl e ↦
            let all_of : k - 0 ≡ k = omega arith in
            let left : All Sound (drop (k - 0) (verify_newest d k 0 catalog usable).0) =
              verify_newest-drop d Sound k 0 catalog usable (usable_of-Sound catalog) in
            rw e
              (subst (λ n. All Sound (drop n (verify_newest d k 0 catalog usable).0)) all_of left)
        | inr e ↦ rw e (All-drop Sound k usable (usable_of-Sound catalog))
      ]

  beyond_of-Expendable :
      (a : RetentionPlan) (n : ℕ) (more : List ChainRecord)
      → a.kept_chains ≡ take n a.usable ++ more
      → All Sound (drop n a.usable)
      → All (Expendable d a) (beyond_of a.kept_chains a.usable)
  unfolding Expendable
  beyond_of-Expendable a n more e h =
      let test = λ (c : ChainRecord). not (has_id a.kept_chains c.chain_id) in
      let kept : All (λ c. test c ≡ false) (take n a.usable) = rw e (
        All-map_of (λ c (f : has_id (take n a.usable ++ more) c.chain_id ≡ true). rw f)
          (take n a.usable) (All-has_id (take n a.usable) more)) in
      All-map (Expendable d a) _ (filter test a.usable) (
        All-map_of (λ c ((s, o), u). (s, o, ground arith)) (filter test a.usable)
          (All-both Sound (λ c. test c ≡ true) (filter test a.usable)
            (All-filter-drop Sound test n a.usable kept h) (filter_passes test a.usable)))

  incomplete_of-Expendable :
      (a : RetentionPlan) (chains : List ChainRecord)
      → All (Expendable d a) (incomplete_of (newest_created a.usable) chains)
  unfolding Expendable
  incomplete_of-Expendable a chains =
      let test = λ (c : ChainRecord).
        not (is_complete c) && not (ltb (newest_created a.usable) c.created_unix) in
      All-map (Expendable d a) _ (filter test chains) (
        All-map_of (λ c (h : test c ≡ true). ground arith) (filter test chains)
          (filter_passes test chains))

  pub doomed-Expendable :
      (options : RetentionOptions) (catalog : Catalog)
      → All (Expendable d (plan d options catalog)) (plan d options catalog).doomed
  unfolding plan doomed_of
  doomed-Expendable options catalog =
      let a = plan d options catalog in
      let (more, e, v) = keep_of_cases (keep_count_of options) a.usable in
      All-sort_by (Expendable d a) oldest_first
        (beyond_of a.kept_chains a.usable
          ++ incomplete_of (newest_created a.usable) a.catalog.chains)
        (All-append (Expendable d a) (beyond_of a.kept_chains a.usable) _
          (beyond_of-Expendable a (keep_count_of options) more e (beyond-Sound options catalog))
          (incomplete_of-Expendable a a.catalog.chains))

  doomed-SortedBy :
      (options : RetentionOptions) (catalog : Catalog)
      → SortedBy oldest_first (plan d options catalog).doomed
  unfolding plan doomed_of
  doomed-SortedBy options catalog =
      let a = plan d options catalog in
      sort_by-SortedBy oldest_first (λ (c, r) (c', r') h. ground arith)
        (λ (c, r) (c', r') (c'', r'') h k. ground arith)
        (beyond_of a.kept_chains a.usable
          ++ incomplete_of (newest_created a.usable) a.catalog.chains)

  -- Every chain that is doomed is complete, undamaged and not kept, or incomplete and not newer
  -- than the newest usable chain; the doomed chains are in the order of their age, oldest first.
  pub plan_lem :
      (options : RetentionOptions) (catalog : Catalog)
      → All (Expendable d (plan d options catalog)) (plan d options catalog).doomed
        × SortedBy oldest_first (plan d options catalog).doomed
  plan_lem options catalog = (doomed-Expendable options catalog, doomed-SortedBy options catalog)

  -- The first usable chain is kept, and a verified one where there is one.
  pub plan-first_kept :
      (options : RetentionOptions) (catalog : Catalog) (c : ChainRecord) (cs : List ChainRecord)
      → (plan d options catalog).usable ≡ c ∷ cs
      → ((more : List ChainRecord) × ((plan d options catalog).kept_chains ≡ c ∷ more))
        × (any is_verified (c ∷ cs) ≡ true
            → any is_verified (plan d options catalog).kept_chains ≡ true)
  unfolding plan
  plan-first_kept options catalog c cs h =
      let (more, e, v) = keep_of_cases (keep_count_of options) (plan d options catalog).usable in
      let some_kept : keep_count_of options ≡ suc (keep_count_of options - 1) = omega arith in
      (
        (
          take (keep_count_of options - 1) cs ++ more,
          e
              ∙ ap (λ u. take (keep_count_of options) u ++ more) h
              ∙ ap (λ n. take n (c ∷ cs) ++ more) some_kept,
        ),
        λ some_verified. v (rw h some_verified),
      )
