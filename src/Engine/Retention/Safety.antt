-- ===== src/Engine/Retention/Safety.antt =====
-- What a run of retention never does.
use linuxreflect.Base.{
  ℕ, suc, ◌≡◌, refl, subst, sym, true, false, some, List, [], ◌∷◌, any, All, Option-cases, ltb,
  ◌==◌, ◌<◌, ◌≤◌, arith, Bool-cases, inl, inr, ◌⊎◌,
}
use mathlib.Core.List.{Memᴰ}
use linuxreflect.Base.Result.{Result, ok, Result-cases}
use linuxreflect.Core.Catalog.{ChainRecord, Catalog, chain, chain_of}
use linuxreflect.Engine.Effect.{◌>>◌, Keeps, Keeps->>=}
use linuxreflect.Engine.Retention.{
  Destination, RetentionOptions, RetentionPlan, Reason, Event, lock_verified, delete_file,
  write_catalog, verify_replacement, verify_newest, plan, authorize, files_of, apply, mark_verified,
  unwrap_or, is_ok, carry_out, check_lock, delete_locked, write_locked, keep_count_of, usable_of,
}
use linuxreflect.Engine.Retention.Plan.{plan-first_kept, Expendable, doomed-Expendable}
use linuxreflect.Engine.Retention.Choice.{All-keep_of, verify_newest-unmarked}
use linuxreflect.Engine.Retention.Trace.{
  LockHeld, FilesKeep, delete_locked-LockHeld, write_locked-LockHeld, carry_out-Keeps, apply-Keeps,
  check_lock_cases,
}

All-Mem {ℓ κ} : {A : Type ℓ} (P : A → Type κ) (xs : List A) → ((x : A) → Memᴰ x xs → P x) → All P xs
All-Mem P [] f = tt
All-Mem P (x ∷ xs) f = (f x (Memᴰ.head refl), All-Mem P xs (λ y m. f y (Memᴰ.tail m)))

All-of {ℓ κ} : {A : Type ℓ} (P : A → Type κ) (xs : List A) → All P xs → (x : A) → Memᴰ x xs → P x
All-of P [] h y m = elim m [ ]
All-of P (x ∷ xs) (p, h) y (Memᴰ.head e) = subst P (sym e) p
All-of P (x ∷ xs) (p, h) y (Memᴰ.tail m) = All-of P xs h y m

-- A usable chain of the catalog verifies, and a kept chain has its identifier.
pub FreshlyVerified : Destination → Catalog → RetentionPlan → Type 0
FreshlyVerified d catalog a =
    (c kept : ChainRecord) × Memᴰ c (usable_of d catalog)
    × (verify_replacement d c ≡ ok tt)
    × Memᴰ kept a.kept_chains
    × (kept.chain_id ≡ c.chain_id)

chain_of-id :
    (chains : List ChainRecord) (id : ℕ) (c : ChainRecord)
    → chain_of chains id ≡ some c
    → c.chain_id ≡ id
chain_of-id [] id c h = cc
chain_of-id (x ∷ xs) id c h = elim (Bool-cases (x.chain_id == id)) [
  | inl e ↦ ground arith
  | inr e ↦ chain_of-id xs id c (ground arith)
]

unwrap_or-id :
    (catalog : Catalog) (c : ChainRecord)
    → (unwrap_or (chain catalog c.chain_id) c).chain_id ≡ c.chain_id
unwrap_or-id catalog c = elim (Option-cases (chain catalog c.chain_id)) [
  | inl e ↦ rw e
  | inr (x, e) ↦ rw e (chain_of-id catalog.chains c.chain_id x e)
]

module _ (d : Destination) where
  -- A count above the one before means that the first chain left has passed.
  abbrev Passed : ℕ → List ChainRecord → List ChainRecord × Catalog × ℕ → Type 0
  Passed n cs r =
      n < r.2
      → (c first : ChainRecord) × (rest : List ChainRecord) × (r.0 ≡ first ∷ rest)
        × Memᴰ c cs
        × (verify_replacement d c ≡ ok tt)
        × (first.chain_id ≡ c.chain_id)

  verify_newest-Passed :
      (k n : ℕ) (catalog : Catalog) (cs : List ChainRecord)
      → Passed n cs (verify_newest d k n catalog cs)
  unfolding verify_newest
  verify_newest-Passed k n catalog [] = λ h. absurd (omega arith)
  verify_newest-Passed k n catalog (c ∷ cs) = elim (Bool-cases (ltb n k)) [
    | inr e ↦
        let q : verify_newest d k n catalog (c ∷ cs) ≡ (c ∷ cs, catalog, n) =
          rw (e, verify_newest) in
        subst (Passed n (c ∷ cs)) (sym q) (λ h. absurd (omega arith))
    | inl e ↦ elim (Result-cases (verify_replacement d c)) [
      | inr (x, f) ↦
          let q : verify_newest d k n catalog (c ∷ cs) ≡ verify_newest d k n catalog cs =
            rw (e, f, verify_newest) in
          subst (Passed n (c ∷ cs)) (sym q) (λ h.
            let (x', first, m, r, i, v, t) = verify_newest-Passed k n catalog cs h in
            (x', first, m, r, Memᴰ.tail i, v, t))
      | inl (u, f) ↦
          let catalog' = mark_verified catalog (files_of c) d.now_unix in
          let left = verify_newest d k (suc n) catalog' cs in
          let q : verify_newest d k n catalog (c ∷ cs)
              ≡ (unwrap_or (chain catalog' c.chain_id) c ∷ left.0, left.1, left.2) =
            rw (e, f, verify_newest) in
          subst (Passed n (c ∷ cs)) (sym q)
            (λ h. (c, _, left.0, refl, Memᴰ.head refl, f, unwrap_or-id catalog' c))
    ]
  ]

  authorize_cases :
      (a : RetentionPlan) (x : ChainRecord × Reason)
      → Memᴰ x a.doomed
      → authorize d a ≡ ok tt
      → (0 < a.freshly_verified) ⊎ (any (λ c. is_ok (verify_replacement d c)) a.kept_chains ≡ true)
  unfolding authorize
  authorize_cases a x m h = go a.doomed refl m
    where
      go :
          (doomed : List (ChainRecord × Reason))
          → a.doomed ≡ doomed
          → Memᴰ x doomed
          → (0 < a.freshly_verified)
            ⊎ (any (λ c. is_ok (verify_replacement d c)) a.kept_chains ≡ true)
      go [] e k = elim k [ ]
      go (y ∷ ys) e k = ground arith

  any-Mem :
      (cs : List ChainRecord)
      → any (λ c. is_ok (verify_replacement d c)) cs ≡ true
      → (c : ChainRecord) × (verify_replacement d c ≡ ok tt) × Memᴰ c cs
  any-Mem [] h = cc
  any-Mem (c ∷ cs) h = elim (Result-cases (verify_replacement d c)) [
    | inl (u, e) ↦ (c, e, Memᴰ.head refl)
    | inr (x, e) ↦ let (y, f, m) = any-Mem cs (ground arith) in (y, f, Memᴰ.tail m)
  ]

  plan-Passed :
      (options : RetentionOptions) (catalog : Catalog)
      → 0 < (plan d options catalog).freshly_verified
      → (c first : ChainRecord) × (rest : List ChainRecord) × ((plan d options catalog).usable
          ≡ first ∷ rest)
        × Memᴰ c (usable_of d catalog)
        × (verify_replacement d c ≡ ok tt)
        × (first.chain_id ≡ c.chain_id)
  unfolding plan
  plan-Passed options catalog = elim (Bool-cases options.verify_first) [
    | inl e ↦ rw e (verify_newest-Passed (keep_count_of options) 0 catalog (usable_of d catalog))
    | inr e ↦ rw e (λ h. absurd (omega arith))
  ]

  -- Where fresh verification has marked no chain, the kept chains are as they were before it.
  plan-unmarked :
      (options : RetentionOptions) (catalog : Catalog)
      → (plan d options catalog).freshly_verified ≤ 0
      → All (λ c. Memᴰ c (usable_of d catalog)) (plan d options catalog).kept_chains
  unfolding plan
  plan-unmarked options catalog l =
      let usable = usable_of d catalog in
      let k = keep_count_of options in
      let In = λ (c : ChainRecord). Memᴰ c usable in
      let all : All In usable = All-Mem In usable (λ c m. m) in
      elim (Bool-cases options.verify_first) [
        | inl e ↦
            let l' = rw e at l in
            rw e (
              All-keep_of In k (verify_newest d k 0 catalog usable).0
                (verify_newest-unmarked d In k 0 catalog usable l' all))
        | inr e ↦ rw e (All-keep_of In k usable all)
      ]

  authorize-FreshlyVerified :
      (options : RetentionOptions) (catalog : Catalog) (x : ChainRecord × Reason)
      → Memᴰ x (plan d options catalog).doomed
      → authorize d (plan d options catalog) ≡ ok tt
      → FreshlyVerified d catalog (plan d options catalog)
  unfolding FreshlyVerified
  authorize-FreshlyVerified options catalog x m h =
      let a = plan d options catalog in
      elim (Bool-cases (ltb 0 a.freshly_verified)) [
        | inl passed ↦
            let (c, first, rest, e, i, f, same) = plan-Passed options catalog (ground arith) in
            let ((more, kept), v) = plan-first_kept d options catalog first rest e in
            (c, first, i, f, subst (Memᴰ first) (sym kept) (Memᴰ.head refl), same)
        | inr unmarked ↦ elim (authorize_cases a x m h) [
          | inl passed ↦ absurd (ground arith)
          | inr some_ok ↦
              let (c, e, i) = any-Mem a.kept_chains some_ok in
              let before = plan-unmarked options catalog (ground arith) in
              (c, c, All-of _ a.kept_chains before c i, e, i, refl)
        ]
      ]

  -- What a deletion in the trace of a run goes back to.
  pub Justified : RetentionOptions → Event → Type 0
  Justified options lock_verified = Unit
  Justified options (write_catalog c) = options.dry_run ≡ false
  Justified options (delete_file f) =
      (options.dry_run ≡ false)
      × (catalog : Catalog) × (c : ChainRecord) × (r : Reason) × (d.load_catalog ≡ ok catalog)
      × Memᴰ (c, r) (plan d options catalog).doomed
      × Memᴰ f (files_of c)
      × Expendable d (plan d options catalog) (c, r)
      × FreshlyVerified d catalog (plan d options catalog)

  check_lock-Keeps : (P : Event → Type 0) → P lock_verified → Keeps (All P) (check_lock d)
  check_lock-Keeps P l trace h = elim (check_lock_cases d trace) [
    | inl (e, held) ↦ subst (λ r. All P r.1) (sym e) (l, h)
    | inr (x, e) ↦ subst (λ r. All P r.1) (sym e) h
  ]

  locked-Justified :
      (P : Event → Type 0) (event : Event) (result : List Event → Result (Unit {0}))
      → P lock_verified
      → P event
      → Keeps (All P) (check_lock d >> λ trace. (result trace, event ∷ trace))
  locked-Justified P event result l p =
      Keeps->>= (All P) (check_lock d) (λ u trace. (result trace, event ∷ trace))
        (check_lock-Keeps P l) (λ u trace h. (p, h))

  carry_out-Justified :
      (options : RetentionOptions) (catalog : Catalog)
      → d.load_catalog ≡ ok catalog
      → authorize d (plan d options catalog) ≡ ok tt
      → Keeps (All (Justified options)) (carry_out d options (plan d options catalog))
  unfolding delete_locked write_locked Justified
  carry_out-Justified options catalog loaded authorized =
      let a = plan d options catalog in
      carry_out-Keeps d (All (Justified options)) options a
        (λ real. All-Mem (FilesKeep d (All (Justified options))) a.doomed (λ (c, r) m.
          All-Mem _ (files_of c) (λ f n.
            locked-Justified (Justified options) (delete_file f) (λ trace. d.delete trace f) tt
              (
                real,
                catalog,
                c,
                r,
                loaded,
                m,
                n,
                All-of (Expendable d a) a.doomed (doomed-Expendable d options catalog) (c, r) m,
                authorize-FreshlyVerified options catalog (c, r) m authorized,
              ))))
        (λ real written.
          locked-Justified (Justified options) (write_catalog written)
            (λ trace. d.store_catalog trace written) tt real)

  carry_out-LockHeld :
      (options : RetentionOptions) (a : RetentionPlan) → Keeps (LockHeld d) (carry_out d options a)
  carry_out-LockHeld options a =
      carry_out-Keeps d (LockHeld d) options a
        (λ real.
          All-Mem (FilesKeep d (LockHeld d)) a.doomed
            (λ (c, r) m. All-Mem _ (files_of c) (λ f n. delete_locked-LockHeld d f)))
        (λ real. write_locked-LockHeld d)

  -- Every file that a run deletes is a member of a chain that the plan dooms, which is complete,
  -- undamaged and not kept, or incomplete and not newer than the newest usable chain, and a usable
  -- chain of the catalog whose identifier a kept chain has verifies in this run; in a dry run nothing
  -- is deleted and no catalog written.
  pub apply-Justified :
      (options : RetentionOptions) → All (Justified options) (apply d options []).1
  apply-Justified options =
      apply-Keeps d (All (Justified options)) options
        (λ catalog loaded authorized. carry_out-Justified options catalog loaded authorized) [] tt

  -- In every run each deletion and each write of the catalog comes straight after the lock was
  -- found to be held.
  pub apply-LockHeld : (options : RetentionOptions) → LockHeld d (apply d options []).1
  unfolding LockHeld
  apply-LockHeld options =
      apply-Keeps d (LockHeld d) options
        (λ catalog loaded authorized. carry_out-LockHeld options (plan d options catalog)) [] tt
