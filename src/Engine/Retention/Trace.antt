-- ===== src/Engine/Retention/Trace.antt =====
-- What a run of retention does to the destination, in order.
use linuxreflect.Base.{
  ℕ, ◌≡◌, refl, subst, sym, Bool, true, false, List, [], ◌∷◌, All, inl, inr, ◌⊎◌,
}
use linuxreflect.Base.Result.{Error, Result, ok, err, Result-cases}
use linuxreflect.Core.Catalog.{ChainRecord, Catalog}
use linuxreflect.Engine.Retention.{
  Destination, RetentionOptions, RetentionPlan, Reason, Event, lock_verified, delete_file,
  write_catalog, plan, authorize, files_of, delete_files, delete_chains, finish, carry_out, apply,
  without, report, deleted_chain, check_lock, delete_locked, write_locked, remove_chain,
}
use linuxreflect.Engine.Effect.{◌>>=◌, ◌>>◌, pure, Keeps, Keeps->>=, Keeps-lift, >>=_ok, >>=_err}

-- Each deletion and each write of the catalog came straight after the lock was found to be held.
unfoldable pub LockHeld : Destination → List Event → Type 0
LockHeld d [] = Unit
LockHeld d (lock_verified ∷ trace) = LockHeld d trace
LockHeld d (delete_file f ∷ lock_verified ∷ trace) =
    (d.lock_verify trace ≡ ok tt) × LockHeld d trace
LockHeld d (write_catalog c ∷ lock_verified ∷ trace) =
    (d.lock_verify trace ≡ ok tt) × LockHeld d trace
LockHeld d _ = ⊥

module _ (d : Destination) where
  pub check_lock_cases :
      (trace : List Event)
      → ((check_lock d trace ≡ (ok tt, lock_verified ∷ trace)) × (d.lock_verify trace ≡ ok tt))
        ⊎ ((e : Error) × (check_lock d trace ≡ (err e, trace)))
  unfolding check_lock
  check_lock_cases trace = elim (Result-cases (d.lock_verify trace)) [
    | inl (u, e) ↦ inl (rw (e, check_lock), e)
    | inr (x, e) ↦ inr (x, rw (e, check_lock))
  ]

  locked-LockHeld :
      (event : Event) (result : List Event → Result (Unit {0}))
      → ((trace : List Event)
          → d.lock_verify trace ≡ ok tt
          → LockHeld d trace
          → LockHeld d (event ∷ lock_verified ∷ trace))
      → Keeps (LockHeld d) (check_lock d >> λ trace. (result trace, event ∷ trace))
  locked-LockHeld event result held trace h = elim (check_lock_cases trace) [
    | inl (e, l) ↦
        subst (λ r. LockHeld d r.1)
          (sym (>>=_ok (check_lock d) (λ u trace'. (result trace', event ∷ trace')) trace e))
          (held trace l h)
    | inr (x, e) ↦
        subst (λ r. LockHeld d r.1)
          (sym (>>=_err (check_lock d) (λ u trace'. (result trace', event ∷ trace')) trace e)) h
  ]

  pub delete_locked-LockHeld : (file : List ℕ) → Keeps (LockHeld d) (delete_locked d file)
  unfolding delete_locked LockHeld
  delete_locked-LockHeld file =
      locked-LockHeld (delete_file file) (λ trace. d.delete trace file) (λ trace e h. (e, h))

  pub write_locked-LockHeld : (catalog : Catalog) → Keeps (LockHeld d) (write_locked d catalog)
  unfolding write_locked LockHeld
  write_locked-LockHeld catalog =
      locked-LockHeld (write_catalog catalog) (λ trace. d.store_catalog trace catalog)
        (λ trace e h. (e, h))

  module _ (I : List Event → Type 0) where
    abbrev pub FilesKeep : ChainRecord × Reason → Type 0
    FilesKeep (c, _) = All (λ f. Keeps I (delete_locked d f)) (files_of c)

    delete_files-Keeps :
        (files : List (List ℕ))
        → All (λ f. Keeps I (delete_locked d f)) files
        → Keeps I (delete_files d files)
    unfolding delete_files
    delete_files-Keeps [] h = λ trace i. i
    delete_files-Keeps (f ∷ fs) (k, h) =
        Keeps->>= I (delete_locked d f) (λ u. delete_files d fs) k (λ u. delete_files-Keeps fs h)

    remove_chain-Keeps :
        (dry_run : Bool) (c : ChainRecord) (r : Reason) (catalog : Catalog)
        → (dry_run ≡ false → FilesKeep (c, r))
        → Keeps I (remove_chain d dry_run c catalog)
    unfolding remove_chain
    remove_chain-Keeps true c r catalog h = λ trace i. i
    remove_chain-Keeps false c r catalog h =
        Keeps->>= I (delete_files d (files_of c)) (λ u. pure (without c.chain_id catalog))
          (delete_files-Keeps (files_of c) (h refl)) (λ u trace i. i)

    delete_chains-Keeps :
        (dry_run : Bool) (doomed : List (ChainRecord × Reason)) (catalog : Catalog)
        → (dry_run ≡ false → All FilesKeep doomed)
        → Keeps I (delete_chains d dry_run doomed catalog)
    unfolding delete_chains
    delete_chains-Keeps dry [] catalog h = λ trace i. i
    delete_chains-Keeps dry ((c, r) ∷ rest) catalog h =
        Keeps->>= I (remove_chain d dry c catalog)
          (λ catalog'. delete_chains d dry rest catalog' >>= λ (deleted, left).
            pure (deleted_chain c r ∷ deleted, left))
          (remove_chain-Keeps dry c r catalog (λ e. (h e).0))
          (λ catalog'.
            Keeps->>= I (delete_chains d dry rest catalog')
              (λ (deleted, left). pure (deleted_chain c r ∷ deleted, left))
              (delete_chains-Keeps dry rest catalog' (λ e. (h e).1)) (λ left trace i. i))

    finish-Keeps :
        (dry_run : Bool) (catalog : Catalog)
        → (dry_run ≡ false → (written : Catalog) → Keeps I (write_locked d written))
        → Keeps I (finish d dry_run catalog)
    unfolding finish
    finish-Keeps true catalog h = λ trace i. i
    finish-Keeps false catalog h = h refl _

    pub carry_out-Keeps :
        (options : RetentionOptions) (a : RetentionPlan)
        → (options.dry_run ≡ false → All FilesKeep a.doomed)
        → (options.dry_run ≡ false → (written : Catalog) → Keeps I (write_locked d written))
        → Keeps I (carry_out d options a)
    unfolding carry_out
    carry_out-Keeps options a h k =
        Keeps->>= I (delete_chains d options.dry_run a.doomed a.catalog)
          (λ (deleted, catalog).
            finish d options.dry_run catalog >> pure (report options a deleted))
          (delete_chains-Keeps options.dry_run a.doomed a.catalog h)
          (λ (deleted, catalog).
            Keeps->>= I (finish d options.dry_run catalog) (λ u. pure (report options a deleted))
              (finish-Keeps options.dry_run catalog k) (λ u trace i. i))

    -- What `carry_out` keeps for an authorized plan, `apply` keeps.
    pub apply-Keeps :
        (options : RetentionOptions)
        → ((catalog : Catalog)
            → d.load_catalog ≡ ok catalog
            → authorize d (plan d options catalog) ≡ ok tt
            → Keeps I (carry_out d options (plan d options catalog)))
        → Keeps I (apply d options)
    unfolding apply
    apply-Keeps options h = Keeps-lift I d.acquire_set_lock _ (λ u e.
        Keeps-lift I d.load_catalog _ (λ catalog e'.
          Keeps-lift I (authorize d (plan d options catalog)) _ (λ v e''. h catalog e' e'')))
