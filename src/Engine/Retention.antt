-- ===== src/Engine/Retention.antt =====
-- crates/lr-engine/src/retention.rs: which chains of a set are kept and which are deleted.
-- The set's lock, its catalog on the destination, the opening and the verification of an image and
-- the deletion of a file are the operations of `Destination`; those that can change while the run
-- deletes take the events so far, newest first. The warnings are not modelled: no code reads them.
pub mod Choice
pub mod Plan
pub mod Newest
pub mod Trace
pub mod Safety
use linuxreflect.Base.{
  is_some, ℕ, zero, suc, ◌+◌, ◌%◌, ◌^◌, max, Bool, true, false, not, ◌&&◌, ◌||◌, Option, none, some,
  List, [], ◌∷◌, ◌++◌, map, length, take, drop, any, all, ltb, leb, ◌==◌, if◌then◌else◌, filter,
  find, sort_by, eq_bytes,
}
use linuxreflect.Base.Result.{Error, Result, ok, err, corrupt, unsupported, ok_or, refuse}
use linuxreflect.Engine.Effect.{Effect, ◌>>=◌, ◌>>◌, pure, lift}
use linuxreflect.Core.Catalog.{
  MemberRecord, ChainRecord, Catalog, is_complete, latest_member, chain,
}

pub record RetentionOptions : Type 0 where
  pub keep_chains : ℕ
  pub dry_run : Bool
  pub verify_first : Bool

-- What a run does to the destination.
pub data Event : Type 0 where
  lock_verified : Event
  delete_file : List ℕ → Event
  write_catalog : Catalog → Event

pub record Destination : Type 0 where
  pub acquire_set_lock : Result (Unit {0})
  pub load_catalog : Result Catalog
  -- `open_ro(..).and_then(ImageReader::open)`
  pub open_image : List ℕ → Result (Unit {0})
  -- `verify_in_set(..)?.ensure_complete_recovery()`
  pub verify_image : List ℕ → Result (Unit {0})
  pub lock_verify : List Event → Result (Unit {0})
  pub delete : List Event → List ℕ → Result (Unit {0})
  pub store_catalog : List Event → Catalog → Result (Unit {0})
  pub now_unix : ℕ

abbrev pub is_ok {ℓ} : {A : Type ℓ} → Result A → Bool
is_ok (ok a) = true
is_ok (err e) = false

abbrev pub unwrap_or {ℓ} : {A : Type ℓ} → Option A → A → A
unwrap_or none a = a
unwrap_or (some x) a = x

unfoldable pub is_verified : ChainRecord → Bool
is_verified c = elim c.members [
  | [] ↦ false
  | m ∷ ms ↦ all (λ x. is_some x.verified_unix) c.members
]

abbrev pub newest_first : ChainRecord → ChainRecord → Bool
newest_first left right =
    ltb right.created_unix left.created_unix
    || (left.created_unix == right.created_unix && leb right.chain_id left.chain_id)

abbrev pub has_id : List ChainRecord → ℕ → Bool
has_id chains id = any (λ c. c.chain_id == id) chains

abbrev pub names_file : List (List ℕ) → List ℕ → Bool
names_file files file = any (λ f. eq_bytes f file) files

abbrev pub files_of : ChainRecord → List (List ℕ)
files_of c = map (λ m. m.file_name) c.members

-- crates/lr-engine/src/verify.rs: `mark_verified`
abbrev pub mark_member : List (List ℕ) → ℕ → MemberRecord → MemberRecord
mark_member files now m =
    if names_file files m.file_name then record m { verified_unix = some now } else m

abbrev pub mark_chain : List (List ℕ) → ℕ → ChainRecord → ChainRecord
mark_chain files now c = record c { members = map (mark_member files now) c.members }

abbrev pub mark_verified : Catalog → List (List ℕ) → ℕ → Catalog
mark_verified catalog files now = record catalog {
  chains = map (mark_chain files now) catalog.chains;
}

pub data Reason : Type 0 where
  beyond_keep_chains incomplete : Reason

pub record DeletedChain : Type 0 where
  pub chain_id : ℕ
  pub files : List (List ℕ)
  pub bytes : ℕ
  pub reason : Reason

pub record RetentionReport : Type 0 where
  pub kept : List ℕ
  pub deleted : List DeletedChain
  pub dry_run : Bool
  pub complete_chains : ℕ

-- The plan of a run: the state of `apply` before its gate.
pub record RetentionPlan : Type 0 where
  pub usable : List ChainRecord
  pub freshly_verified : ℕ
  pub kept_chains : List ChainRecord
  pub doomed : List (ChainRecord × Reason)
  pub catalog : Catalog

abbrev pub complete_of : Catalog → List ChainRecord
complete_of catalog = sort_by newest_first (filter is_complete catalog.chains)

-- The newest verified chain beyond `keep_count` where none within is verified.
unfoldable pub keep_of : ℕ → List ChainRecord → List ChainRecord
keep_of keep_count usable =
    let kept = take keep_count usable in
    if any is_verified kept then kept else elim (find is_verified (drop keep_count usable)) [
      | some c ↦ kept ++ (c ∷ [])
      | none ↦ kept
    ]

abbrev pub newest_created : List ChainRecord → ℕ
newest_created [] = 0
newest_created (c ∷ cs) = c.created_unix

abbrev pub beyond_of : List ChainRecord → List ChainRecord → List (ChainRecord × Reason)
beyond_of kept usable =
    map (λ c. (c, beyond_keep_chains)) (filter (λ c. not (has_id kept c.chain_id)) usable)

abbrev pub incomplete_of : ℕ → List ChainRecord → List (ChainRecord × Reason)
incomplete_of newest chains =
    map (λ c. (c, incomplete))
      (filter (λ c. not (is_complete c) && not (ltb newest c.created_unix)) chains)

abbrev pub oldest_first : ChainRecord × Reason → ChainRecord × Reason → Bool
oldest_first (a, _) (b, _) = leb a.created_unix b.created_unix

abbrev pub keep_count_of : RetentionOptions → ℕ
keep_count_of options = max options.keep_chains 1

unfoldable pub doomed_of :
    List ChainRecord → List ChainRecord → Catalog → List (ChainRecord × Reason)
doomed_of kept usable catalog =
    sort_by oldest_first
      (beyond_of kept usable ++ incomplete_of (newest_created usable) catalog.chains)

abbrev pub without : ℕ → Catalog → Catalog
without id catalog = record catalog { chains = filter (λ c. not (c.chain_id == id)) catalog.chains }

abbrev pub size_of : List MemberRecord → ℕ
size_of [] = 0
size_of (m ∷ ms) = m.size_bytes + size_of ms

-- The sum of `u64` sizes, as a release build adds them.
abbrev pub deleted_chain : ChainRecord → Reason → DeletedChain
deleted_chain c reason = record {
  chain_id = c.chain_id;
  files = files_of c;
  bytes = size_of c.members % 2 ^ 64;
  reason = reason;
}

abbrev pub report : RetentionOptions → RetentionPlan → List DeletedChain → RetentionReport
report options a deleted = record {
  kept = map (λ c. c.chain_id) a.kept_chains;
  deleted = deleted;
  dry_run = options.dry_run;
  complete_chains = length a.usable;
}

module _ (d : Destination) where
  -- The name of the first member that does not open, and why.
  abbrev pub damaged_among : List MemberRecord → Option (List ℕ × Error)
  damaged_among [] = none
  damaged_among (m ∷ ms) = elim (d.open_image m.file_name) [
    | ok _ ↦ damaged_among ms
    | err e ↦ some (m.file_name, e)
  ]

  unfoldable pub damaged_member : ChainRecord → Option (List ℕ × Error)
  damaged_member c = damaged_among c.members

  unfoldable pub verify_replacement : ChainRecord → Result (Unit {0})
  verify_replacement c = elim (ok_or (latest_member c) corrupt) [
    | ok newest ↦ d.verify_image newest.file_name
    | err e ↦ err e
  ]

  -- The loop with the chains from `index` on; those before it stand in front of the result.
  pub verify_newest : ℕ → ℕ → Catalog → List ChainRecord → List ChainRecord × Catalog × ℕ
  verify_newest keep_count passed catalog [] = ([], catalog, passed)
  verify_newest keep_count passed catalog (c ∷ cs) = elim (ltb passed keep_count) [
    | false ↦ (c ∷ cs, catalog, passed)
    | true ↦ elim (verify_replacement c) [
      | err e ↦ verify_newest keep_count passed catalog cs
      | ok _ ↦
          let catalog' = mark_verified catalog (files_of c) d.now_unix in
          let c' = unwrap_or (chain catalog' c.chain_id) c in
          let (rest, marked, count) = verify_newest keep_count (suc passed) catalog' cs in
          (c' ∷ rest, marked, count)
    ]
  ]

  abbrev pub usable_of : Catalog → List ChainRecord
  usable_of catalog = filter (λ c. not (is_some (damaged_member c))) (complete_of catalog)

  abbrev pub verify_if_first : RetentionOptions → Catalog → List ChainRecord × Catalog × ℕ
  verify_if_first options catalog =
      if options.verify_first
      then verify_newest (keep_count_of options) 0 catalog (usable_of catalog)
      else (usable_of catalog, catalog, 0)

  unfoldable pub plan : RetentionOptions → Catalog → RetentionPlan
  plan options catalog =
      let (usable, catalog', freshly_verified) = verify_if_first options catalog in
      let kept_chains = keep_of (keep_count_of options) usable in
      record {
        usable = usable;
        freshly_verified = freshly_verified;
        kept_chains = kept_chains;
        doomed = doomed_of kept_chains usable catalog';
        catalog = catalog';
      }

  -- The gate before the first deletion.
  unfoldable pub authorize : RetentionPlan → Result (Unit {0})
  authorize a = elim a.doomed [
    | [] ↦ ok tt
    | x ∷ xs ↦
        refuse
          (a.freshly_verified == 0 && not (any (λ c. is_ok (verify_replacement c)) a.kept_chains))
          unsupported
  ]

  unfoldable pub check_lock : Effect Event (Unit {0})
  check_lock trace = elim (d.lock_verify trace) [
    | ok _ ↦ (ok tt, lock_verified ∷ trace)
    | err e ↦ (err e, trace)
  ]

  -- `lock.verify()?; destination.delete(set, file)?`
  unfoldable pub delete_locked : List ℕ → Effect Event (Unit {0})
  delete_locked file = do check_lock; λ trace. (d.delete trace file, delete_file file ∷ trace)

  unfoldable pub write_locked : Catalog → Effect Event (Unit {0})
  write_locked catalog = do
    check_lock
    λ trace. (d.store_catalog trace catalog, write_catalog catalog ∷ trace)

  unfoldable pub delete_files : List (List ℕ) → Effect Event (Unit {0})
  delete_files [] = pure tt
  delete_files (file ∷ files) = do delete_locked file; delete_files files

  -- The body of the deletion loop, but for its report.
  unfoldable pub remove_chain : Bool → ChainRecord → Catalog → Effect Event Catalog
  remove_chain true c catalog = pure catalog
  remove_chain false c catalog = do delete_files (files_of c); pure (without c.chain_id catalog)

  unfoldable pub delete_chains :
      Bool → List (ChainRecord × Reason) → Catalog → Effect Event (List DeletedChain × Catalog)
  delete_chains dry_run [] catalog = pure ([], catalog)
  delete_chains dry_run ((c, reason) ∷ rest) catalog = do
    catalog' ← remove_chain dry_run c catalog
    (deleted, left) ← delete_chains dry_run rest catalog'
    pure (deleted_chain c reason ∷ deleted, left)

  -- The catalog is written after the last deletion.
  unfoldable pub finish : Bool → Catalog → Effect Event (Unit {0})
  finish true catalog = pure tt
  finish false catalog = write_locked (record catalog { updated_unix = d.now_unix })

  unfoldable pub carry_out : RetentionOptions → RetentionPlan → Effect Event RetentionReport
  carry_out options a = do
    (deleted, catalog) ← delete_chains options.dry_run a.doomed a.catalog
    finish options.dry_run catalog
    pure (report options a deleted)

  unfoldable pub apply : RetentionOptions → Effect Event RetentionReport
  apply options = do
    lift d.acquire_set_lock
    catalog ← lift d.load_catalog
    let a = plan options catalog
    lift (authorize a)
    carry_out options a
