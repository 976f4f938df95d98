-- ===== src/Examples/Deleting.antt =====
-- crates/lr-core/src/catalog.rs and crates/lr-engine/src/retention.rs on a set with two chains.
use linuxreflect.Core.Catalog.Complete.{is_complete_lem}
use linuxreflect.Base.{
  ◌<◌, ◌==◌, leb, find, ℕ, ◌≡◌, ◌≢◌, refl, true, false, some, none, List, [], ◌∷◌, arith, All,
  SortedBy, any, length,
}
use linuxreflect.Base.Result.{ok}
use linuxreflect.Core.ImageKind.{block}
use linuxreflect.Core.Consistency.{frozen, as_u8, from_u8, as_u8-from_u8}
use linuxreflect.Core.Catalog.{
  MemberRecord, ChainRecord, Catalog, is_complete, is_full, latest_member, chain, upsert_chain,
  full,
}
use linuxreflect.Core.Catalog.Lookup.{DistinctChains, upsert_chain_lem}
use linuxreflect.Engine.Retention.{
  Destination, RetentionOptions, apply, plan, oldest_first, is_verified, damaged_member, authorize,
  doomed_of, keep_of, verify_replacement, carry_out, delete_chains, remove_chain, delete_files,
  delete_locked, check_lock, finish, write_locked,
}
use linuxreflect.Engine.Retention.Plan.{Expendable, plan_lem}
use linuxreflect.Engine.Retention.Newest.{NotNewer, plan-kept}
use linuxreflect.Engine.Retention.Trace.{LockHeld}
use linuxreflect.Engine.Retention.Safety.{Justified, apply-Justified, apply-LockHeld}

abbrev full_member : ℕ → MemberRecord
full_member id = record {
  image_uuid = id;
  parent_uuid = 0;
  kind = full;
  seq_in_chain = 0;
  image_kind = block;
  consistency = frozen;
  created_unix = id;
  source_label = [];
  size_bytes = 100;
  file_name = id ∷ [];
  verified_unix = none;
}

abbrev one_member : ℕ → ChainRecord
one_member id = record {
  chain_id = id;
  created_unix = id;
  source_label = [];
  members = full_member id ∷ [];
}

abbrev two_chains : Catalog
two_chains = record {
  version = 1;
  set_id = 9;
  set_name = [];
  updated_unix = 0;
  chains = one_member 3 ∷ one_member 4 ∷ [];
}

abbrev healthy : Destination
healthy = record {
  acquire_set_lock = ok tt;
  load_catalog = ok two_chains;
  open_image = λ name. ok tt;
  verify_image = λ name. ok tt;
  lock_verify = λ trace. ok tt;
  delete = λ trace name. ok tt;
  store_catalog = λ trace catalog. ok tt;
  now_unix = 50;
}

abbrev keep_one : RetentionOptions
keep_one = record { keep_chains = 1; dry_run = false; verify_first = false }

two_chains-DistinctChains : DistinctChains two_chains.chains
unfolding DistinctChains
two_chains-DistinctChains = ((λ e. omega (arith, e), tt), (tt, tt))

upsert_chain_lem_example :
    (chain (upsert_chain two_chains (one_member 3)) 3 ≡ some (one_member 3))
    × ((id : ℕ) → 3 ≢ id → chain (upsert_chain two_chains (one_member 3)) id ≡ chain two_chains id)
    × DistinctChains (upsert_chain two_chains (one_member 3)).chains
upsert_chain_lem_example = upsert_chain_lem two_chains (one_member 3) two_chains-DistinctChains

plan_lem_example :
    All
      (Expendable healthy (plan healthy keep_one two_chains))
      (plan healthy keep_one two_chains).doomed
    × SortedBy oldest_first (plan healthy keep_one two_chains).doomed
plan_lem_example = plan_lem healthy keep_one two_chains

two_chains_usable : (plan healthy keep_one two_chains).usable ≡ one_member 4 ∷ one_member 3 ∷ []
unfolding plan is_complete damaged_member
two_chains_usable = refl

plan-kept_example :
    NotNewer (one_member 4) (one_member 3 ∷ [])
    × ((more : List ChainRecord) × ((plan healthy keep_one two_chains).kept_chains
          ≡ one_member 4 ∷ more))
    × (any is_verified (one_member 4 ∷ one_member 3 ∷ []) ≡ true
        → any is_verified (plan healthy keep_one two_chains).kept_chains ≡ true)
plan-kept_example =
    plan-kept healthy keep_one two_chains (one_member 4) (one_member 3 ∷ [])
      two_chains-DistinctChains two_chains_usable

-- The older chain is deleted after the lock was found to be held, and the catalog is written.
apply_test : length (apply healthy keep_one []).1 ≡ 4
unfolding apply authorize plan doomed_of is_complete damaged_member keep_of is_verified
    verify_replacement latest_member carry_out delete_chains remove_chain delete_files delete_locked
    check_lock finish write_locked
apply_test = refl

apply-Justified_example : All (Justified healthy keep_one) (apply healthy keep_one []).1
apply-Justified_example = apply-Justified healthy keep_one

apply-LockHeld_example : LockHeld healthy (apply healthy keep_one []).1
apply-LockHeld_example = apply-LockHeld healthy keep_one

as_u8-from_u8_example : as_u8 frozen ≡ 1
as_u8-from_u8_example = as_u8-from_u8 1 frozen (unfold from_u8 in refl)

is_complete_lem_example :
    ((i : ℕ)
      → i < 1
      → any (λ (m : MemberRecord). m.seq_in_chain == i) (one_member 3).members ≡ true)
    × (any (λ (m : MemberRecord). leb 1 m.seq_in_chain) (one_member 3).members ≡ false)
    × ((m : MemberRecord) × (find (λ (m : MemberRecord). m.seq_in_chain == 0) (one_member 3).members
          ≡ some m)
        × (is_full m.kind ≡ true))
is_complete_lem_example = is_complete_lem (one_member 3) (omega arith) (unfold is_complete in refl)
