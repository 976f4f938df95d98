-- ===== src/Examples/Chains.antt =====
-- crates/lr-engine/src/chain.rs: the walk over a chain of a full image and two deltas.
use linuxreflect.Base.{
  suc, some, sort_by, get_elem?, eq_bytes, ◌*◌, ℕ, ◌<◌, ◌≤◌, ◌^◌, ◌≡◌, refl, Bool, true, false,
  List, [], ◌∷◌, arith, map, replicate,
}
use linuxreflect.Base.Result.{ok}
use linuxreflect.Format.Manifest.Entry as Entry
use linuxreflect.Format.Manifest.Entry.{BlockEntry}
use linuxreflect.Format.Manifest.Header.{BlockManifestHeader}
use linuxreflect.Format.Manifest.Header.RoundTrip as Header
use linuxreflect.Format.Manifest.Header.RoundTrip.{header_bytes, read_lem}
use linuxreflect.Format.Manifest.Delta.{ChunkState, from_entry}
use linuxreflect.Crypto.Aead.{aes_256_gcm, id, from_id}
use linuxreflect.Engine.Chain.Walk.{Ascending}
use linuxreflect.Engine.ChainWalk.{
  walk_manifests, OpenMember, ChainWalk, new, check_members, check_member, by_seq,
}
use linuxreflect.Engine.ChainWalk.Linked.{Agrees, new-Linked}
use linuxreflect.Format.Superblock.{aead_kind}
use linuxreflect.Core.Catalog.{to_u32, full, incremental}
use linuxreflect.Examples.Headers.{sample}
use linuxreflect.Engine.ChainWalk.Applied.{
  DeltaMember, Written, manifest_of, entry_stream, apply_deltas, walk_manifests-apply_deltas,
}

abbrev no_text : List ℕ → Bool
no_text bs = true

abbrev header_of : ℕ → BlockManifestHeader
header_of entries = record {
  chunk_size = 65536;
  chunk_count = 2;
  entry_count = entries;
  used_extent_count = 1;
  used_bytes = 100;
  fs_type = [];
  fs_uuid = [];
  label = [];
}

abbrev block : ℕ → BlockEntry
block member = record {
  state = 2;
  member = member;
  hash = replicate 32 member;
  offset = 4096;
  stored_len = 10;
}

abbrev delta_of : ℕ → ℕ → DeltaMember
delta_of member chunk = record {
  kind = aes_256_gcm;
  header = header_of 1;
  entries = (record { chunk_no = chunk; entry = block member }) ∷ [];
  more = [];
}

abbrev full_blocks : List BlockEntry
full_blocks = block 0 ∷ block 0 ∷ []

abbrev deltas : List DeltaMember
deltas = delta_of 1 1 ∷ delta_of 2 0 ∷ []

header_of-IsValid : (n : ℕ) → n < 2 ^ 64 → Header.IsValid no_text (header_of n)
header_of-IsValid n small = record {
  chunk_size_fits = omega arith;
  chunk_count_fits = omega arith;
  entry_count_fits = small;
  extent_count_fits = omega arith;
  used_bytes_fits = omega arith;
  fs_type_valid = (omega arith, refl);
  fs_uuid_valid = (omega arith, refl);
  label_valid = (omega arith, refl);
}

block-IsValid : (n : ℕ) → n ≤ Entry.max_member → Entry.IsValid (block n)
block-IsValid n known = record {
  state_known = omega arith;
  member_fits = known;
  hash_length = refl;
  offset_fits = omega arith;
  length_fits = omega arith;
}

delta_of-Written :
    (member chunk : ℕ)
    → member ≤ Entry.max_member
    → chunk < 2
    → Written no_text 2 65536 (delta_of member chunk)
unfolding Ascending
delta_of-Written member chunk known inside = record {
  header_valid = header_of-IsValid 1 (omega arith);
  counted = refl;
  same_count = refl;
  same_size = refl;
  ascending = (omega arith, omega arith, block-IsValid member known, tt);
  inside = (inside, tt);
}

walk_manifests-apply_deltas_example :
    (out : List ChunkState) × (apply_deltas (map from_entry full_blocks) deltas ≡ ok out)
    × (walk_manifests no_text 2 65536 (
          (id aes_256_gcm, (header_bytes (header_of 2) false (entry_stream full_blocks []), false))
          ∷ map manifest_of deltas)
        ≡ ok out)
walk_manifests-apply_deltas_example =
    walk_manifests-apply_deltas no_text aes_256_gcm (header_of 2) full_blocks [] deltas
      (header_of-IsValid 2 (omega arith)) refl refl
      (block-IsValid 0 (omega arith), (block-IsValid 0 (omega arith), tt))
      (
        delta_of-Written 1 1 (omega arith) (omega arith),
        (delta_of-Written 2 0 (omega arith) (omega arith), tt),
      )

abbrev base_member : OpenMember
base_member = record {
  seq_in_chain = 0;
  kind = full;
  image_uuid = replicate 16 1;
  superblock = sample;
  manifest = header_bytes (header_of 2) false (entry_stream full_blocks []);
}

abbrev next_member : OpenMember
next_member = record {
  seq_in_chain = 1;
  kind = incremental;
  image_uuid = replicate 16 2;
  superblock = record sample { seq_in_chain = 1; parent_uuid = replicate 16 1 };
  manifest = (manifest_of (delta_of 1 1)).1.0;
}

abbrev small_chain : ChainWalk
small_chain = record {
  members = base_member ∷ next_member ∷ [];
  chunk_count = 2;
  chunk_size = 1024 * 1024;
}

new_run : new no_text (next_member ∷ base_member ∷ []) ≡ ok small_chain
unfolding new check_members check_member aead_kind from_id eq_bytes
new_run = rw (
    read_lem no_text (header_of 2) false (entry_stream full_blocks [])
      (header_of-IsValid 2 (omega arith)))

new-Linked_example :
    (small_chain.members ≡ sort_by by_seq (next_member ∷ base_member ∷ []))
    × ((first : OpenMember) × (get_elem? small_chain.members 0 ≡ some first)
        × (first.kind ≡ full)
        × (small_chain.chunk_size ≡ first.superblock.chunk_size)
        × ((i : ℕ) (m : OpenMember)
            → get_elem? small_chain.members i ≡ some m
            → (m.seq_in_chain ≡ to_u32 i) × Agrees first m))
    × ((i : ℕ) (a b : OpenMember)
        → get_elem? small_chain.members i ≡ some a
        → get_elem? small_chain.members (suc i) ≡ some b
        → b.superblock.parent_uuid ≡ a.image_uuid)
new-Linked_example = new-Linked no_text (next_member ∷ base_member ∷ []) small_chain new_run
