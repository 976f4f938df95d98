-- ===== src/Engine/ChainWalk.antt =====
-- crates/lr-engine/src/chain.rs: the walk over the chunks of a chain. Of an opened member it has what
-- the walk reads: its manifest is the bytes of its page stream. What `visit` is given is listed;
-- reading the payloads, which `visit` may ask for, is left out.
pub mod Applied
pub mod Linked
pub mod Merged
use linuxreflect.Base.{
  ℕ, zero, suc, ◌+◌, ◌-◌, ◌^◌, Bool, true, false, not, ◌&&◌, ◌||◌, Option, none, some, is_some,
  List, [], ◌∷◌, ◌++◌, length, replicate, bit_and, ltb, leb, ◌==◌, ◌!=◌, if◌then◌else◌, eq_bytes,
  sort_by,
}
use linuxreflect.Base.Result.{Result, ok, err, corrupt, unsupported, refuse, ◌>>=◌, ◌>>◌}
use linuxreflect.Core.ImageKind as ImageKind
use linuxreflect.Core.ImageKind.{ImageKind}
use linuxreflect.Core.Catalog.{MemberKind, full, incremental, differential, is_full, to_u32}
use linuxreflect.Format.Wire.{Bytes}
use linuxreflect.Format.Manifest.Header.{read_manifest_header}
use linuxreflect.Format.Manifest.Delta.{ChunkState, unused, zero_filled, stored}
use linuxreflect.Format.Superblock.{Superblock, aead_kind, is_delta_manifest}
use linuxreflect.Crypto.Aead.{from_id}
use linuxreflect.Engine.Chain.{Cursor, open_cursor, state_at}

pub record OpenMember : Type 0 where
  pub seq_in_chain : ℕ
  pub kind : MemberKind
  pub image_uuid : Bytes
  pub superblock : Superblock
  pub manifest : Bytes

abbrev pub same_kind : ImageKind → ImageKind → Bool
same_kind a b = ImageKind.as_u8 a == ImageKind.as_u8 b

unfoldable pub member_kind : Superblock → MemberKind
member_kind s =
    if s.seq_in_chain == 0
    then full
    else if same_kind s.image_kind ImageKind.stream || is_delta_manifest s
    then incremental
    else differential

pub record ChainWalk : Type 0 where
  pub members : List OpenMember
  pub chunk_count : ℕ
  pub chunk_size : ℕ

abbrev pub by_seq : OpenMember → OpenMember → Bool
by_seq a b = leb a.seq_in_chain b.seq_in_chain

abbrev pub breaks_link : Option OpenMember → OpenMember → Bool
breaks_link none member = false
breaks_link (some previous) member =
    ltb 0 member.seq_in_chain && not (eq_bytes member.superblock.parent_uuid previous.image_uuid)

-- The tests of one member beside the first one and the one before it.
unfoldable pub check_member : OpenMember → ℕ → Option OpenMember → OpenMember → Result (Unit {0})
check_member first index previous member = do
  refuse (member.seq_in_chain != to_u32 index) corrupt
  refuse (breaks_link previous member) corrupt
  refuse (member.superblock.chunk_size != first.superblock.chunk_size) corrupt
  refuse (member.superblock.source_size_bytes != first.superblock.source_size_bytes) corrupt
  refuse (not (same_kind member.superblock.image_kind first.superblock.image_kind)) corrupt
  refuse (not (eq_bytes member.superblock.set_id first.superblock.set_id)) corrupt

unfoldable pub check_members :
    OpenMember → ℕ → Option OpenMember → List OpenMember → Result (Unit {0})
check_members first index previous [] = ok tt
check_members first index previous (member ∷ rest) =
    check_member first index previous member >> check_members first (index + 1) (some member) rest

unfoldable pub new : (Bytes → Bool) → List OpenMember → Result ChainWalk
new is_utf8 members = elim (sort_by by_seq members) [
  | [] ↦ err unsupported
  | first ∷ rest ↦ (do
    refuse (first.seq_in_chain != 0 || not (is_full first.kind)) corrupt
    check_members first 0 none (first ∷ rest)
    kind ← aead_kind first.superblock
    ((header, delta), left) ← read_manifest_header is_utf8 first.manifest
    ok (record {
      members = first ∷ rest;
      chunk_count = header.chunk_count;
      chunk_size = first.superblock.chunk_size;
    }))
]

-- The cursors over manifests, each with its cipher and whether it has to be a delta.
unfoldable pub open_cursors : (Bytes → Bool) → List (ℕ × (Bytes × Bool)) → Result (List Cursor)
open_cursors is_utf8 [] = ok []
open_cursors is_utf8 ((aead_id, (manifest, delta)) ∷ rest) = do
  kind ← from_id aead_id
  cursor ← open_cursor is_utf8 manifest delta
  cursors ← open_cursors is_utf8 rest
  ok (cursor ∷ cursors)

unfoldable pub check_sizes : ℕ → ℕ → List Cursor → Result (Unit {0})
check_sizes chunk_count chunk_size [] = ok tt
check_sizes chunk_count chunk_size (cursor ∷ cursors) = do
  refuse (cursor.chunk_count != chunk_count) corrupt
  refuse (cursor.chunk_size != chunk_size) corrupt
  check_sizes chunk_count chunk_size cursors

-- One chunk: its state is handed from cursor to cursor.
unfoldable pub merge_chunk : List Cursor → ℕ → ChunkState → Result (ChunkState × List Cursor)
merge_chunk [] index state = ok (state, [])
merge_chunk (cursor ∷ cursors) index state = do
  (state', cursor') ← state_at cursor index state
  (state'', cursors') ← merge_chunk cursors index state'
  ok (state'', cursor' ∷ cursors')

-- The chunks from `index` on, as many as there are states to start from.
unfoldable pub merge_chunks :
    List Cursor → ℕ → List ChunkState → Result (List ChunkState × List Cursor)
merge_chunks cursors index [] = ok ([], cursors)
merge_chunks cursors index (start ∷ starts) = do
  (state, cursors') ← merge_chunk cursors index start
  (states, cursors'') ← merge_chunks cursors' (suc index) starts
  ok (state ∷ states, cursors'')

abbrev pub is_own : ℕ → ChunkState → Bool
is_own own (stored member _ _ _) = member == own
is_own own _ = false

-- The payloads of one member, where `count` chunks are left.
unfoldable pub own_payloads_of : ℕ → ℕ → ℕ → Cursor → Result (List (ℕ × ChunkState) × Cursor)
own_payloads_of own index zero cursor = ok ([], cursor)
own_payloads_of own index (suc count) cursor = do
  (state, cursor') ← state_at cursor index unused
  (visits, cursor'') ← own_payloads_of own (suc index) count cursor'
  ok (if is_own own state then (index, state) ∷ visits else visits, cursor'')

unfoldable pub all_own_payloads : ℕ → ℕ → List Cursor → Result (List (ℕ × ChunkState) × List Cursor)
all_own_payloads position chunk_count [] = ok ([], [])
all_own_payloads position chunk_count (cursor ∷ cursors) = do
  let own = if ltb position (2 ^ 16) then position else 2 ^ 16 - 1
  (visits, cursor') ← own_payloads_of own 0 chunk_count cursor
  (more, cursors') ← all_own_payloads (position + 1) chunk_count cursors
  ok (visits ++ more, cursor' ∷ cursors')

unfoldable pub check_used : List Cursor → Result (Unit {0})
check_used [] = ok tt
check_used (cursor ∷ cursors) = do
  refuse (is_some cursor.pending) corrupt
  refuse (cursor.remaining != 0) corrupt
  check_used cursors

abbrev pub first_is_full : List Cursor → Bool
first_is_full [] = false
first_is_full (cursor ∷ cursors) = cursor.is_full

abbrev pub is_incremental : MemberKind → Bool
is_incremental incremental = true
is_incremental _ = false

-- The walk over the manifests of the members.
unfoldable pub walk_manifests :
    (Bytes → Bool) → ℕ → ℕ → List (ℕ × (Bytes × Bool)) → Result (List ChunkState)
walk_manifests is_utf8 chunk_count chunk_size manifests = do
  cursors ← open_cursors is_utf8 manifests
  check_sizes chunk_count chunk_size cursors
  (states, cursors') ← merge_chunks cursors 0 (replicate chunk_count unused)
  check_used cursors'
  refuse (not (first_is_full cursors')) corrupt
  ok states

abbrev pub manifests_of : List OpenMember → List (ℕ × (Bytes × Bool))
manifests_of [] = []
manifests_of (m ∷ ms) =
    (m.superblock.aead_id, (m.manifest, is_incremental m.kind)) ∷ manifests_of ms

-- `walk`: the merged states of the chunks, in order.
unfoldable pub walk : (Bytes → Bool) → ChainWalk → Result (List ChunkState)
walk is_utf8 w = walk_manifests is_utf8 w.chunk_count w.chunk_size (manifests_of w.members)

-- `walk_own_payloads`: the numbers of the chunks with their states, member by member.
unfoldable pub walk_own_payloads : (Bytes → Bool) → ChainWalk → Result (List (ℕ × ChunkState))
walk_own_payloads is_utf8 w = do
  cursors ← open_cursors is_utf8 (manifests_of w.members)
  check_sizes w.chunk_count w.chunk_size cursors
  (visits, cursors') ← all_own_payloads 0 w.chunk_count cursors
  check_used cursors'
  refuse (not (first_is_full cursors')) corrupt
  ok visits
