-- ===== src/Examples/Manifests.antt =====
-- crates/lr-format/src/manifest.rs and the cursor of crates/lr-engine/src/chain.rs on small
-- manifests.
use linuxreflect.Base.{
  ℕ, ◌≡◌, refl, ◌++◌, true, false, Bool, List, [], ◌∷◌, arith, length, replicate, get_elem?, ltb,
  if◌then◌else◌,
}
use linuxreflect.Base.Result.{ok, err, corrupt}
use linuxreflect.Format.Wire.{Bytes}
use linuxreflect.Format.Manifest.Header.{
  BlockManifestHeader, write_manifest_header, read_manifest_header,
}
use linuxreflect.Format.Manifest.Header.RoundTrip as Header
use linuxreflect.Format.Manifest.Header.RoundTrip.{read-write_manifest_header}
use linuxreflect.Format.Manifest.Entry.{BlockEntry, unused}
use linuxreflect.Format.Manifest.Entry as Entry
use linuxreflect.Format.Manifest.Stream.{DeltaEntry, write_delta, read_delta, read-write_delta}
use linuxreflect.Format.Manifest.Header.RoundTrip.{header_bytes}
use linuxreflect.Engine.Chain.{Cursor, open_cursor}
use linuxreflect.Engine.Chain.Walk.{
  Ascending, stream_of, cursor_of, walk, sized, open-walk-apply_delta,
}
use linuxreflect.Format.Manifest.Delta.{
  ChunkState, apply_delta, state_after, apply_delta_lem, apply_delta-out, zero_filled,
}

abbrev is_ascii : Bytes → Bool
is_ascii [] = true
is_ascii (b ∷ bs) = let rest = is_ascii bs in if ltb b 128 then rest else false

abbrev small_header : BlockManifestHeader
small_header = record {
  chunk_size = 65536;
  chunk_count = 3;
  entry_count = 1;
  used_extent_count = 1;
  used_bytes = 100;
  fs_type = 101 ∷ 120 ∷ [];
  fs_uuid = [];
  label = 97 ∷ [];
}

small_header-IsValid : Header.IsValid is_ascii small_header
small_header-IsValid = record {
  chunk_size_fits = omega arith;
  chunk_count_fits = omega arith;
  entry_count_fits = omega arith;
  extent_count_fits = omega arith;
  used_bytes_fits = omega arith;
  fs_type_valid = (omega arith, refl);
  fs_uuid_valid = (omega arith, refl);
  label_valid = (omega arith, refl);
}

abbrev stored_block : BlockEntry
stored_block = record {
  state = 2;
  member = 5;
  hash = replicate 32 1;
  offset = 4096;
  stored_len = 10;
}

abbrev one_delta : DeltaEntry
one_delta = record { chunk_no = 1; entry = stored_block }

stored_block-IsValid : Entry.IsValid stored_block
stored_block-IsValid = record {
  state_known = omega arith;
  member_fits = omega arith;
  hash_length = refl;
  offset_fits = omega arith;
  length_fits = omega arith;
}

abbrev two_zero_chunks : List ChunkState
two_zero_chunks = zero_filled ∷ zero_filled ∷ []

read-write_manifest_header_example :
    (field : Bytes) × (write_manifest_header small_header true [] ≡ ok ([] ++ field))
    × (read_manifest_header is_ascii (field ++ (7 ∷ [])) ≡ ok ((small_header, true), 7 ∷ []))
read-write_manifest_header_example =
    read-write_manifest_header is_ascii small_header true [] (7 ∷ []) small_header-IsValid

read-write_delta_example :
    (field : Bytes) × (write_delta one_delta [] ≡ ok ([] ++ field))
    × (length field ≡ 54)
    × (read_delta (field ++ (7 ∷ [])) ≡ ok (one_delta, 7 ∷ []))
read-write_delta_example = read-write_delta one_delta [] (7 ∷ []) (omega arith) stored_block-IsValid

apply_delta_lem_example :
    (out : List ChunkState) × (apply_delta two_zero_chunks (one_delta ∷ []) ≡ ok out)
    × (length out ≡ length two_zero_chunks)
    × ((i : ℕ) → get_elem? out i ≡ state_after i (one_delta ∷ []) (get_elem? two_zero_chunks i))
apply_delta_lem_example = apply_delta_lem (one_delta ∷ []) two_zero_chunks (omega arith, tt)

apply_delta-out_example : apply_delta (zero_filled ∷ []) (one_delta ∷ []) ≡ err corrupt
apply_delta-out_example = apply_delta-out (one_delta ∷ []) (zero_filled ∷ []) refl

one_delta-Ascending : Ascending 0 (one_delta ∷ [])
unfolding Ascending
one_delta-Ascending = (omega arith, omega arith, stored_block-IsValid, tt)

open-walk-apply_delta_example :
    (c : Cursor) × (out : List ChunkState) × (open_cursor is_ascii
        (header_bytes small_header true (stream_of (one_delta ∷ []) []))
        true
      ≡ ok c)
    × (apply_delta two_zero_chunks (one_delta ∷ []) ≡ ok out)
    × (walk c 0 two_zero_chunks ≡ ok (out, cursor_of (sized small_header) [] []))
open-walk-apply_delta_example =
    open-walk-apply_delta is_ascii small_header (one_delta ∷ []) two_zero_chunks []
      small_header-IsValid refl one_delta-Ascending (omega arith, tt)
