-- ===== src/Format/Manifest/Header.antt =====
-- crates/lr-format/src/manifest.rs: the header of a block manifest.
-- A string is its bytes, and its validation as UTF-8 is a parameter.
pub mod RoundTrip
use linuxreflect.Base.{
  ℕ, ◌+◌, ◌*◌, ◌^◌, ◌<◌, ◌≡◌, refl, ◌∙◌, ap, Bool, true, false, [], ◌∷◌, ◌++◌, length, arith,
  lt→ltb, ◌==◌, ◌!=◌, if◌then◌else◌,
}
use mathlib.Core.List.{append_assoc, append-nil}
use linuxreflect.Base.Result.{Result, ok, err, corrupt, refuse}
use linuxreflect.Format.Wire.{
  Bytes, to_le_bytes, Write, put_u8, put_u16, put_u32, put_u64, put_u16_prefixed, ◌then_put◌, Read,
  ◌>>=◌, ◌>>◌, pure, lift, u8, u16, u32, u64, u16_prefixed, read_bytes, read_int, from_le_bytes,
}
use linuxreflect.Format.Wire.RoundTrip.{>>=_ok, read_int_lem, read_bytes_lem}

abbrev pub manifest_ver : ℕ
manifest_ver = 1

abbrev pub section_block_full : ℕ
section_block_full = 1

abbrev pub section_block_delta : ℕ
section_block_delta = 2

pub record BlockManifestHeader : Type 0 where
  pub chunk_size : ℕ
  pub chunk_count : ℕ
  pub entry_count : ℕ
  pub used_extent_count : ℕ
  pub used_bytes : ℕ
  pub fs_type : Bytes
  pub fs_uuid : Bytes
  pub label : Bytes

abbrev pub section_of : Bool → ℕ
section_of delta = if delta then section_block_delta else section_block_full

unfoldable pub write_manifest_header : BlockManifestHeader → Bool → Write
write_manifest_header h delta =
    put_u16 manifest_ver
    then_put put_u8 (section_of delta)
    then_put put_u8 0
    then_put put_u32 h.chunk_size
    then_put put_u64 h.chunk_count
    then_put put_u64 h.entry_count
    then_put put_u64 h.used_extent_count
    then_put put_u64 h.used_bytes
    then_put put_u16_prefixed h.fs_type
    then_put put_u16_prefixed h.fs_uuid
    then_put put_u16_prefixed h.label
    then_put put_u16 0

abbrev pub section_kind : ℕ → Result Bool
section_kind kind =
    if kind == section_block_full
    then ok false
    else if kind == section_block_delta
    then ok true
    else err corrupt

module _ (is_utf8 : Bytes → Bool) where
  abbrev pub utf8 : Bytes → Result Bytes
  utf8 bytes = if is_utf8 bytes then ok bytes else err corrupt

  -- `utf8(reader.u16_prefixed()?)`
  unfoldable pub read_string : Read Bytes
  read_string = do bytes ← u16_prefixed; lift (utf8 bytes)

  unfoldable pub read_manifest_header : Read (BlockManifestHeader × Bool)
  read_manifest_header = do
    ver ← u16
    lift (refuse (ver != manifest_ver) corrupt)
    kind ← u8
    delta ← lift (section_kind kind)
    reserved ← u8
    chunk_size ← u32
    chunk_count ← u64
    entry_count ← u64
    used_extent_count ← u64
    used_bytes ← u64
    fs_type ← read_string
    fs_uuid ← read_string
    label ← read_string
    reserved' ← u16
    pure (
      record {
        chunk_size = chunk_size;
        chunk_count = chunk_count;
        entry_count = entry_count;
        used_extent_count = used_extent_count;
        used_bytes = used_bytes;
        fs_type = fs_type;
        fs_uuid = fs_uuid;
        label = label;
      },
      delta,
    )
