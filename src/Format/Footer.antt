-- ===== src/Format/Footer.antt =====
-- crates/lr-format/src/footer.rs: the footer, encoded, decoded and verified. Bytes that are decoded are
-- 4096, as their type says.
pub mod Entries
use linuxreflect.Base.{
  ℕ, zero, suc, ◌+◌, ◌-◌, ◌*◌, ◌%◌, ◌^◌, Bool, not, ◌&&◌, Option, List, [], ◌∷◌, ◌++◌, length, take,
  drop, replicate, ltb, ◌==◌, ◌!=◌, if◌then◌else◌, eq_bytes, bit_and,
}
use linuxreflect.Base.Result.{Result, ok, err, corrupt, unsupported, refuse, ◌>>=◌, ◌>>◌}
use linuxreflect.Format.Wire.{Bytes, to_le_bytes, slice}
use linuxreflect.Format.Chunk.{byte_at}
use linuxreflect.Crypto.Aead.{Primitives}
use linuxreflect.Crypto.Mac.{mac32, unkeyed_mac32, verify_mac32}
use linuxreflect.Crypto.Page.{as_u8, from_u8}
use linuxreflect.Format.PageTable.{PageEntry}
use linuxreflect.Format.Superblock.{authentication_key}

abbrev pub footer_size : ℕ
footer_size = 4096

abbrev pub footer_magic : Bytes
footer_magic = 76 ∷ 82 ∷ 70 ∷ 79 ∷ 79 ∷ 84 ∷ 1 ∷ 0 ∷ []

abbrev pub superblock_copy_len : ℕ
superblock_copy_len = 1024

abbrev pub superblock_copy_offset : ℕ
superblock_copy_offset = 32

abbrev pub page_table_offset : ℕ
page_table_offset = 1056

abbrev pub inline_page_table_slots : ℕ
inline_page_table_slots = 120

abbrev pub page_entry_size : ℕ
page_entry_size = 13

abbrev pub footer_hash_offset : ℕ
footer_hash_offset = 2624

abbrev pub footer_mac_offset : ℕ
footer_mac_offset = 2656

-- `1 << 0`
abbrev pub flag_page_table_in_stream4 : ℕ
flag_page_table_in_stream4 = 1

pub record Footer : Type 0 where
  pub total_chunks : ℕ
  pub data_end_offset : ℕ
  pub page_table : List PageEntry
  pub flags : ℕ

abbrev pub page_table_in_stream4 : Footer → Bool
page_table_in_stream4 f = bit_and f.flags flag_page_table_in_stream4 != 0

abbrev pub page_count : Footer → ℕ
page_count f = length f.page_table

-- The tests of `encode`.
unfoldable pub check_encoded : Footer → Bytes → Result (Unit {0})
check_encoded f superblock_copy = do
  refuse (length superblock_copy != superblock_copy_len) corrupt
  let inline = not (page_table_in_stream4 f)
  refuse (inline && ltb inline_page_table_slots (length f.page_table)) unsupported
  refuse (not inline && length f.page_table == 0) corrupt
  refuse (not inline && ltb inline_page_table_slots (length f.page_table)) unsupported

abbrev pub entry_bytes : PageEntry → Bytes
entry_bytes e = as_u8 e.stream ∷ (to_le_bytes 8 e.offset ++ to_le_bytes 4 e.len)

abbrev pub table_bytes : List PageEntry → Bytes → Bytes
table_bytes [] rest = rest
table_bytes (e ∷ es) rest = entry_bytes e ++ table_bytes es rest

-- The first 2624 bytes: the fields, the copy, the page table and zeros.
abbrev pub hashed_part : Footer → Bytes → Bytes
hashed_part f superblock_copy =
    footer_magic
    ++ (to_le_bytes 8 f.total_chunks
        ++ (to_le_bytes 8 f.data_end_offset
            ++ (to_le_bytes 2 (length f.page_table)
                ++ (to_le_bytes 2 inline_page_table_slots
                    ++ (to_le_bytes 4 f.flags
                        ++ (superblock_copy
                            ++ table_bytes f.page_table (
                                replicate
                                  (footer_hash_offset
                                    - (page_table_offset + length f.page_table * page_entry_size))
                                  0)))))))

-- The entries of the table, as many as are left.
unfoldable pub read_entries : ℕ → Bytes → Result (List PageEntry)
read_entries zero bytes = ok []
read_entries (suc count) bytes = do
  stream ← from_u8 (byte_at bytes 0)
  offset ← slice 8 (drop 1 bytes)
  len ← slice 4 (drop 9 bytes)
  entries ← read_entries count (drop page_entry_size bytes)
  ok (record { stream = stream; offset = offset; len = len } ∷ entries)

module _ (p : Primitives) where
  unfoldable pub encode : Footer → Bytes → Option Bytes → Result Bytes
  encode f superblock_copy meta_key = do
    check_encoded f superblock_copy
    let part = hashed_part f superblock_copy
    let hashed = part ++ unkeyed_mac32 p part
    let mac = mac32 p (authentication_key p meta_key) hashed
    ok ((hashed ++ mac) ++ replicate (footer_size - (footer_mac_offset + 32)) 0)

  unfoldable pub decode : Bytes → Bytes → Result Footer
  decode bytes superblock_prefix = do
    refuse (not (eq_bytes (take 8 bytes) footer_magic)) corrupt
    let expected = unkeyed_mac32 p (take footer_hash_offset bytes)
    refuse (not (eq_bytes (take 32 (drop footer_hash_offset bytes)) expected)) corrupt
    refuse (length superblock_prefix != superblock_copy_len) corrupt
    let copy = take superblock_copy_len (drop superblock_copy_offset bytes)
    refuse (not (eq_bytes copy superblock_prefix)) corrupt
    count ← slice 2 (drop 24 bytes)
    slots ← slice 2 (drop 26 bytes)
    refuse (slots != inline_page_table_slots) corrupt
    refuse (ltb inline_page_table_slots count) corrupt
    flags ← slice 4 (drop 28 bytes)
    refuse (bit_and flags (2 ^ 32 - 1 - flag_page_table_in_stream4) != 0) corrupt
    page_table ← read_entries count (drop page_table_offset bytes)
    total_chunks ← slice 8 (drop 8 bytes)
    data_end_offset ← slice 8 (drop 16 bytes)
    ok (record {
      total_chunks = total_chunks;
      data_end_offset = data_end_offset;
      page_table = page_table;
      flags = flags;
    })

  unfoldable pub verify_mac : Bytes → Option Bytes → Result (Unit {0})
  verify_mac bytes meta_key =
      let stored = take 32 (drop footer_mac_offset bytes) in
      if verify_mac32 p (authentication_key p meta_key) (take footer_mac_offset bytes) stored
      then ok tt
      else err corrupt
