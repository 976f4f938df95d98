-- ===== src/Format/ImageWriter.antt =====
-- crates/lr-format/src/writer.rs: the writer of an image. The file is its bytes so far, and `position`
-- is their number, since every write but that of the superblock goes to the end. An error leaves a
-- writer that no code uses again.
use linuxreflect.Base.{
  ℕ, ◌+◌, ◌-◌, ◌^◌, Option, none, some, List, [], ◌∷◌, ◌++◌, length, leb, ◌!=◌, if◌then◌else◌, take,
  drop, not, eq_bytes,
}
use linuxreflect.Base.Result.{Result, ok, corrupt, unsupported, refuse, ◌>>=◌, ◌>>◌}
use linuxreflect.Core.ImageKind.{ImageKind}
use linuxreflect.Format.Wire.{Bytes}
use linuxreflect.Format.Chunk.{ChunkOptions, seal_chunk, decode_header}
use linuxreflect.Format.Superblock.{Superblock, encode, set_consistency, sb_size}
use linuxreflect.Core.Consistency.{Consistency}
use linuxreflect.Format.PageTable.{PageEntry, same_stream}
use linuxreflect.Crypto.Nonce.{NonceSeq, new}
use linuxreflect.Crypto.Aead.{Primitives}
use linuxreflect.Crypto.Page.{StreamId, page_overhead}

pub record WriterKeys : Type 0 where
  pub data_key : Option Bytes
  pub meta_key : Bytes
  pub dedup_key : Bytes

pub record ChunkRef : Type 0 where
  pub offset : ℕ
  pub stored_len : ℕ
  pub hash : Bytes

pub record ImageWriter : Type 0 where
  pub file : Bytes
  pub superblock_bytes : Bytes
  pub page_table : List PageEntry
  pub data_end_offset : Option ℕ
  pub total_chunks : ℕ
  pub next_page : StreamId → ℕ
  pub meta_nonces : NonceSeq

abbrev pub position : ImageWriter → ℕ
position w = length w.file

-- The output of the writer that is handed in is empty.
unfoldable pub create : Primitives → Superblock → Option Bytes → Result ImageWriter
create p superblock meta_key = do
  superblock_bytes ← encode p superblock meta_key
  ok (record {
    file = superblock_bytes;
    superblock_bytes = superblock_bytes;
    page_table = [];
    data_end_offset = none;
    total_chunks = 0;
    next_page = λ stream. 0;
    meta_nonces = new;
  })

-- `bytes[26..42]`, the identity of the image.
abbrev pub identity_of : Bytes → Bytes
identity_of bytes = take 16 (drop 26 bytes)

unfoldable pub rewrite_superblock :
    Primitives → ImageWriter → Superblock → Option Bytes → Result ImageWriter
rewrite_superblock p w superblock meta_key = do
  bytes ← encode p superblock meta_key
  refuse (not (eq_bytes (identity_of bytes) (identity_of w.superblock_bytes))) corrupt
  ok (record w { file = bytes ++ drop sb_size w.file; superblock_bytes = bytes })

unfoldable pub update_consistency :
    Primitives
    → ImageWriter
    → Superblock
    → Consistency
    → Option Bytes
    → Result (Superblock × ImageWriter)
update_consistency p w superblock consistency meta_key = do
  let candidate = set_consistency superblock consistency
  w' ← rewrite_superblock p w candidate meta_key
  ok (candidate, w')

unfoldable pub append_record : ImageWriter → Bytes → Result ((ℕ × ℕ) × ImageWriter)
append_record w bytes = do
  refuse (leb (2 ^ 32) (length bytes)) unsupported
  let after : ImageWriter = record w { file = w.file ++ bytes; total_chunks = w.total_chunks + 1 }
  ok ((position w, length bytes), after)

unfoldable pub append_chunk :
    Primitives
    → ImageWriter
    → ChunkOptions
    → WriterKeys
    → ImageKind
    → NonceSeq
    → Bytes
    → Result ((ChunkRef × NonceSeq) × ImageWriter)
append_chunk p w options keys image_kind nonce_seq plaintext = do
  ((sealed, hash), nonce_seq') ←
      seal_chunk p options keys.data_key keys.dedup_key image_kind nonce_seq plaintext
  header ← decode_header sealed
  ((offset, total), w') ← append_record w sealed
  ok ((record { offset = offset; stored_len = header.stored_len; hash = hash }, nonce_seq'), w')

-- The counter of one stream goes up by one.
abbrev pub count_page : (StreamId → ℕ) → StreamId → StreamId → ℕ
count_page next stream other = if same_stream other stream then next other + 1 else next other

unfoldable pub write_page : ImageWriter → StreamId → ℕ → Bytes → Result ImageWriter
write_page w stream page_no page = do
  refuse (page_no != w.next_page stream) corrupt
  let len = length page - page_overhead
  refuse (leb (2 ^ 32) len) unsupported
  ok (record w {
    file = w.file ++ page;
    page_table = w.page_table ++ (record { stream = stream; offset = position w; len = len } ∷ []);
    data_end_offset = elim w.data_end_offset [
      | none ↦ some (position w)
      | some offset ↦ some offset
    ];
    next_page = count_page w.next_page stream;
  })
