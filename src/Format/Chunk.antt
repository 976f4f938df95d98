-- ===== src/Format/Chunk.antt =====
-- crates/lr-format/src/chunk.rs: the chunk record, and sealing and opening of chunks.
pub mod Record
pub mod Seal
use linuxreflect.Base.{
  ℕ, ◌+◌, ◌*◌, ◌%◌, ◌^◌, Bool, true, false, not, bit_and, bit_or, Option, none, some, List, [], ◌∷◌,
  ◌++◌, length, take, drop, get_elem?, ltb, ◌==◌, ◌!=◌, if◌then◌else◌, eq_bytes, replicate,
}
use linuxreflect.Base.Result.{Result, ok, err, corrupt, refuse, ok_or, ◌>>=◌, ◌>>◌}
use linuxreflect.Core.ImageKind.{ImageKind, as_u8}
use linuxreflect.Format.Wire.{
  Bytes, put_u8, put_u16, put_u32, put_bytes, ◌then_put◌, slice_u16, slice_u32,
}
use linuxreflect.Format.Compress.{compress_if_smaller, decompress}
use linuxreflect.Crypto.Nonce.{NonceSeq, next_nonce}
use linuxreflect.Crypto.Aead.{
  AeadKind, Primitives, seal_in_place, open_in_place, nonce_len, tag_len,
}

abbrev pub chunk_magic : ℕ
chunk_magic = 0xC4C7

abbrev pub chunk_flag_zstd : ℕ
chunk_flag_zstd = 0x01

abbrev pub chunk_flag_encrypted : ℕ
chunk_flag_encrypted = 0x02

-- `!CHUNK_FLAGS_KNOWN`, of a byte.
abbrev pub chunk_flags_unknown : ℕ
chunk_flags_unknown = 0xFC

abbrev pub chunk_header_len : ℕ
chunk_header_len = 19

abbrev pub max_stored_len : ℕ
max_stored_len = 4 * 1024 * 1024 + 64 * 1024

pub record ChunkRecord : Type 0 where
  pub flags : ℕ
  pub nonce : Bytes
  pub payload : Bytes
  pub tag : Option Bytes

abbrev pub has_flag : ℕ → ℕ → Bool
has_flag flags flag = bit_and flags flag != 0

abbrev pub is_encrypted : ChunkRecord → Bool
is_encrypted r = has_flag r.flags chunk_flag_encrypted

abbrev pub is_compressed : ChunkRecord → Bool
is_compressed r = has_flag r.flags chunk_flag_zstd

-- `usize::from(encrypted) * CHUNK_TAG_LEN`
abbrev pub tag_room : Bool → ℕ
tag_room b = if b then tag_len else 0

unfoldable pub total_len : ChunkRecord → ℕ
total_len r = chunk_header_len + length r.payload + tag_room (is_encrypted r)

-- The length is cut to 32 bits, as `as u32` does.
unfoldable pub write_header : ChunkRecord → Bytes → Result Bytes
write_header r =
    put_u16 chunk_magic
    then_put put_u32 (length r.payload % 2 ^ 32)
    then_put put_u8 r.flags
    then_put put_bytes r.nonce

unfoldable pub encode : ChunkRecord → Result Bytes
unfolding write_header
encode r = do
  header ← write_header r []
  let body = header ++ r.payload
  ok (elim r.tag [ some tag ↦ body ++ tag | none ↦ body ])

pub record ChunkHeader : Type 0 where
  pub flags : ℕ
  pub stored_len : ℕ
  pub nonce : Bytes

abbrev pub header_total_len : ChunkHeader → ℕ
header_total_len h =
    chunk_header_len + h.stored_len + tag_room (has_flag h.flags chunk_flag_encrypted)

-- `bytes[i]`; the code indexes only below the length that it has tested.
abbrev pub byte_at : Bytes → ℕ → ℕ
byte_at bytes i = elim (get_elem? bytes i) [ some b ↦ b | none ↦ 0 ]

unfoldable pub decode_header : Bytes → Result ChunkHeader
decode_header bytes = do
  refuse (ltb (length bytes) chunk_header_len) corrupt
  magic ← slice_u16 bytes
  refuse (magic != chunk_magic) corrupt
  stored_len ← slice_u32 (drop 2 bytes)
  refuse (ltb max_stored_len stored_len) corrupt
  let flags = byte_at bytes 6
  refuse (bit_and flags chunk_flags_unknown != 0) corrupt
  ok (record { flags = flags; stored_len = stored_len; nonce = take nonce_len (drop 7 bytes) })

unfoldable pub decode : Bytes → Result ChunkRecord
unfolding decode_header
decode bytes = do
  header ← decode_header bytes
  refuse (ltb (length bytes) (header_total_len header)) corrupt
  let after = drop chunk_header_len bytes
  ok (record {
    flags = header.flags;
    nonce = header.nonce;
    payload = take header.stored_len after;
    tag =
        if has_flag header.flags chunk_flag_encrypted
        then some (take tag_len (drop header.stored_len after))
        else none;
  })

unfoldable pub chunk_ad : Bytes → ImageKind → Bytes
chunk_ad plaintext_hash kind = plaintext_hash ++ (as_u8 kind ∷ [])

pub record ChunkOptions : Type 0 where
  pub kind : AeadKind
  pub level : ℕ
  pub compress : Bool

module _ (p : Primitives) where
  -- `content_hash`
  abbrev pub content_hash : Bytes → Bytes → Bytes
  content_hash dedup_key plaintext = p.keyed_hash dedup_key plaintext

  -- The nonce, the tag and the stored bytes of a payload, and the flag that the cipher adds.
  unfoldable pub encrypt_payload :
      AeadKind
      → Option Bytes
      → Bytes
      → ImageKind
      → NonceSeq
      → ℕ
      → Bytes
      → Result (ChunkRecord × NonceSeq)
  encrypt_payload kind none hash image_kind seq flags payload =
      ok (
        record { flags = flags; nonce = replicate nonce_len 0; payload = payload; tag = none },
        seq,
      )
  encrypt_payload kind (some key) hash image_kind seq flags payload = do
    (nonce, seq') ← next_nonce seq
    (out, tag) ← seal_in_place p kind key nonce (chunk_ad hash image_kind) payload
    ok (
      record {
        flags = bit_or flags chunk_flag_encrypted;
        nonce = nonce;
        payload = out;
        tag = some tag;
      },
      seq',
    )

  abbrev pub compress_payload : ChunkOptions → Bytes → Result (Bytes × Bool)
  compress_payload options plaintext =
      if options.compress
      then compress_if_smaller p plaintext options.level
      else ok (plaintext, false)

  unfoldable pub seal_chunk :
      ChunkOptions
      → Option Bytes
      → Bytes
      → ImageKind
      → NonceSeq
      → Bytes
      → Result ((Bytes × Bytes) × NonceSeq)
  unfolding encrypt_payload
  seal_chunk options key dedup_key image_kind seq plaintext = do
    let hash = content_hash dedup_key plaintext
    (payload, compressed) ← compress_payload options plaintext
    let flags = if compressed then chunk_flag_zstd else 0
    (r, seq') ← encrypt_payload options.kind key hash image_kind seq flags payload
    bytes ← encode r
    ok ((bytes, hash), seq')

  unfoldable pub decrypt_record :
      AeadKind → Option Bytes → ImageKind → Bytes → ChunkRecord → Result Bytes
  decrypt_record kind key image_kind expected_hash r =
      if is_encrypted r
      then (do
        key' ← ok_or key corrupt
        tag ← ok_or r.tag corrupt
        open_in_place p kind key' r.nonce (chunk_ad expected_hash image_kind) r.payload tag)
      else ok r.payload

  unfoldable pub open_chunk :
      AeadKind → Option Bytes → Bytes → ImageKind → Bytes → ℕ → Bytes → Result Bytes
  open_chunk kind key dedup_key image_kind expected_hash max_plaintext bytes = do
    r ← decode bytes
    payload ← decrypt_record kind key image_kind expected_hash r
    plaintext ← (if is_compressed r then decompress p payload max_plaintext else ok payload)
    refuse (ltb max_plaintext (length plaintext)) corrupt
    refuse (not (eq_bytes (content_hash dedup_key plaintext) expected_hash)) corrupt
    ok plaintext
