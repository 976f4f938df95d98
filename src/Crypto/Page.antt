-- ===== src/Crypto/Page.antt =====
-- crates/lr-crypto/src/page.rs: one page of the metadata of an image, sealed and opened.
pub mod RoundTrip
use linuxreflect.Base.{
  ℕ, ◌+◌, ◌*◌, ◌^◌, ◌%◌, List, [], ◌∷◌, ◌++◌, length, take, drop, ltb, ◌==◌, ◌!=◌, if◌then◌else◌,
}
use linuxreflect.Base.Result.{Result, ok, err, corrupt, unsupported, refuse, ◌>>=◌, ◌>>◌}
use linuxreflect.Format.Wire.{Bytes, to_le_bytes, slice_u16, slice_u32}
use linuxreflect.Crypto.Nonce.{NonceSeq, next_nonce}
use linuxreflect.Crypto.Aead.{
  AeadKind, Primitives, seal_in_place, open_in_place, nonce_len, tag_len,
}

abbrev pub page_magic : ℕ
page_magic = 0x9A6E

abbrev pub page_header_len : ℕ
page_header_len = 2 + 4 + nonce_len

abbrev pub page_overhead : ℕ
page_overhead = page_header_len + tag_len

abbrev pub max_page_len : ℕ
max_page_len = 4 * 1024 * 1024

pub data StreamId : Type 0 where
  manifest hash_index extras page_table : StreamId

unfoldable pub as_u8 : StreamId → ℕ
as_u8 manifest = 1
as_u8 hash_index = 2
as_u8 extras = 3
as_u8 page_table = 4

unfoldable pub from_u8 : ℕ → Result StreamId
from_u8 value =
    if value == 1
    then ok manifest
    else if value == 2
    then ok hash_index
    else if value == 3
    then ok extras
    else if value == 4
    then ok page_table
    else err corrupt

unfoldable pub page_ad : StreamId → ℕ → Bytes
page_ad stream page_no = as_u8 stream ∷ to_le_bytes 8 page_no

module _ (p : Primitives) where
  -- The record is appended to `out`.
  unfoldable pub seal_page :
      AeadKind → Bytes → StreamId → ℕ → Bytes → NonceSeq → Bytes → Result (Bytes × NonceSeq)
  seal_page kind meta_key stream page_no plaintext nonce_seq out = do
    refuse (ltb max_page_len (length plaintext)) unsupported
    (nonce, nonce_seq') ← next_nonce nonce_seq
    (buf, tag) ← seal_in_place p kind meta_key nonce (page_ad stream page_no) plaintext
    let header = (to_le_bytes 2 page_magic ++ to_le_bytes 4 (length buf % 2 ^ 32)) ++ nonce
    ok (((out ++ header) ++ buf) ++ tag, nonce_seq')

  unfoldable pub open_page : AeadKind → Bytes → StreamId → ℕ → Bytes → Result Bytes
  open_page kind meta_key stream page_no bytes = do
    refuse (ltb (length bytes) page_overhead) corrupt
    magic ← slice_u16 bytes
    refuse (magic != page_magic) corrupt
    len ← slice_u32 (drop 2 bytes)
    refuse (ltb max_page_len len) corrupt
    refuse (length bytes != page_overhead + len) corrupt
    let nonce = take nonce_len (drop (2 + 4) bytes)
    let tag = drop (page_header_len + len) bytes
    let buf = take len (drop page_header_len bytes)
    open_in_place p kind meta_key nonce (page_ad stream page_no) buf tag
