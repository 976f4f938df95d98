-- ===== src/Crypto/Page/RoundTrip.antt =====
-- A sealed page is opened again.
use linuxreflect.Base.{
  ℕ, ◌+◌, ◌^◌, ◌%◌, ◌≤◌, ◌≡◌, refl, ◌∙◌, false, ◌++◌, length, take, drop, ltb, ◌!=◌, arith,
  length-append, take-append_of, drop-append_of,
}
use mathlib.Core.List.{append_assoc}
use linuxreflect.Base.Result.{ok, ◌>>=◌}
use linuxreflect.Format.Wire.{Bytes, to_le_bytes, slice}
use linuxreflect.Format.Wire.RoundTrip.{slice_lem, length-to_le_bytes}
use linuxreflect.Crypto.Nonce.{NonceSeq, next_nonce_lem, max_counter}
use linuxreflect.Crypto.Aead.{AeadKind, Primitives, IsSound, open_in_place, seal_in_place_lem}
use linuxreflect.Crypto.Page.{
  StreamId, manifest, as_u8, from_u8, page_ad, seal_page, open_page, page_magic, page_header_len,
  page_overhead, max_page_len,
}

-- The fields of a page record.
abbrev pub record_bytes : Bytes → Bytes → Bytes → Bytes
record_bytes nonce buf tag =
    to_le_bytes 2 page_magic ++ (to_le_bytes 4 (length buf) ++ (nonce ++ (buf ++ tag)))

module _ (nonce buf tag : Bytes) (l : length nonce ≡ 12) (t : length tag ≡ 16)
    (b : length buf ≤ max_page_len) where
  pub length-record_bytes : length (record_bytes nonce buf tag) ≡ page_overhead + length buf
  length-record_bytes = omega (
    arith,
    length-append (to_le_bytes 2 page_magic)
        (to_le_bytes 4 (length buf) ++ (nonce ++ (buf ++ tag))),
    length-append (to_le_bytes 4 (length buf)) (nonce ++ (buf ++ tag)),
    length-append nonce (buf ++ tag),
    length-append buf tag,
    length-to_le_bytes 2 page_magic,
    length-to_le_bytes 4 (length buf),
  )

  after_header : drop 6 (record_bytes nonce buf tag) ≡ nonce ++ (buf ++ tag)
  after_header = unfold to_le_bytes in refl

  after_nonce : drop 18 (record_bytes nonce buf tag) ≡ buf ++ tag
  after_nonce = unfold to_le_bytes in drop-append_of 12 nonce (buf ++ tag) l

  nonce_field : take 12 (drop 6 (record_bytes nonce buf tag)) ≡ nonce
  nonce_field = rw after_header (take-append_of 12 nonce (buf ++ tag) l)

  length_field : slice 4 (drop 2 (record_bytes nonce buf tag)) ≡ ok (length buf)
  length_field =
      let after_magic : drop 2 (record_bytes nonce buf tag)
          ≡ to_le_bytes 4 (length buf) ++ (nonce ++ (buf ++ tag)) =
        unfold to_le_bytes in refl in
      rw after_magic (slice_lem 4 (length buf) _ (omega arith))

  buf_field : take (length buf) (drop 18 (record_bytes nonce buf tag)) ≡ buf
  buf_field = rw after_nonce (take-append_of (length buf) buf tag refl)

  tag_field : drop (page_header_len + length buf) (record_bytes nonce buf tag) ≡ tag
  tag_field =
      let front = to_le_bytes 2 page_magic ++ (to_le_bytes 4 (length buf) ++ (nonce ++ buf)) in
      let whole : record_bytes nonce buf tag ≡ front ++ tag = simp (append_assoc) in
      let front_length : length front ≡ page_header_len + length buf = omega (
        arith,
        length-append (to_le_bytes 2 page_magic) (to_le_bytes 4 (length buf) ++ (nonce ++ buf)),
        length-append (to_le_bytes 4 (length buf)) (nonce ++ buf),
        length-append nonce buf,
        length-to_le_bytes 2 page_magic,
        length-to_le_bytes 4 (length buf),
      ) in
      rw whole (drop-append_of (page_header_len + length buf) front tag front_length)

  -- A record whose fields are in order is handed to the cipher.
  pub open_page-record_bytes :
      (p : Primitives) (kind : AeadKind) (key : Bytes) (stream : StreamId) (page_no : ℕ)
      → open_page p kind key stream page_no (record_bytes nonce buf tag)
        ≡ open_in_place p kind key nonce (page_ad stream page_no) buf tag
  unfolding open_page
  open_page-record_bytes p kind key stream page_no =
      let total = length-record_bytes in
      let bytes = record_bytes nonce buf tag in
      let enough : ltb (length bytes) page_overhead ≡ false = ground (arith, total) in
      let magic_field : slice 2 bytes ≡ ok page_magic = slice_lem 2 page_magic _ (omega arith) in
      let fits : ltb max_page_len (length buf) ≡ false = ground arith in
      let exact : (length bytes != page_overhead + length buf) ≡ false = ground (arith, total) in
      rw (enough, magic_field, ◌>>=◌, length_field, fits, exact, nonce_field, buf_field, tag_field)
        refl

-- While the nonce counter lasts, a page that fits is sealed to a record of its length and the overhead,
-- appended to what is there, and opened again with the same key, stream and page number.
pub open-seal_page :
    (p : Primitives)
    → IsSound p
    → (kind : AeadKind) (key : Bytes) (stream : StreamId) (page_no : ℕ) (plaintext : Bytes)
      (seq : NonceSeq) (out : Bytes)
    → length plaintext ≤ max_page_len
    → seq.counter ≤ max_counter
    → (page : Bytes) × (seal_page p kind key stream page_no plaintext seq out
        ≡ ok (out ++ page, record { counter = seq.counter + 1 }))
      × (length page ≡ page_overhead + length plaintext)
      × (open_page p kind key stream page_no page ≡ ok plaintext)
unfolding seal_page
open-seal_page p sound kind key stream page_no plaintext seq out fits counter =
    let (nonce, drawn, l) = next_nonce_lem seq counter in
    let ad = page_ad stream page_no in
    let (buf, tag, sealed, opened, lb, lt) =
      seal_in_place_lem p sound kind key nonce ad plaintext (omega arith) in
    let small : ltb max_page_len (length plaintext) ≡ false = ground arith in
    let cut : length buf % 2 ^ 32 ≡ length buf = omega arith in
    (
      record_bytes nonce buf tag,
      rw (small, drawn, sealed, cut, ◌>>=◌) (simp (append_assoc)),
      omega (arith, length-record_bytes nonce buf tag l lt (omega arith), lb),
      open_page-record_bytes nonce buf tag l lt (omega arith) p kind key stream page_no ∙ opened,
    )

pub from_u8-as_u8 : (stream : StreamId) → from_u8 (as_u8 stream) ≡ ok stream
unfolding from_u8 as_u8
from_u8-as_u8 manifest = refl
from_u8-as_u8 _ = refl
