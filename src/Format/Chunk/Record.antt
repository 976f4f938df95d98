-- ===== src/Format/Chunk/Record.antt =====
-- A record that is encoded is decoded again, and nothing else is decoded to it.
use linuxreflect.Base.{
  ◌+◌, ◌%◌, ◌^◌, ◌≤◌, ◌<◌, ◌≡◌, refl, ap, Bool, true, false, bit_and, Option, none, some, [], ◌∷◌,
  ◌++◌, length, take, drop, arith, ltb, length-append, take-append_of, drop-append_of,
  if◌then◌else◌,
}
use mathlib.Core.List.{append_assoc, append-nil}
use linuxreflect.Base.Result.{ok, ◌>>=◌}
use linuxreflect.Format.Wire.{Bytes, to_le_bytes, slice}
use linuxreflect.Format.Wire.RoundTrip.{slice_lem}
use linuxreflect.Format.Chunk.{
  ChunkRecord, encode, decode_header, decode, is_encrypted, byte_at, chunk_flags_unknown,
  chunk_magic, chunk_header_len, max_stored_len, total_len, tag_room,
}

-- The tag is there exactly when the flag says so.
abbrev pub TagFits : Bool → Option Bytes → Type 0
TagFits true (some tag) = length tag ≡ 16
TagFits true none = ⊥
TagFits false (some tag) = ⊥
TagFits false none = Unit

pub record IsValid (r : ChunkRecord) : Type 0 where
  pub flags_byte : r.flags < 256
  pub flags_known : bit_and r.flags chunk_flags_unknown ≡ 0
  pub nonce_length : length r.nonce ≡ 12
  pub payload_length : length r.payload ≤ max_stored_len
  pub tag_fits : TagFits (is_encrypted r) r.tag

abbrev pub tag_bytes : Option Bytes → Bytes
tag_bytes none = []
tag_bytes (some tag) = tag

abbrev pub header_bytes : ChunkRecord → Bytes
header_bytes r =
    to_le_bytes 2 chunk_magic ++ (to_le_bytes 4 (length r.payload) ++ ((r.flags ∷ []) ++ r.nonce))

pub encode_lem :
    (r : ChunkRecord) → IsValid r → encode r ≡ ok (header_bytes r ++ (r.payload ++ tag_bytes r.tag))
encode_lem r v = go r.tag
  where
    fits : length r.payload % 2 ^ 32 ≡ length r.payload
    fits = omega arith

    go :
        (tag : Option Bytes)
        → encode (record r { tag = tag }) ≡ ok (header_bytes r ++ (r.payload ++ tag_bytes tag))
    go none = unfold encode in simp (fits, append_assoc, append-nil)
    go (some t) = unfold encode in simp (fits, append_assoc)

tag_read :
    (b : Bool) (tag : Option Bytes) (more : Bytes)
    → TagFits b tag
    → ((if b then some (take 16 (tag_bytes tag ++ more)) else none) ≡ tag)
      × (length (tag_bytes tag) ≡ tag_room b)
tag_read true (some t) more h = (ap some (take-append_of 16 t more h), h)
tag_read true none more h = absurd h
tag_read false (some t) more h = absurd h
tag_read false none more h = (refl, refl)

module _ (r : ChunkRecord) (v : IsValid r) (rest : Bytes) where
  abbrev bytes : Bytes
  bytes = header_bytes r ++ rest

  magic_field : slice 2 bytes ≡ ok chunk_magic
  unfolding to_le_bytes
  magic_field = slice_lem 2 chunk_magic _ (omega arith)

  after_magic : drop 2 bytes ≡ to_le_bytes 4 (length r.payload) ++ ((r.flags ∷ r.nonce) ++ rest)
  after_magic = unfold to_le_bytes in refl

  length_field : slice 4 (drop 2 bytes) ≡ ok (length r.payload)
  length_field = rw after_magic (slice_lem 4 (length r.payload) _ (omega arith))

  flags_field : byte_at bytes 6 ≡ r.flags
  flags_field = unfold to_le_bytes in refl

  nonce_field : take 12 (drop 7 bytes) ≡ r.nonce
  nonce_field = unfold to_le_bytes in take-append_of 12 r.nonce rest v.nonce_length

  header_enough : ltb (length bytes) chunk_header_len ≡ false
  header_enough = unfold to_le_bytes in ground (arith, length-append r.nonce rest)

  decode_header_lem :
      decode_header bytes
      ≡ ok (record { flags = r.flags; stored_len = length r.payload; nonce = r.nonce })
  unfolding decode_header
  decode_header_lem =
      ground (arith, header_enough, magic_field, length_field, flags_field, nonce_field)

  after_header : drop chunk_header_len bytes ≡ rest
  after_header = unfold to_le_bytes in drop-append_of 12 r.nonce rest v.nonce_length

  length_bytes : length bytes ≡ chunk_header_len + length rest
  length_bytes = unfold to_le_bytes in omega (arith, length-append r.nonce rest)

module _ (r : ChunkRecord) (v : IsValid r) (more : Bytes) where
  abbrev stored : Bytes
  stored = r.payload ++ (tag_bytes r.tag ++ more)

  stored_payload : take (length r.payload) stored ≡ r.payload
  stored_payload = take-append_of (length r.payload) r.payload _ refl

  stored_tag : drop (length r.payload) stored ≡ tag_bytes r.tag ++ more
  stored_tag = drop-append_of (length r.payload) r.payload _ refl

  record_enough :
      ltb
        (length (header_bytes r ++ stored))
        (chunk_header_len + length r.payload + tag_room (is_encrypted r))
      ≡ false
  record_enough = ground (
    arith,
    length_bytes r v stored,
    length-append r.payload (tag_bytes r.tag ++ more),
    length-append (tag_bytes r.tag) more,
    (tag_read (is_encrypted r) r.tag more v.tag_fits).1,
  )

  pub decode_lem : decode (header_bytes r ++ stored) ≡ ok r
  unfolding decode
  decode_lem =
      rw
        (
          decode_header_lem r v stored,
          ◌>>=◌,
          record_enough,
          after_header r v stored,
          stored_payload,
          stored_tag,
        )
        (ap (λ (t : Option Bytes). ok (record r { tag = t }))
          (tag_read (is_encrypted r) r.tag more v.tag_fits).0)

-- A valid record is encoded in `total_len` bytes, and `decode` gives it back from the front of any
-- bytes that start with them.
pub decode-encode :
    (r : ChunkRecord) (more : Bytes)
    → IsValid r
    → (bytes : Bytes) × (encode r ≡ ok bytes)
      × (length bytes ≡ total_len r)
      × (decode (bytes ++ more) ≡ ok r)
decode-encode r more v = (
  header_bytes r ++ (r.payload ++ tag_bytes r.tag),
  encode_lem r v,
  unfold total_len in
      omega (
        arith,
        length_bytes r v (r.payload ++ tag_bytes r.tag),
        length-append r.payload (tag_bytes r.tag),
        (tag_read (is_encrypted r) r.tag [] v.tag_fits).1,
      ),
  rw
      (
        append_assoc (header_bytes r) (r.payload ++ tag_bytes r.tag) more,
        append_assoc r.payload (tag_bytes r.tag) more,
      )
      (decode_lem r v more),
)
