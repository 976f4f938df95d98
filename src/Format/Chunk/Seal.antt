-- ===== src/Format/Chunk/Seal.antt =====
-- A chunk that is sealed is opened again.
use linuxreflect.Base.{
  ℕ, ◌+◌, ◌≤◌, ◌<◌, ◌≡◌, refl, Bool, true, false, bit_and, Option, none, some, ◌++◌, length, arith,
  ltb, replicate, if◌then◌else◌, eq_bytes_refl, Bool-cases, inl, inr,
}
use linuxreflect.Base.Result.{Result, ok, ◌>>=◌}
use linuxreflect.Core.ImageKind.{ImageKind}
use linuxreflect.Format.Wire.{Bytes}
use linuxreflect.Format.Compress.{compress, compress_if_smaller, decompress, decompress-compress}
use linuxreflect.Crypto.Nonce.{NonceSeq, next_nonce_lem, max_counter}
use linuxreflect.Crypto.Aead.{AeadKind, Primitives, IsSound, seal_in_place_lem}
use linuxreflect.Format.Chunk.{
  ChunkRecord, ChunkOptions, decode, is_compressed, chunk_flag_zstd, max_stored_len, has_flag,
  chunk_flag_encrypted, chunk_ad, content_hash, encrypt_payload, compress_payload, seal_chunk,
  decrypt_record, open_chunk,
}
use linuxreflect.Format.Chunk.Record.{IsValid, decode-encode}

abbrev plain_record : ℕ → Bytes → ChunkRecord
plain_record flags payload = record {
  flags = flags;
  nonce = replicate 12 0;
  payload = payload;
  tag = none;
}

plain-IsValid :
    (flags : ℕ) (payload : Bytes)
    → length payload ≤ max_stored_len
    → flags < 256
    → bit_and flags 0xFC ≡ 0
    → has_flag flags chunk_flag_encrypted ≡ false
    → IsValid (plain_record flags payload)
plain-IsValid flags payload h b k e = record {
  flags_byte = b;
  flags_known = k;
  nonce_length = refl;
  payload_length = h;
  tag_fits = rw e tt;
}

abbrev cipher_record : ℕ → Bytes → Bytes → Bytes → ChunkRecord
cipher_record flags nonce payload tag = record {
  flags = flags;
  nonce = nonce;
  payload = payload;
  tag = some tag;
}

cipher-IsValid :
    (flags : ℕ) (nonce payload tag : Bytes)
    → length nonce ≡ 12
    → length payload ≤ max_stored_len
    → length tag ≡ 16
    → flags < 256
    → bit_and flags 0xFC ≡ 0
    → has_flag flags chunk_flag_encrypted ≡ true
    → IsValid (cipher_record flags nonce payload tag)
cipher-IsValid flags nonce payload tag l h t b k e = record {
  flags_byte = b;
  flags_known = k;
  nonce_length = l;
  payload_length = h;
  tag_fits = rw e t;
}

module _ (p : Primitives) (sound : IsSound p) where
  -- What `open_chunk` makes of a payload that is or is not compressed.
  abbrev expand : Bool → Bytes → ℕ → Result Bytes
  expand compressed payload limit = if compressed then decompress p payload limit else ok payload

  compress-ok :
      (bytes : Bytes) (level : ℕ)
      → 1 ≤ level
      → level ≤ 22
      → (out : Bytes) × (compress p bytes level ≡ ok out)
  unfolding compress
  compress-ok bytes level h k =
      let (out, e) = sound.zstd_compresses bytes level h k in (out, ground arith)

  compress_if_smaller_lem :
      (bytes : Bytes) (level limit : ℕ)
      → 1 ≤ level
      → level ≤ 22
      → length bytes ≤ limit
      → (payload : Bytes) × (compressed : Bool) × (compress_if_smaller p bytes level
          ≡ ok (payload, compressed))
        × (length payload ≤ length bytes)
        × (expand compressed payload limit ≡ ok bytes)
  unfolding compress_if_smaller
  compress_if_smaller_lem bytes level limit h k fits =
      let (out, e) = compress-ok bytes level h k in
      elim (Bool-cases (ltb (length out) (length bytes))) [
        | inl less ↦ (
          out,
          true,
          ground arith,
          ground arith,
          decompress-compress p sound bytes out level limit e fits,
        )
        | inr more ↦ (bytes, false, ground arith, omega arith, refl)
      ]

  compress_payload_lem :
      (options : ChunkOptions) (plaintext : Bytes) (limit : ℕ)
      → 1 ≤ options.level
      → options.level ≤ 22
      → length plaintext ≤ limit
      → (payload : Bytes) × (compressed : Bool) × (compress_payload p options plaintext
          ≡ ok (payload, compressed))
        × (length payload ≤ length plaintext)
        × (expand compressed payload limit ≡ ok plaintext)
  compress_payload_lem options plaintext limit h k fits = elim (Bool-cases options.compress) [
    | inl yes_compress ↦
        (let (payload, compressed, e, less, back) =
            compress_if_smaller_lem plaintext options.level limit h k fits in
          (payload, compressed, rw (yes_compress, compress_payload) e, less, back))
    | inr plain ↦ (plaintext, false, rw (plain, compress_payload), omega arith, refl)
  ]

  abbrev flags_of : Bool → ℕ
  flags_of compressed = if compressed then chunk_flag_zstd else 0

  encrypt_payload_lem :
      (kind : AeadKind) (key : Option Bytes) (hash : Bytes) (image_kind : ImageKind)
      (seq : NonceSeq) (compressed : Bool) (payload : Bytes)
      → seq.counter ≤ max_counter
      → length payload ≤ max_stored_len
      → (r : ChunkRecord) × (seq' : NonceSeq) × (encrypt_payload p kind key hash image_kind seq
            (flags_of compressed)
            payload
          ≡ ok (r, seq'))
        × IsValid r
        × (is_compressed r ≡ compressed)
        × (decrypt_record p kind key image_kind hash r ≡ ok payload)
  unfolding encrypt_payload decrypt_record
  encrypt_payload_lem kind none hash image_kind seq true payload c h = (
    plain_record 1 payload,
    seq,
    refl,
    plain-IsValid 1 payload h (omega arith) refl refl,
    refl,
    refl,
  )
  encrypt_payload_lem kind none hash image_kind seq false payload c h = (
    plain_record 0 payload,
    seq,
    refl,
    plain-IsValid 0 payload h (omega arith) refl refl,
    refl,
    refl,
  )
  encrypt_payload_lem kind (some key) hash image_kind seq true payload c h =
      let (nonce, e, l) = next_nonce_lem seq c in
      let (out, tag, sealed, opened, lo, lt) =
        seal_in_place_lem p sound kind key nonce (chunk_ad hash image_kind) payload (omega arith) in
      (
        cipher_record 3 nonce out tag,
        record { counter = seq.counter + 1 },
        rw (e, ◌>>=◌, sealed),
        cipher-IsValid 3 nonce out tag l (omega arith) lt (omega arith) refl refl,
        refl,
        opened,
      )
  encrypt_payload_lem kind (some key) hash image_kind seq false payload c h =
      let (nonce, e, l) = next_nonce_lem seq c in
      let (out, tag, sealed, opened, lo, lt) =
        seal_in_place_lem p sound kind key nonce (chunk_ad hash image_kind) payload (omega arith) in
      (
        cipher_record 2 nonce out tag,
        record { counter = seq.counter + 1 },
        rw (e, ◌>>=◌, sealed),
        cipher-IsValid 2 nonce out tag l (omega arith) lt (omega arith) refl refl,
        refl,
        opened,
      )

  -- `open_chunk` from the results of its steps.
  open_chunk_lem :
      (kind : AeadKind) (key : Option Bytes) (dedup_key : Bytes) (image_kind : ImageKind)
      (limit : ℕ) (bytes payload plaintext : Bytes) (r : ChunkRecord) (compressed : Bool)
      → decode bytes ≡ ok r
      → decrypt_record p kind key image_kind (content_hash p dedup_key plaintext) r ≡ ok payload
      → is_compressed r ≡ compressed
      → expand compressed payload limit ≡ ok plaintext
      → ltb limit (length plaintext) ≡ false
      → open_chunk p kind key dedup_key image_kind (content_hash p dedup_key plaintext) limit bytes
        ≡ ok plaintext
  unfolding open_chunk
  open_chunk_lem kind key dedup_key image_kind limit bytes payload plaintext r compressed decoded
        opened flag back small =
      rw
        (
          decoded,
          ◌>>=◌,
          opened,
          flag,
          back,
          small,
          eq_bytes_refl (content_hash p dedup_key plaintext),
        )
        refl

  -- Whatever the options, with or without a key, sealing a chunk that fits succeeds at the zstd
  -- levels 1 to 22 while the nonce counter lasts, and `open_chunk` with the same keys, kind and the
  -- returned hash gives the plaintext back, also where more bytes follow the record.
  pub open-seal_chunk :
      (options : ChunkOptions) (key : Option Bytes) (dedup_key : Bytes) (image_kind : ImageKind)
      (seq : NonceSeq) (plaintext more : Bytes) (limit : ℕ)
      → 1 ≤ options.level
      → options.level ≤ 22
      → seq.counter ≤ max_counter
      → length plaintext ≤ max_stored_len
      → length plaintext ≤ limit
      → (bytes hash : Bytes) × (seq' : NonceSeq) × (seal_chunk p options key dedup_key image_kind
            seq plaintext
          ≡ ok ((bytes, hash), seq'))
        × (open_chunk p options.kind key dedup_key image_kind hash limit (bytes ++ more)
            ≡ ok plaintext)
  open-seal_chunk options key dedup_key image_kind seq plaintext more limit lo hi c small fits =
      let hash = content_hash p dedup_key plaintext in
      let (payload, compressed, e, less, back) =
        compress_payload_lem options plaintext limit lo hi fits in
      let (r, seq', sealed, valid, flag, opened) =
        encrypt_payload_lem options.kind key hash image_kind seq compressed payload c
          (omega arith) in
      let (bytes, encoded, l, decoded) = decode-encode r more valid in
      (
        bytes,
        hash,
        seq',
        unfold seal_chunk in rw (e, ◌>>=◌, sealed, encoded),
        open_chunk_lem options.kind key dedup_key image_kind limit (bytes ++ more) payload plaintext
            r compressed decoded opened flag back (ground arith),
      )
