-- ===== src/Format/Manifest/Stream.antt =====
-- crates/lr-format/src/manifest.rs: entries and delta entries in a manifest stream.
use linuxreflect.Base.{ℕ, ◌+◌, ◌*◌, ◌^◌, ◌<◌, ◌≡◌, ◌∙◌, ◌++◌, length, arith, length-append}
use mathlib.Core.List.{append_assoc}
use linuxreflect.Base.Result.{ok, err}
use linuxreflect.Format.Wire.{
  Bytes, to_le_bytes, Write, put_u64, put_bytes, ◌then_put◌, Read, ◌>>=◌, pure, lift, read_bytes,
  u64,
}
use linuxreflect.Format.Wire.RoundTrip.{>>=_ok, read_int_lem, read_bytes_lem, length-to_le_bytes}
use linuxreflect.Format.Manifest.Entry.{
  BlockEntry, entry_len, encode_entry, decode_entry, IsValid, entry_bytes, encode_entry_lem,
  decode_entry_lem,
}

unfoldable pub write_entry : BlockEntry → Write
write_entry e out = elim (encode_entry e) [ ok bytes ↦ put_bytes bytes out | err x ↦ err x ]

unfoldable pub read_entry : Read BlockEntry
read_entry = do bytes ← read_bytes entry_len; lift (decode_entry bytes)

pub record DeltaEntry : Type 0 where
  pub chunk_no : ℕ
  pub entry : BlockEntry

unfoldable pub write_delta : DeltaEntry → Write
write_delta d = put_u64 d.chunk_no then_put write_entry d.entry

unfoldable pub read_delta : Read DeltaEntry
read_delta = do
  chunk_no ← u64
  entry ← read_entry
  pure (record { chunk_no = chunk_no; entry = entry })

length-entry_bytes : (e : BlockEntry) → IsValid e → length (entry_bytes e) ≡ 46
length-entry_bytes e v =
    let x = e.member + e.state * 2 ^ 14 in
    omega (
      arith,
      v.hash_length,
      length-append e.hash
          (to_le_bytes 2 x ++ (to_le_bytes 8 e.offset ++ to_le_bytes 4 e.stored_len)),
      length-append (to_le_bytes 2 x) (to_le_bytes 8 e.offset ++ to_le_bytes 4 e.stored_len),
      length-append (to_le_bytes 8 e.offset) (to_le_bytes 4 e.stored_len),
      length-to_le_bytes 2 x,
      length-to_le_bytes 8 e.offset,
      length-to_le_bytes 4 e.stored_len,
    )

write_entry_lem :
    (e : BlockEntry) (out : Bytes) → IsValid e → write_entry e out ≡ ok (out ++ entry_bytes e)
unfolding write_entry
write_entry_lem e out v = rw (encode_entry_lem e v, write_entry)

pub read_entry_lem :
    (e : BlockEntry) (rest : Bytes) → IsValid e → read_entry (entry_bytes e ++ rest) ≡ ok (e, rest)
unfolding read_entry
read_entry_lem e rest v =
    >>=_ok (read_bytes entry_len) _ _
      (read_bytes_lem 46 (entry_bytes e) rest (length-entry_bytes e v))
    ∙ rw (decode_entry_lem e v)

abbrev pub delta_bytes : DeltaEntry → Bytes
delta_bytes d = to_le_bytes 8 d.chunk_no ++ entry_bytes d.entry

pub read_delta_lem :
    (d : DeltaEntry) (rest : Bytes)
    → d.chunk_no < 2 ^ 64
    → IsValid d.entry
    → read_delta (delta_bytes d ++ rest) ≡ ok (d, rest)
unfolding read_delta
read_delta_lem d rest h v =
    rw (append_assoc (to_le_bytes 8 d.chunk_no) (entry_bytes d.entry) rest) (
      >>=_ok u64 _ _ (read_int_lem 8 d.chunk_no (entry_bytes d.entry ++ rest) h)
      ∙ >>=_ok read_entry _ _ (read_entry_lem d.entry rest v))

-- A delta entry with a known state, a member index of 14 bits, a hash of 32 bytes and numbers of
-- their widths is written in 54 bytes, and `read_delta` gives it back, whatever follows.
pub read-write_delta :
    (d : DeltaEntry) (out rest : Bytes)
    → d.chunk_no < 2 ^ 64
    → IsValid d.entry
    → (field : Bytes) × (write_delta d out ≡ ok (out ++ field))
      × (length field ≡ 54)
      × (read_delta (field ++ rest) ≡ ok (d, rest))
unfolding write_delta
read-write_delta d out rest h v =
    let number = to_le_bytes 8 d.chunk_no in
    (
      delta_bytes d,
      write_entry_lem d.entry (out ++ number) v
          ∙ rw (append_assoc out number (entry_bytes d.entry)),
      omega (
        arith,
        length-append number (entry_bytes d.entry),
        length-to_le_bytes 8 d.chunk_no,
        length-entry_bytes d.entry v,
      ),
      read_delta_lem d rest h v,
    )
