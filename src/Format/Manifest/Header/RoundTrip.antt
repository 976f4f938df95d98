-- ===== src/Format/Manifest/Header/RoundTrip.antt =====
-- A block manifest header that is written is read back.
use linuxreflect.Base.{
  ℕ, ◌+◌, ◌*◌, ◌^◌, ◌<◌, ◌≡◌, refl, ◌∙◌, ap, Bool, true, false, [], ◌∷◌, ◌++◌, length, arith,
  lt→ltb,
}
use mathlib.Core.List.{append_assoc, append-nil}
use linuxreflect.Base.Result.{ok}
use linuxreflect.Format.Wire.{
  Bytes, to_le_bytes, Write, put_u8, put_u16, put_u32, put_u64, put_u16_prefixed, ◌then_put◌, lift,
  u8, u16, u32, u64, u16_prefixed, read_bytes, read_int, from_le_bytes,
}
use linuxreflect.Format.Wire.RoundTrip.{>>=_ok, read_int_lem, read_bytes_lem}
use linuxreflect.Format.Manifest.Header.{
  BlockManifestHeader, manifest_ver, section_of, section_kind, write_manifest_header, read_string,
  read_manifest_header,
}

-- The strings are valid and short, and the numbers have their widths.
pub record IsValid (is_utf8 : Bytes → Bool) (h : BlockManifestHeader) : Type 0 where
  pub chunk_size_fits : h.chunk_size < 2 ^ 32
  pub chunk_count_fits : h.chunk_count < 2 ^ 64
  pub entry_count_fits : h.entry_count < 2 ^ 64
  pub extent_count_fits : h.used_extent_count < 2 ^ 64
  pub used_bytes_fits : h.used_bytes < 2 ^ 64
  pub fs_type_valid : (length h.fs_type < 2 ^ 16) × (is_utf8 h.fs_type ≡ true)
  pub fs_uuid_valid : (length h.fs_uuid < 2 ^ 16) × (is_utf8 h.fs_uuid ≡ true)
  pub label_valid : (length h.label < 2 ^ 16) × (is_utf8 h.label ≡ true)

abbrev pub string_bytes : Bytes → Bytes
string_bytes bytes = to_le_bytes 2 (length bytes) ++ bytes

put_string :
    (bytes out : Bytes)
    → length bytes < 2 ^ 16
    → put_u16_prefixed bytes out ≡ ok (out ++ string_bytes bytes)
unfolding put_u16_prefixed
put_string bytes out h = rw (lt→ltb _ _ h) (rw (append_assoc out))

-- The bytes of a header, with `rest` behind them.
abbrev pub strings_of : BlockManifestHeader → Bytes → Bytes
strings_of h rest =
    string_bytes h.fs_type
    ++ (string_bytes h.fs_uuid ++ (string_bytes h.label ++ (to_le_bytes 2 0 ++ rest)))

abbrev pub numbers_of : BlockManifestHeader → Bytes → Bytes
numbers_of h rest =
    to_le_bytes 4 h.chunk_size
    ++ (to_le_bytes 8 h.chunk_count
        ++ (to_le_bytes 8 h.entry_count
            ++ (to_le_bytes 8 h.used_extent_count ++ (to_le_bytes 8 h.used_bytes ++ rest))))

abbrev pub header_bytes : BlockManifestHeader → Bool → Bytes → Bytes
header_bytes h delta rest =
    to_le_bytes 2 manifest_ver ++ (section_of delta ∷ 0 ∷ numbers_of h (strings_of h rest))

header_bytes-append :
    (h : BlockManifestHeader) (delta : Bool) (rest : Bytes)
    → header_bytes h delta [] ++ rest ≡ header_bytes h delta rest
header_bytes-append h delta rest = simp (append_assoc)

then_put_ok :
    (first second : Write) (out after : Bytes)
    → first out ≡ ok after
    → (first then_put second) out ≡ second after
then_put_ok first second out after e = rw (e, ◌then_put◌)

put_strings :
    (first : Write) (h : BlockManifestHeader) (out o : Bytes)
    → first out ≡ ok o
    → length h.fs_type < 2 ^ 16
    → length h.fs_uuid < 2 ^ 16
    → length h.label < 2 ^ 16
    → (first
          then_put put_u16_prefixed h.fs_type
          then_put put_u16_prefixed h.fs_uuid
          then_put put_u16_prefixed h.label
          then_put put_u16 0)
        out
      ≡ ok (o ++ strings_of h [])
put_strings first h out o e p q r =
    let a = put_u16_prefixed h.fs_type in
    let b = put_u16_prefixed h.fs_uuid in
    let c = put_u16_prefixed h.label in
    let o1 = o ++ string_bytes h.fs_type in
    let o2 = o1 ++ string_bytes h.fs_uuid in
    let one : (first then_put a) out ≡ ok o1 =
      then_put_ok first a out o e ∙ put_string h.fs_type o p in
    let two : (first then_put a then_put b) out ≡ ok o2 =
      then_put_ok (first then_put a) b out o1 one ∙ put_string h.fs_uuid o1 q in
    let three : (first then_put a then_put b then_put c) out ≡ ok (o2 ++ string_bytes h.label) =
      then_put_ok (first then_put a then_put b) c out o2 two ∙ put_string h.label o2 r in
    then_put_ok (first then_put a then_put b then_put c) (put_u16 0) out
      (o2 ++ string_bytes h.label) three
    ∙ simp (append_assoc, append-nil)

u8_lem : (v : ℕ) (rest : Bytes) → u8 (v ∷ rest) ≡ ok (v, rest)
unfolding read_int from_le_bytes
u8_lem v rest =
    >>=_ok (read_bytes 1) _ _ (read_bytes_lem 1 (v ∷ []) rest refl)
    ∙ ap (λ n. ok (n, rest)) (let same : v + 256 * 0 ≡ v = omega arith in same)

section_kind-section_of : (delta : Bool) → section_kind (section_of delta) ≡ ok delta
section_kind-section_of true = refl
section_kind-section_of false = refl

module _ (is_utf8 : Bytes → Bool) where
  read_string_lem :
      (bytes rest : Bytes)
      → length bytes < 2 ^ 16
      → is_utf8 bytes ≡ true
      → read_string is_utf8 (string_bytes bytes ++ rest) ≡ ok (bytes, rest)
  unfolding read_string u16_prefixed
  read_string_lem bytes rest h v =
      let string_field : u16_prefixed (string_bytes bytes ++ rest) ≡ ok (bytes, rest) =
        ap u16_prefixed (append_assoc (to_le_bytes 2 (length bytes)) bytes rest)
        ∙ >>=_ok u16 _ _ (read_int_lem 2 (length bytes) (bytes ++ rest) h)
        ∙ read_bytes_lem (length bytes) bytes rest refl in
      >>=_ok u16_prefixed _ _ string_field ∙ rw v

  write_lem :
      (h : BlockManifestHeader) (delta : Bool) (out : Bytes)
      → IsValid is_utf8 h
      → write_manifest_header h delta out ≡ ok (out ++ header_bytes h delta [])
  unfolding write_manifest_header
  write_lem h delta out v =
      put_strings
        (put_u16 manifest_ver
          then_put put_u8 (section_of delta)
          then_put put_u8 0
          then_put put_u32 h.chunk_size
          then_put put_u64 h.chunk_count
          then_put put_u64 h.entry_count
          then_put put_u64 h.used_extent_count
          then_put put_u64 h.used_bytes)
        h out _ refl v.fs_type_valid.0 v.fs_uuid_valid.0 v.label_valid.0
      ∙ simp (append_assoc)

  pub read_lem :
      (h : BlockManifestHeader) (delta : Bool) (rest : Bytes)
      → IsValid is_utf8 h
      → read_manifest_header is_utf8 (header_bytes h delta rest) ≡ ok ((h, delta), rest)
  unfolding read_manifest_header
  read_lem h delta rest v =
      >>=_ok u16 _ _ (read_int_lem 2 1 _ (omega arith))
      ∙ >>=_ok u8 _ _ (u8_lem (section_of delta) _)
      ∙ rw (section_kind-section_of delta, lift)
          (>>=_ok u8 _ _ (u8_lem 0 _)
            ∙ >>=_ok u32 _ _ (read_int_lem 4 h.chunk_size _ v.chunk_size_fits)
            ∙ >>=_ok u64 _ _ (read_int_lem 8 h.chunk_count _ v.chunk_count_fits)
            ∙ >>=_ok u64 _ _ (read_int_lem 8 h.entry_count _ v.entry_count_fits)
            ∙ >>=_ok u64 _ _ (read_int_lem 8 h.used_extent_count _ v.extent_count_fits)
            ∙ >>=_ok u64 _ _ (read_int_lem 8 h.used_bytes _ v.used_bytes_fits)
            ∙ >>=_ok (read_string is_utf8) _ _
                (read_string_lem h.fs_type _ v.fs_type_valid.0 v.fs_type_valid.1)
            ∙ >>=_ok (read_string is_utf8) _ _
                (read_string_lem h.fs_uuid _ v.fs_uuid_valid.0 v.fs_uuid_valid.1)
            ∙ >>=_ok (read_string is_utf8) _ _
                (read_string_lem h.label _ v.label_valid.0 v.label_valid.1)
            ∙ >>=_ok u16 _ _ (read_int_lem 2 0 rest (omega arith)))

  -- A header whose numbers have their widths and whose strings are valid and shorter than 65536
  -- bytes is written, as that of a full or of a delta manifest, and read back with the kind of the
  -- manifest, whatever follows.
  pub read-write_manifest_header :
      (h : BlockManifestHeader) (delta : Bool) (out rest : Bytes)
      → IsValid is_utf8 h
      → (field : Bytes) × (write_manifest_header h delta out ≡ ok (out ++ field))
        × (read_manifest_header is_utf8 (field ++ rest) ≡ ok ((h, delta), rest))
  read-write_manifest_header h delta out rest v = (
    header_bytes h delta [],
    write_lem h delta out v,
    ap (read_manifest_header is_utf8) (header_bytes-append h delta rest) ∙ read_lem h delta rest v,
  )
