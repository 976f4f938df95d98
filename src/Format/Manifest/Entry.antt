-- ===== src/Format/Manifest/Entry.antt =====
-- crates/lr-format/src/manifest.rs: the 46 bytes of a manifest entry.
use linuxreflect.Base.{
  ℕ, zero, suc, sym, ◌+◌, ◌*◌, ◌/◌, ◌%◌, ◌^◌, ◌<◌, ◌≤◌, ◌≡◌, ◌∙◌, ap, Bool, false, bit_and, bit_or,
  bit_and-low, bit_or-high, List, [], ◌∷◌, ◌++◌, ltb, ◌==◌, length, arith, if◌then◌else◌, replicate,
  take, drop, take-append_of, drop-append_of,
}
use mathlib.Core.List.{append-nil}
use linuxreflect.Base.Result.{Result, ok, err, corrupt, unsupported, refuse, ◌>>=◌, ◌>>◌}
use linuxreflect.Format.Wire.{Bytes, to_le_bytes, slice, slice_u16, slice_u32, slice_u64}
use linuxreflect.Format.Wire.RoundTrip.{slice_lem, length-to_le_bytes}

abbrev pub state_unused : ℕ
state_unused = 0

abbrev pub state_zero : ℕ
state_zero = 1

abbrev pub state_stored : ℕ
state_stored = 2

abbrev pub state_bad_sector : ℕ
state_bad_sector = 3

abbrev pub max_member : ℕ
max_member = 0x3FFF

abbrev pub entry_len : ℕ
entry_len = 46

pub record BlockEntry : Type 0 where
  pub state : ℕ
  pub member : ℕ
  pub hash : Bytes
  pub offset : ℕ
  pub stored_len : ℕ

abbrev pub zero_hash : Bytes
zero_hash = replicate 32 0

abbrev pub unused : BlockEntry
unused = record { state = state_unused; member = 0; hash = zero_hash; offset = 0; stored_len = 0 }

abbrev pub zero_entry : BlockEntry
zero_entry = record { state = state_zero; member = 0; hash = zero_hash; offset = 0; stored_len = 0 }

unfoldable pub stored_entry : ℕ → Bytes → ℕ → ℕ → Result BlockEntry
stored_entry member hash offset stored_len =
    if ltb max_member member
    then err unsupported
    else ok (record {
      state = state_stored;
      member = member;
      hash = hash;
      offset = offset;
      stored_len = stored_len;
    })

abbrev pub bad_sector : ℕ → ℕ → BlockEntry
bad_sector offset len = record {
  state = state_bad_sector;
  member = 0;
  hash = zero_hash;
  offset = offset;
  stored_len = len;
}

abbrev pub is_stored : BlockEntry → Bool
is_stored e = e.state == state_stored

-- `(member & MAX_MEMBER) | (u16::from(state) << 14)`
abbrev pub packed_of : BlockEntry → ℕ
packed_of e = bit_or (bit_and e.member max_member) (e.state * 2 ^ 14)

unfoldable pub encode_entry : BlockEntry → Result Bytes
encode_entry e =
    if ltb state_bad_sector e.state
    then err corrupt
    else if ltb max_member e.member
    then err corrupt
    else ok (
        e.hash
        ++ (to_le_bytes 2 (packed_of e) ++ (to_le_bytes 8 e.offset ++ to_le_bytes 4 e.stored_len)))

-- Of 46 bytes.
unfoldable pub decode_entry : Bytes → Result BlockEntry
decode_entry bytes = do
  packed ← slice_u16 (drop 32 bytes)
  let state = packed / 2 ^ 14
  refuse (ltb state_bad_sector state) corrupt
  offset ← slice_u64 (drop 34 bytes)
  stored_len ← slice_u32 (drop 42 bytes)
  ok (record {
    state = state;
    member = bit_and packed max_member;
    hash = take 32 bytes;
    offset = offset;
    stored_len = stored_len;
  })

pub record IsValid (e : BlockEntry) : Type 0 where
  pub state_known : e.state ≤ state_bad_sector
  pub member_fits : e.member ≤ max_member
  pub hash_length : length e.hash ≡ 32
  pub offset_fits : e.offset < 2 ^ 64
  pub length_fits : e.stored_len < 2 ^ 32

abbrev pub entry_bytes : BlockEntry → Bytes
entry_bytes e =
    e.hash
    ++ (to_le_bytes 2 (e.member + e.state * 2 ^ 14)
        ++ (to_le_bytes 8 e.offset ++ to_le_bytes 4 e.stored_len))

packed_of_lem : (e : BlockEntry) → IsValid e → packed_of e ≡ e.member + e.state * 2 ^ 14
packed_of_lem e v =
    let x = e.member + e.state * 2 ^ 14 in
    let low : x % 2 ^ 14 ≡ e.member = omega (arith, v.member_fits, v.state_known) in
    let high : x / 2 ^ 14 ≡ e.state = omega (arith, v.member_fits, v.state_known) in
    let masked : bit_and e.member max_member ≡ e.member =
      omega (arith, v.member_fits, bit_and-low e.member (omega (arith, v.member_fits))) in
    let joined : bit_or (x % 2 ^ 14) (x / 2 ^ 14 * 2 ^ 14) ≡ x =
      bit_or-high x (omega (arith, v.member_fits, v.state_known)) in
    rw masked (sym (λ i. bit_or (low i) (high i * 2 ^ 14)) ∙ joined)

pub encode_entry_lem : (e : BlockEntry) → IsValid e → encode_entry e ≡ ok (entry_bytes e)
unfolding encode_entry
encode_entry_lem e v =
    let known : ltb state_bad_sector e.state ≡ false = (ground (arith, v.state_known)) in
    let fits : ltb max_member e.member ≡ false = (ground (arith, v.member_fits)) in
    rw (known, fits, packed_of_lem e v)

pub drop-append_past {ℓ} :
    {A : Type ℓ} (n k : ℕ) (xs ys : List A) → length xs ≡ n → drop (n + k) (xs ++ ys) ≡ drop k ys
drop-append_past zero k [] ys h = let same : 0 + k ≡ k = omega arith in ap (λ m. drop m ys) same
drop-append_past zero k (x ∷ xs) ys h = absurd (omega arith)
drop-append_past (suc n) k [] ys h = absurd (omega arith)
drop-append_past (suc n) k (x ∷ xs) ys h =
    let next : suc n + k ≡ suc (n + k) = omega arith in
    ap (λ m. drop m (x ∷ (xs ++ ys))) next ∙ drop-append_past n k xs ys (omega arith)

decode_fields :
    (bytes : Bytes) (e : BlockEntry) (x : ℕ)
    → slice 2 (drop 32 bytes) ≡ ok x
    → slice 8 (drop 34 bytes) ≡ ok e.offset
    → slice 4 (drop 42 bytes) ≡ ok e.stored_len
    → take 32 bytes ≡ e.hash
    → x / 2 ^ 14 ≡ e.state
    → bit_and x max_member ≡ e.member
    → ltb state_bad_sector e.state ≡ false
    → decode_entry bytes ≡ ok e
unfolding decode_entry
decode_fields bytes e x p o l h s m k =
    rw (p, ◌>>=◌, s, k, o, l, h, m) (ap (λ (state : ℕ). ok (record e { state = state })) s)

pub decode_entry_lem : (e : BlockEntry) → IsValid e → decode_entry (entry_bytes e) ≡ ok e
unfolding decode_entry
decode_entry_lem e v =
    let x = e.member + e.state * 2 ^ 14 in
    let small : x < 2 ^ 16 = omega (arith, v.member_fits, v.state_known) in
    let lengths = to_le_bytes 4 e.stored_len in
    let offsets = to_le_bytes 8 e.offset ++ lengths in
    let tail = to_le_bytes 2 x ++ offsets in
    let at_32 : drop 32 (entry_bytes e) ≡ tail = drop-append_of 32 e.hash tail v.hash_length in
    let at_34 : drop 34 (entry_bytes e) ≡ offsets =
      drop-append_past 32 2 e.hash tail v.hash_length
      ∙ drop-append_of 2 (to_le_bytes 2 x) offsets (length-to_le_bytes 2 x) in
    let at_42 : drop 42 (entry_bytes e) ≡ lengths =
      drop-append_past 32 10 e.hash tail v.hash_length
      ∙ drop-append_past 2 8 (to_le_bytes 2 x) offsets (length-to_le_bytes 2 x)
      ∙ drop-append_of 8 (to_le_bytes 8 e.offset) lengths (length-to_le_bytes 8 e.offset) in
    let hash_field : take 32 (entry_bytes e) ≡ e.hash =
      take-append_of 32 e.hash tail v.hash_length in
    decode_fields (entry_bytes e) e x (ap (slice 2) at_32 ∙ slice_lem 2 x offsets small)
      (ap (slice 8) at_34 ∙ slice_lem 8 e.offset lengths v.offset_fits)
      (ap (slice 4) at_42
        ∙ ap (slice 4) (sym (append-nil lengths))
        ∙ slice_lem 4 e.stored_len [] v.length_fits)
      hash_field (omega (arith, v.member_fits, v.state_known))
      (omega (arith, v.member_fits, v.state_known, bit_and-low x small))
      (ground (arith, v.state_known))
