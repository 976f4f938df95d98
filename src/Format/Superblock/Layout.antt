-- ===== src/Format/Superblock/Layout.antt =====
-- The offsets of the fields of a superblock.
use linuxreflect.Base.{
  ℕ, zero, suc, ◌+◌, ◌^◌, ◌<◌, ◌≡◌, refl, [], ◌∷◌, ◌++◌, length, take, drop, get_elem?, arith,
  take-append_of, drop-append_of, ap, ◌∙◌, Option, none, some,
}
use linuxreflect.Base.Result.{ok}
use linuxreflect.Core.ImageKind as ImageKind
use linuxreflect.Core.Consistency as Consistency
use linuxreflect.Format.Wire.{Bytes, to_le_bytes, slice}
use linuxreflect.Format.Wire.RoundTrip.{length-to_le_bytes, slice_lem}
use linuxreflect.Format.Chunk.{byte_at}
use linuxreflect.Crypto.Aead.{Primitives}
use linuxreflect.Format.Superblock.{Superblock, concat_fields, fields_of, fields_at}

-- The numbers and the byte strings have their widths.
pub record IsValid (s : Superblock) : Type 0 where
  pub format_major_fits : s.format_major < 2 ^ 32
  pub min_reader_fits : s.min_reader < 2 ^ 32
  pub flags_fits : s.flags < 2 ^ 64
  pub image_uuid_fits : length s.image_uuid ≡ 16
  pub chain_id_fits : length s.chain_id ≡ 16
  pub set_id_fits : length s.set_id ≡ 16
  pub parent_uuid_fits : length s.parent_uuid ≡ 16
  pub seq_in_chain_fits : s.seq_in_chain < 2 ^ 32
  pub created_unix_fits : s.created_unix < 2 ^ 64
  pub source_size_bytes_fits : s.source_size_bytes < 2 ^ 64
  pub logical_block_size_fits : s.logical_block_size < 2 ^ 32
  pub chunk_size_fits : s.chunk_size < 2 ^ 32
  pub kdf_id_fits : s.kdf_id < 2 ^ 32
  pub aead_id_fits : s.aead_id < 2 ^ 32
  pub kdf_salt_fits : length s.kdf_salt ≡ 16
  pub argon2_m_cost_kib_fits : s.argon2_m_cost_kib < 2 ^ 32
  pub argon2_t_cost_fits : s.argon2_t_cost < 2 ^ 32
  pub argon2_p_cost_fits : s.argon2_p_cost < 2 ^ 32
  pub wrap_nonce_fits : length s.wrap_nonce ≡ 12
  pub wrapped_chain_key_fits : length s.wrapped_chain_key ≡ 48

abbrev no_bytes : Bytes
no_bytes = []

nothing_left : (n : ℕ) → no_bytes ≡ drop n no_bytes
nothing_left zero = refl
nothing_left (suc n) = refl

drop_add : (a b : ℕ) (xs : Bytes) → drop (a + b) xs ≡ drop b (drop a xs)
drop_add zero b xs = let same : 0 + b ≡ b = omega arith in rw same refl
drop_add (suc a) b [] = let same : suc a + b ≡ suc (a + b) = omega arith in rw same (nothing_left b)
drop_add (suc a) b (x ∷ xs) =
    let same : suc a + b ≡ suc (a + b) = omega arith in rw same (drop_add a b xs)

-- The offset of the next field.
pub drop_field :
    (o w : ℕ) (xs field tail : Bytes)
    → drop o xs ≡ field ++ tail
    → length field ≡ w
    → drop (o + w) xs ≡ tail
drop_field o w xs field tail h l =
    drop_add o w xs ∙ ap (λ ys. drop w ys) h ∙ drop-append_of w field tail l

get_elem?-drop : (o : ℕ) (xs : Bytes) → get_elem? xs o ≡ get_elem? (drop o xs) 0
get_elem?-drop zero xs = refl
get_elem?-drop (suc o) [] = refl
get_elem?-drop (suc o) (x ∷ xs) = get_elem?-drop o xs

pub byte_field :
    (o : ℕ) (xs : Bytes) (b : ℕ) (tail : Bytes) → drop o xs ≡ b ∷ tail → byte_at xs o ≡ b
byte_field o xs b tail h =
    ap (λ (found : Option ℕ). elim found [ some x ↦ x | none ↦ 0 ])
      (get_elem?-drop o xs ∙ ap (λ ys. get_elem? ys 0) h)

module _ (s : Superblock) (v : IsValid s) (rest : Bytes) where
  abbrev bytes : Bytes
  bytes = concat_fields (fields_of s) rest

  abbrev tail_166 : Bytes
  tail_166 = s.wrapped_chain_key ++ rest

  abbrev tail_154 : Bytes
  tail_154 = s.wrap_nonce ++ tail_166

  abbrev tail_150 : Bytes
  tail_150 = to_le_bytes 4 s.argon2_p_cost ++ tail_154

  abbrev tail_146 : Bytes
  tail_146 = to_le_bytes 4 s.argon2_t_cost ++ tail_150

  abbrev tail_142 : Bytes
  tail_142 = to_le_bytes 4 s.argon2_m_cost_kib ++ tail_146

  abbrev tail_126 : Bytes
  tail_126 = s.kdf_salt ++ tail_142

  abbrev tail_122 : Bytes
  tail_122 = to_le_bytes 4 s.aead_id ++ tail_126

  abbrev tail_118 : Bytes
  tail_118 = to_le_bytes 4 s.kdf_id ++ tail_122

  abbrev tail_114 : Bytes
  tail_114 = to_le_bytes 4 s.chunk_size ++ tail_118

  abbrev tail_110 : Bytes
  tail_110 = to_le_bytes 4 s.logical_block_size ++ tail_114

  abbrev tail_102 : Bytes
  tail_102 = to_le_bytes 8 s.source_size_bytes ++ tail_110

  abbrev tail_94 : Bytes
  tail_94 = to_le_bytes 8 s.created_unix ++ tail_102

  abbrev tail_90 : Bytes
  tail_90 = to_le_bytes 4 s.seq_in_chain ++ tail_94

  abbrev tail_74 : Bytes
  tail_74 = s.parent_uuid ++ tail_90

  abbrev tail_58 : Bytes
  tail_58 = s.set_id ++ tail_74

  abbrev tail_42 : Bytes
  tail_42 = s.chain_id ++ tail_58

  abbrev tail_26 : Bytes
  tail_26 = s.image_uuid ++ tail_42

  abbrev tail_25 : Bytes
  tail_25 = (Consistency.as_u8 s.consistency ∷ []) ++ tail_26

  abbrev tail_24 : Bytes
  tail_24 = (ImageKind.as_u8 s.image_kind ∷ []) ++ tail_25

  abbrev tail_16 : Bytes
  tail_16 = to_le_bytes 8 s.flags ++ tail_24

  abbrev tail_12 : Bytes
  tail_12 = to_le_bytes 4 s.min_reader ++ tail_16

  abbrev tail_8 : Bytes
  tail_8 = to_le_bytes 4 s.format_major ++ tail_12

  after_8 : drop 8 bytes ≡ tail_8
  after_8 = refl

  after_12 : drop 12 bytes ≡ tail_12
  after_12 =
      drop_field 8 4 bytes (to_le_bytes 4 s.format_major) tail_12 after_8
        (length-to_le_bytes 4 s.format_major)

  after_16 : drop 16 bytes ≡ tail_16
  after_16 =
      drop_field 12 4 bytes (to_le_bytes 4 s.min_reader) tail_16 after_12
        (length-to_le_bytes 4 s.min_reader)

  after_24 : drop 24 bytes ≡ tail_24
  after_24 =
      drop_field 16 8 bytes (to_le_bytes 8 s.flags) tail_24 after_16 (length-to_le_bytes 8 s.flags)

  after_25 : drop 25 bytes ≡ tail_25
  after_25 = drop_field 24 1 bytes ((ImageKind.as_u8 s.image_kind ∷ [])) tail_25 after_24 refl

  after_26 : drop 26 bytes ≡ tail_26
  after_26 = drop_field 25 1 bytes ((Consistency.as_u8 s.consistency ∷ [])) tail_26 after_25 refl

  after_42 : drop 42 bytes ≡ tail_42
  after_42 = drop_field 26 16 bytes (s.image_uuid) tail_42 after_26 v.image_uuid_fits

  after_58 : drop 58 bytes ≡ tail_58
  after_58 = drop_field 42 16 bytes (s.chain_id) tail_58 after_42 v.chain_id_fits

  after_74 : drop 74 bytes ≡ tail_74
  after_74 = drop_field 58 16 bytes (s.set_id) tail_74 after_58 v.set_id_fits

  after_90 : drop 90 bytes ≡ tail_90
  after_90 = drop_field 74 16 bytes (s.parent_uuid) tail_90 after_74 v.parent_uuid_fits

  after_94 : drop 94 bytes ≡ tail_94
  after_94 =
      drop_field 90 4 bytes (to_le_bytes 4 s.seq_in_chain) tail_94 after_90
        (length-to_le_bytes 4 s.seq_in_chain)

  after_102 : drop 102 bytes ≡ tail_102
  after_102 =
      drop_field 94 8 bytes (to_le_bytes 8 s.created_unix) tail_102 after_94
        (length-to_le_bytes 8 s.created_unix)

  after_110 : drop 110 bytes ≡ tail_110
  after_110 =
      drop_field 102 8 bytes (to_le_bytes 8 s.source_size_bytes) tail_110 after_102
        (length-to_le_bytes 8 s.source_size_bytes)

  after_114 : drop 114 bytes ≡ tail_114
  after_114 =
      drop_field 110 4 bytes (to_le_bytes 4 s.logical_block_size) tail_114 after_110
        (length-to_le_bytes 4 s.logical_block_size)

  after_118 : drop 118 bytes ≡ tail_118
  after_118 =
      drop_field 114 4 bytes (to_le_bytes 4 s.chunk_size) tail_118 after_114
        (length-to_le_bytes 4 s.chunk_size)

  after_122 : drop 122 bytes ≡ tail_122
  after_122 =
      drop_field 118 4 bytes (to_le_bytes 4 s.kdf_id) tail_122 after_118
        (length-to_le_bytes 4 s.kdf_id)

  after_126 : drop 126 bytes ≡ tail_126
  after_126 =
      drop_field 122 4 bytes (to_le_bytes 4 s.aead_id) tail_126 after_122
        (length-to_le_bytes 4 s.aead_id)

  after_142 : drop 142 bytes ≡ tail_142
  after_142 = drop_field 126 16 bytes (s.kdf_salt) tail_142 after_126 v.kdf_salt_fits

  after_146 : drop 146 bytes ≡ tail_146
  after_146 =
      drop_field 142 4 bytes (to_le_bytes 4 s.argon2_m_cost_kib) tail_146 after_142
        (length-to_le_bytes 4 s.argon2_m_cost_kib)

  after_150 : drop 150 bytes ≡ tail_150
  after_150 =
      drop_field 146 4 bytes (to_le_bytes 4 s.argon2_t_cost) tail_150 after_146
        (length-to_le_bytes 4 s.argon2_t_cost)

  after_154 : drop 154 bytes ≡ tail_154
  after_154 =
      drop_field 150 4 bytes (to_le_bytes 4 s.argon2_p_cost) tail_154 after_150
        (length-to_le_bytes 4 s.argon2_p_cost)

  after_166 : drop 166 bytes ≡ tail_166
  after_166 = drop_field 154 12 bytes (s.wrap_nonce) tail_166 after_154 v.wrap_nonce_fits

  format_major_read : slice 4 (drop 8 bytes) ≡ ok s.format_major
  format_major_read =
      rw after_8 (slice_lem 4 s.format_major tail_12 (omega (arith, v.format_major_fits)))

  min_reader_read : slice 4 (drop 12 bytes) ≡ ok s.min_reader
  min_reader_read =
      rw after_12 (slice_lem 4 s.min_reader tail_16 (omega (arith, v.min_reader_fits)))

  flags_read : slice 8 (drop 16 bytes) ≡ ok s.flags
  flags_read = rw after_16 (slice_lem 8 s.flags tail_24 (omega (arith, v.flags_fits)))

  image_kind_read : ImageKind.from_u8 (byte_at bytes 24) ≡ ok s.image_kind
  image_kind_read =
      rw (byte_field 24 bytes (ImageKind.as_u8 s.image_kind) tail_25 after_24)
        (ImageKind.from_u8-as_u8 s.image_kind)

  consistency_read : Consistency.from_u8 (byte_at bytes 25) ≡ ok s.consistency
  consistency_read =
      rw (byte_field 25 bytes (Consistency.as_u8 s.consistency) tail_26 after_25)
        (Consistency.from_u8-as_u8 s.consistency)

  image_uuid_read : take 16 (drop 26 bytes) ≡ s.image_uuid
  image_uuid_read = rw after_26 (take-append_of 16 s.image_uuid tail_42 v.image_uuid_fits)

  chain_id_read : take 16 (drop 42 bytes) ≡ s.chain_id
  chain_id_read = rw after_42 (take-append_of 16 s.chain_id tail_58 v.chain_id_fits)

  set_id_read : take 16 (drop 58 bytes) ≡ s.set_id
  set_id_read = rw after_58 (take-append_of 16 s.set_id tail_74 v.set_id_fits)

  parent_uuid_read : take 16 (drop 74 bytes) ≡ s.parent_uuid
  parent_uuid_read = rw after_74 (take-append_of 16 s.parent_uuid tail_90 v.parent_uuid_fits)

  seq_in_chain_read : slice 4 (drop 90 bytes) ≡ ok s.seq_in_chain
  seq_in_chain_read =
      rw after_90 (slice_lem 4 s.seq_in_chain tail_94 (omega (arith, v.seq_in_chain_fits)))

  created_unix_read : slice 8 (drop 94 bytes) ≡ ok s.created_unix
  created_unix_read =
      rw after_94 (slice_lem 8 s.created_unix tail_102 (omega (arith, v.created_unix_fits)))

  source_size_bytes_read : slice 8 (drop 102 bytes) ≡ ok s.source_size_bytes
  source_size_bytes_read =
      rw after_102
        (slice_lem 8 s.source_size_bytes tail_110 (omega (arith, v.source_size_bytes_fits)))

  logical_block_size_read : slice 4 (drop 110 bytes) ≡ ok s.logical_block_size
  logical_block_size_read =
      rw after_110
        (slice_lem 4 s.logical_block_size tail_114 (omega (arith, v.logical_block_size_fits)))

  chunk_size_read : slice 4 (drop 114 bytes) ≡ ok s.chunk_size
  chunk_size_read =
      rw after_114 (slice_lem 4 s.chunk_size tail_118 (omega (arith, v.chunk_size_fits)))

  kdf_id_read : slice 4 (drop 118 bytes) ≡ ok s.kdf_id
  kdf_id_read = rw after_118 (slice_lem 4 s.kdf_id tail_122 (omega (arith, v.kdf_id_fits)))

  aead_id_read : slice 4 (drop 122 bytes) ≡ ok s.aead_id
  aead_id_read = rw after_122 (slice_lem 4 s.aead_id tail_126 (omega (arith, v.aead_id_fits)))

  kdf_salt_read : take 16 (drop 126 bytes) ≡ s.kdf_salt
  kdf_salt_read = rw after_126 (take-append_of 16 s.kdf_salt tail_142 v.kdf_salt_fits)

  argon2_m_cost_kib_read : slice 4 (drop 142 bytes) ≡ ok s.argon2_m_cost_kib
  argon2_m_cost_kib_read =
      rw after_142
        (slice_lem 4 s.argon2_m_cost_kib tail_146 (omega (arith, v.argon2_m_cost_kib_fits)))

  argon2_t_cost_read : slice 4 (drop 146 bytes) ≡ ok s.argon2_t_cost
  argon2_t_cost_read =
      rw after_146 (slice_lem 4 s.argon2_t_cost tail_150 (omega (arith, v.argon2_t_cost_fits)))

  argon2_p_cost_read : slice 4 (drop 150 bytes) ≡ ok s.argon2_p_cost
  argon2_p_cost_read =
      rw after_150 (slice_lem 4 s.argon2_p_cost tail_154 (omega (arith, v.argon2_p_cost_fits)))

  wrap_nonce_read : take 12 (drop 154 bytes) ≡ s.wrap_nonce
  wrap_nonce_read = rw after_154 (take-append_of 12 s.wrap_nonce tail_166 v.wrap_nonce_fits)

  wrapped_chain_key_read : take 48 (drop 166 bytes) ≡ s.wrapped_chain_key
  wrapped_chain_key_read =
      rw after_166 (take-append_of 48 s.wrapped_chain_key rest v.wrapped_chain_key_fits)

  -- The fields are read back from their offsets.
  pub fields_at_lem : (p : Primitives) → fields_at p bytes ≡ ok s
  unfolding fields_at
  fields_at_lem p =
      rw
        (
          format_major_read, min_reader_read, flags_read, image_kind_read, consistency_read,
          seq_in_chain_read, created_unix_read, source_size_bytes_read, logical_block_size_read,
          chunk_size_read, kdf_id_read, aead_id_read, argon2_m_cost_kib_read, argon2_t_cost_read,
          argon2_p_cost_read, image_uuid_read, chain_id_read, set_id_read, parent_uuid_read,
          kdf_salt_read, wrap_nonce_read, wrapped_chain_key_read,
        )
        refl
