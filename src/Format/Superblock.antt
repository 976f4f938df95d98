-- ===== src/Format/Superblock.antt =====
-- crates/lr-format/src/sb.rs: the superblock of an image. The bytes are written as the fields one
-- after another, each at the offset that decoding reads it from.
pub mod Layout
pub mod RoundTrip
use linuxreflect.Base.{
  ℕ, zero, suc, ◌+◌, ◌-◌, ◌*◌, ◌^◌, Bool, true, false, not, ◌&&◌, ◌||◌, bit_and, bit_or, Option,
  none, some, List, [], ◌∷◌, ◌++◌, length, take, drop, any, leb, ltb, ◌==◌, ◌!=◌, if◌then◌else◌,
  eq_bytes, replicate,
}
use linuxreflect.Base.Result.{Result, ok, err, corrupt, unsupported, refuse, ◌>>=◌, ◌>>◌}
use linuxreflect.Core.ImageKind as ImageKind
use linuxreflect.Core.ImageKind.{ImageKind}
use linuxreflect.Core.Consistency as Consistency
use linuxreflect.Core.Consistency.{Consistency}
use linuxreflect.Format.Wire.{Bytes, to_le_bytes, slice}
use linuxreflect.Format.Chunk.{byte_at}
use linuxreflect.Crypto.Aead.{AeadKind, from_id, Primitives}
use linuxreflect.Crypto.Mac.{mac32, unkeyed_mac32, verify_mac32, fixed_public_mac_key}

abbrev pub sb_size : ℕ
sb_size = 4096

-- `LRIMG`, 1 and two zeros.
abbrev pub sb_magic : Bytes
sb_magic = 0x4C ∷ 0x52 ∷ 0x49 ∷ 0x4D ∷ 0x47 ∷ 1 ∷ 0 ∷ 0 ∷ []

abbrev pub known_major : ℕ
known_major = 1

abbrev pub sb_hash_offset : ℕ
sb_hash_offset = 1024

abbrev pub sb_mac_offset : ℕ
sb_mac_offset = 1056

abbrev pub min_chunk_size : ℕ
min_chunk_size = 256 * 1024

abbrev pub max_chunk_size : ℕ
max_chunk_size = 4 * 1024 * 1024

abbrev pub flag_encrypted : ℕ
flag_encrypted = 1

abbrev pub flag_delta_manifest : ℕ
flag_delta_manifest = 4

abbrev pub flag_whole_disk : ℕ
flag_whole_disk = 8

abbrev pub flag_inconsistent : ℕ
flag_inconsistent = 16

-- An identifier is its 16 bytes.
pub record Superblock : Type 0 where
  pub format_major : ℕ
  pub min_reader : ℕ
  pub flags : ℕ
  pub image_kind : ImageKind
  pub consistency : Consistency
  pub image_uuid : Bytes
  pub chain_id : Bytes
  pub set_id : Bytes
  pub parent_uuid : Bytes
  pub seq_in_chain : ℕ
  pub created_unix : ℕ
  pub source_size_bytes : ℕ
  pub logical_block_size : ℕ
  pub chunk_size : ℕ
  pub kdf_id : ℕ
  pub aead_id : ℕ
  pub kdf_salt : Bytes
  pub argon2_m_cost_kib : ℕ
  pub argon2_t_cost : ℕ
  pub argon2_p_cost : ℕ
  pub wrap_nonce : Bytes
  pub wrapped_chain_key : Bytes

unfoldable pub aead_kind : Superblock → Result AeadKind
aead_kind s = from_id s.aead_id

abbrev pub is_encrypted : Superblock → Bool
is_encrypted s = bit_and s.flags flag_encrypted != 0

abbrev pub is_delta_manifest : Superblock → Bool
is_delta_manifest s = bit_and s.flags flag_delta_manifest != 0

abbrev pub is_whole_disk : Superblock → Bool
is_whole_disk s = bit_and s.flags flag_whole_disk != 0

abbrev pub is_none : Consistency → Bool
is_none Consistency.none = true
is_none _ = false

abbrev pub is_inconsistent : Superblock → Bool
is_inconsistent s = is_none s.consistency

-- The complement of the flag is taken in 64 bits.
unfoldable pub set_consistency : Superblock → Consistency → Superblock
set_consistency s c =
    let cleared = bit_and s.flags (2 ^ 64 - 1 - flag_inconsistent) in
    record s {
      consistency = c;
      flags = if is_none c then bit_or cleared flag_inconsistent else cleared;
    }

-- The numbers from 0 to `n - 1`.
abbrev pub below : ℕ → List ℕ
below zero = []
below (suc n) = n ∷ below n

-- `is_power_of_two` of a `u32`, and the range.
unfoldable pub is_power_of_two_in_range : ℕ → ℕ → ℕ → Bool
is_power_of_two_in_range value low high =
    any (λ k. value == 2 ^ k) (below 32) && (leb low value && leb value high)

-- `a != b` of two tests.
abbrev pub differ : Bool → Bool → Bool
differ true b = not b
differ false b = b

-- The match on `kdf_id`.
unfoldable pub check_kdf_id : Superblock → Result (Unit {0})
check_kdf_id s =
    if s.kdf_id == 0 && not (is_encrypted s)
    then ok tt
    else if s.kdf_id == 1 && is_encrypted s
    then ok tt
    else if s.kdf_id == 0
    then err corrupt
    else err unsupported

unfoldable pub validate_header : Superblock → Result (Unit {0})
validate_header s = do
  refuse (ltb known_major s.format_major) unsupported
  refuse (ltb known_major s.min_reader) unsupported
  refuse (differ (bit_and s.flags flag_inconsistent != 0) (is_inconsistent s)) corrupt
  refuse (not (is_power_of_two_in_range s.chunk_size min_chunk_size max_chunk_size)) corrupt
  refuse (not (is_power_of_two_in_range s.logical_block_size 512 4096)) corrupt
  kind ← from_id s.aead_id
  check_kdf_id s

abbrev pub concat_fields : List Bytes → Bytes → Bytes
concat_fields [] rest = rest
concat_fields (field ∷ fields) rest = field ++ concat_fields fields rest

-- The fields up to the hash, in the order of their offsets.
abbrev pub fields_of : Superblock → List Bytes
fields_of s =
    sb_magic
    ∷ to_le_bytes 4 s.format_major
    ∷ to_le_bytes 4 s.min_reader
    ∷ to_le_bytes 8 s.flags
    ∷ (ImageKind.as_u8 s.image_kind ∷ [])
    ∷ (Consistency.as_u8 s.consistency ∷ [])
    ∷ s.image_uuid
    ∷ s.chain_id
    ∷ s.set_id
    ∷ s.parent_uuid
    ∷ to_le_bytes 4 s.seq_in_chain
    ∷ to_le_bytes 8 s.created_unix
    ∷ to_le_bytes 8 s.source_size_bytes
    ∷ to_le_bytes 4 s.logical_block_size
    ∷ to_le_bytes 4 s.chunk_size
    ∷ to_le_bytes 4 s.kdf_id
    ∷ to_le_bytes 4 s.aead_id
    ∷ s.kdf_salt
    ∷ to_le_bytes 4 s.argon2_m_cost_kib
    ∷ to_le_bytes 4 s.argon2_t_cost
    ∷ to_le_bytes 4 s.argon2_p_cost
    ∷ s.wrap_nonce
    ∷ s.wrapped_chain_key
    ∷ []

-- The first 1024 bytes: the fields and zeros.
abbrev pub prefix_of : Superblock → Bytes
prefix_of s = concat_fields (fields_of s) (replicate (sb_hash_offset - 214) 0)

module _ (p : Primitives) where
  -- `meta_key.copied().unwrap_or_else(fixed_public_mac_key)`
  abbrev pub authentication_key : Option Bytes → Bytes
  authentication_key none = fixed_public_mac_key p
  authentication_key (some meta_key) = meta_key

  unfoldable pub encode : Superblock → Option Bytes → Result Bytes
  encode s meta_key = do
    validate_header s
    let hashed = prefix_of s ++ unkeyed_mac32 p (prefix_of s)
    let mac = mac32 p (authentication_key meta_key) hashed
    ok ((hashed ++ mac) ++ replicate (sb_size - (sb_mac_offset + 32)) 0)

  unfoldable pub fields_at : Bytes → Result Superblock
  fields_at bytes = do
    format_major ← slice 4 (drop 8 bytes)
    min_reader ← slice 4 (drop 12 bytes)
    flags ← slice 8 (drop 16 bytes)
    image_kind ← ImageKind.from_u8 (byte_at bytes 24)
    consistency ← Consistency.from_u8 (byte_at bytes 25)
    seq_in_chain ← slice 4 (drop 90 bytes)
    created_unix ← slice 8 (drop 94 bytes)
    source_size_bytes ← slice 8 (drop 102 bytes)
    logical_block_size ← slice 4 (drop 110 bytes)
    chunk_size ← slice 4 (drop 114 bytes)
    kdf_id ← slice 4 (drop 118 bytes)
    aead_id ← slice 4 (drop 122 bytes)
    argon2_m_cost_kib ← slice 4 (drop 142 bytes)
    argon2_t_cost ← slice 4 (drop 146 bytes)
    argon2_p_cost ← slice 4 (drop 150 bytes)
    ok (record {
      format_major = format_major;
      min_reader = min_reader;
      flags = flags;
      image_kind = image_kind;
      consistency = consistency;
      image_uuid = take 16 (drop 26 bytes);
      chain_id = take 16 (drop 42 bytes);
      set_id = take 16 (drop 58 bytes);
      parent_uuid = take 16 (drop 74 bytes);
      seq_in_chain = seq_in_chain;
      created_unix = created_unix;
      source_size_bytes = source_size_bytes;
      logical_block_size = logical_block_size;
      chunk_size = chunk_size;
      kdf_id = kdf_id;
      aead_id = aead_id;
      kdf_salt = take 16 (drop 126 bytes);
      argon2_m_cost_kib = argon2_m_cost_kib;
      argon2_t_cost = argon2_t_cost;
      argon2_p_cost = argon2_p_cost;
      wrap_nonce = take 12 (drop 154 bytes);
      wrapped_chain_key = take 48 (drop 166 bytes);
    })

  unfoldable pub decode : Bytes → Result Superblock
  decode bytes = do
    refuse (not (eq_bytes (take 8 bytes) sb_magic)) corrupt
    let expected = unkeyed_mac32 p (take sb_hash_offset bytes)
    refuse (not (eq_bytes (take 32 (drop sb_hash_offset bytes)) expected)) corrupt
    s ← fields_at bytes
    validate_header s
    ok s

  unfoldable pub verify_mac : Bytes → Option Bytes → Result (Unit {0})
  verify_mac bytes meta_key =
      let stored = take 32 (drop sb_mac_offset bytes) in
      if verify_mac32 p (authentication_key meta_key) (take sb_mac_offset bytes) stored
      then ok tt
      else err corrupt
