-- ===== src/Crypto/Aead.antt =====
-- crates/lr-crypto/src/aead.rs: one dispatcher over two ciphers. The ciphers and the keyed hash are
-- third-party code, here the parameter `Primitives`; `IsSound` states what the code relies on.
use linuxreflect.Base.{ℕ, ◌^◌, ◌≤◌, ◌≡◌, ◌==◌, if◌then◌else◌, Option, some, length}
use linuxreflect.Base.Result.{Result, ok, err, aead, unsupported, ok_or}
use linuxreflect.Format.Wire.{Bytes}

pub data AeadKind : Type 0 where
  aes_256_gcm cha_cha_20_poly_1305 : AeadKind

unfoldable pub id : AeadKind → ℕ
id aes_256_gcm = 1
id cha_cha_20_poly_1305 = 2

unfoldable pub from_id : ℕ → Result AeadKind
from_id value =
    if value == 1
    then ok aes_256_gcm
    else if value == 2
    then ok cha_cha_20_poly_1305
    else err unsupported

abbrev pub nonce_len : ℕ
nonce_len = 12

abbrev pub tag_len : ℕ
tag_len = 16

-- A cipher works on a buffer in place: it takes the key, the nonce, the associated data and the
-- buffer, and returns the new buffer, when it encrypts with the tag.
pub record Cipher : Type 0 where
  pub encrypt : Bytes → Bytes → Bytes → Bytes → Option (Bytes × Bytes)
  pub decrypt : Bytes → Bytes → Bytes → Bytes → Bytes → Option Bytes

pub record Primitives : Type 0 where
  pub aes : Cipher
  pub chacha : Cipher
  -- keyed BLAKE3 of the key and the data
  pub keyed_hash : Bytes → Bytes → Bytes
  -- BLAKE3, and its key derivation from a context and key material
  pub hash : Bytes → Bytes
  pub derive_key : Bytes → Bytes → Bytes
  -- zstd, with the level, and with the limit of the output
  pub zstd_compress : Bytes → ℕ → Option Bytes
  pub zstd_decompress : Bytes → ℕ → Option Bytes

-- Buffers of up to 2 ^ 32 bytes are accepted, decryption inverts encryption, the buffer keeps its
-- length, and the tag has 16 bytes.
pub record IsCipher (c : Cipher) : Type 0 where
  pub encrypts :
      (key nonce aad buf : Bytes)
      → length buf ≤ 2 ^ 32
      → (sealed : Bytes × Bytes) × (c.encrypt key nonce aad buf ≡ some sealed)
  pub decrypt-encrypt :
      (key nonce aad buf out tag : Bytes)
      → c.encrypt key nonce aad buf ≡ some (out, tag)
      → c.decrypt key nonce aad out tag ≡ some buf
  pub length_out :
      (key nonce aad buf out tag : Bytes)
      → c.encrypt key nonce aad buf ≡ some (out, tag)
      → length out ≡ length buf
  pub length_tag :
      (key nonce aad buf out tag : Bytes)
      → c.encrypt key nonce aad buf ≡ some (out, tag)
      → length tag ≡ tag_len

pub record IsSound (p : Primitives) : Type 0 where
  pub aes_sound : IsCipher p.aes
  pub chacha_sound : IsCipher p.chacha
  -- digests have 32 bytes
  pub length_keyed_hash : (key data_in : Bytes) → length (p.keyed_hash key data_in) ≡ 32
  pub length_hash : (data_in : Bytes) → length (p.hash data_in) ≡ 32
  -- zstd compresses every input at the levels 1 to 22
  pub zstd_compresses :
      (data_in : Bytes) (level : ℕ)
      → 1 ≤ level
      → level ≤ 22
      → (out : Bytes) × (p.zstd_compress data_in level ≡ some out)
  pub zstd_inverts :
      (data_in out : Bytes) (level limit : ℕ)
      → p.zstd_compress data_in level ≡ some out
      → length data_in ≤ limit
      → p.zstd_decompress out limit ≡ some data_in

module _ (p : Primitives) where
  abbrev pub cipher_of : AeadKind → Cipher
  cipher_of aes_256_gcm = p.aes
  cipher_of cha_cha_20_poly_1305 = p.chacha

  unfoldable pub seal_in_place : AeadKind → Bytes → Bytes → Bytes → Bytes → Result (Bytes × Bytes)
  seal_in_place kind key nonce aad buf = ok_or ((cipher_of kind).encrypt key nonce aad buf) aead

  unfoldable pub open_in_place : AeadKind → Bytes → Bytes → Bytes → Bytes → Bytes → Result Bytes
  open_in_place kind key nonce aad buf tag =
      ok_or ((cipher_of kind).decrypt key nonce aad buf tag) aead

  cipher_of-IsCipher : IsSound p → (kind : AeadKind) → IsCipher (cipher_of kind)
  cipher_of-IsCipher s aes_256_gcm = s.aes_sound
  cipher_of-IsCipher s cha_cha_20_poly_1305 = s.chacha_sound

  -- A sealed buffer has the length of the plain one and a tag of 16 bytes, and is opened again.
  pub seal_in_place_lem :
      IsSound p
      → (kind : AeadKind) (key nonce aad buf : Bytes) → length buf ≤ 2 ^ 32
      → (out tag : Bytes) × (seal_in_place kind key nonce aad buf ≡ ok (out, tag))
        × (open_in_place kind key nonce aad out tag ≡ ok buf)
        × (length out ≡ length buf)
        × (length tag ≡ tag_len)
  unfolding seal_in_place open_in_place
  seal_in_place_lem s kind key nonce aad buf h =
      let c = cipher_of-IsCipher s kind in
      let ((out, tag), e) = c.encrypts key nonce aad buf h in
      (
        out,
        tag,
        rw e,
        rw (c.decrypt-encrypt key nonce aad buf out tag e),
        c.length_out key nonce aad buf out tag e,
        c.length_tag key nonce aad buf out tag e,
      )
