-- ===== src/Examples/Headers.antt =====
-- A superblock and what is made of it, with the hashes of Sealing.
use linuxreflect.Base.{◌*◌, ◌^◌, ◌≡◌, refl, some, [], ◌∷◌, arith, length, replicate}
use linuxreflect.Base.Result.{ok}
use linuxreflect.Core.ImageKind as ImageKind
use linuxreflect.Core.Consistency as Consistency
use linuxreflect.Format.Wire.{Bytes}
use linuxreflect.Crypto.Aead.{from_id}
use linuxreflect.Format.Superblock.{
  Superblock, encode, decode, verify_mac, validate_header, check_kdf_id, is_power_of_two_in_range,
}
use linuxreflect.Format.Superblock.Layout.{IsValid}
use linuxreflect.Format.Superblock.RoundTrip.{decode-encode_superblock}
use linuxreflect.Examples.Sealing.{copying, copying-IsSound}

abbrev pub sample : Superblock
sample = record {
  format_major = 1;
  min_reader = 1;
  flags = 17;
  image_kind = ImageKind.block;
  consistency = Consistency.none;
  image_uuid = replicate 16 1;
  chain_id = replicate 16 2;
  set_id = replicate 16 3;
  parent_uuid = replicate 16 0;
  seq_in_chain = 0;
  created_unix = 1700000000;
  source_size_bytes = 2 ^ 30;
  logical_block_size = 512;
  chunk_size = 1024 * 1024;
  kdf_id = 1;
  aead_id = 1;
  kdf_salt = replicate 16 4;
  argon2_m_cost_kib = 65536;
  argon2_t_cost = 3;
  argon2_p_cost = 4;
  wrap_nonce = replicate 12 5;
  wrapped_chain_key = replicate 48 6;
}

sample-IsValid : IsValid sample
sample-IsValid = record {
  format_major_fits = omega arith;
  min_reader_fits = omega arith;
  flags_fits = omega arith;
  image_uuid_fits = refl;
  chain_id_fits = refl;
  set_id_fits = refl;
  parent_uuid_fits = refl;
  seq_in_chain_fits = omega arith;
  created_unix_fits = omega arith;
  source_size_bytes_fits = omega arith;
  logical_block_size_fits = omega arith;
  chunk_size_fits = omega arith;
  kdf_id_fits = omega arith;
  aead_id_fits = omega arith;
  kdf_salt_fits = refl;
  argon2_m_cost_kib_fits = omega arith;
  argon2_t_cost_fits = omega arith;
  argon2_p_cost_fits = omega arith;
  wrap_nonce_fits = refl;
  wrapped_chain_key_fits = refl;
}

sample_header : validate_header sample ≡ ok tt
unfolding validate_header check_kdf_id is_power_of_two_in_range from_id
sample_header = refl

decode-encode_superblock_example :
    (bytes : Bytes) × (encode copying sample (some (5 ∷ [])) ≡ ok bytes)
    × (length bytes ≡ 4096)
    × (decode copying bytes ≡ ok sample)
    × (verify_mac copying bytes (some (5 ∷ [])) ≡ ok tt)
decode-encode_superblock_example =
    decode-encode_superblock copying copying-IsSound sample (some (5 ∷ [])) sample-IsValid
      sample_header
