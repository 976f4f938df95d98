-- ===== src/Examples/Sealing.antt =====
-- crates/lr-format and crates/lr-crypto, with a cipher that changes nothing and a compressor that
-- copies.
use linuxreflect.Base.{
  ◌-◌, ◌≤◌, ◌^◌, ◌≡◌, refl, ◌++◌, true, some, List, [], ◌∷◌, arith, length, replicate, All,
}
use linuxreflect.Base.Result.{ok, err, corrupt}
use linuxreflect.Core.ImageKind.{block}
use linuxreflect.Format.Wire.{Bytes, u16_prefixed, put_u16_prefixed}
use linuxreflect.Format.Wire.RoundTrip.{u16_prefixed-put}
use linuxreflect.Format.Chunk.{
  ChunkRecord, ChunkOptions, encode, decode, total_len, seal_chunk, open_chunk,
}
use linuxreflect.Format.Chunk.Record.{IsValid, decode-encode}
use linuxreflect.Format.Chunk.Seal.{open-seal_chunk}
use linuxreflect.Crypto.Nonce.{NonceSeq, draw, value_of, Distinct, draw-Distinct, draw-exhausted}
use linuxreflect.Crypto.Aead.{Cipher, Primitives, IsCipher, IsSound, aes_256_gcm}

abbrev pub copying_cipher : Cipher
copying_cipher = record {
  encrypt = λ key nonce aad buf. some (buf, replicate 16 0);
  decrypt = λ key nonce aad buf tag. some buf;
}

copying_cipher-IsCipher : IsCipher copying_cipher
copying_cipher-IsCipher = record {
  encrypts = λ key nonce aad buf h. ((buf, replicate 16 0), refl);
  decrypt-encrypt = λ key nonce aad buf out tag e. cc;
  length_out = λ key nonce aad buf out tag e. cc;
  length_tag = λ key nonce aad buf out tag e. ground arith;
}

abbrev pub copying : Primitives
copying = record {
  aes = copying_cipher;
  chacha = copying_cipher;
  keyed_hash = λ key data_in. replicate 32 (length data_in);
  hash = λ data_in. replicate 32 (length data_in);
  derive_key = λ context material. replicate 32 (length context);
  zstd_compress = λ data_in level. some data_in;
  zstd_decompress = λ data_in limit. some data_in;
}

pub copying-IsSound : IsSound copying
copying-IsSound = record {
  aes_sound = copying_cipher-IsCipher;
  chacha_sound = copying_cipher-IsCipher;
  length_keyed_hash = λ key data_in. refl;
  length_hash = λ data_in. refl;
  zstd_compresses = λ data_in level h k. (data_in, refl);
  zstd_inverts = λ data_in out level limit e h. cc;
}

abbrev sealed_record : ChunkRecord
sealed_record = record {
  flags = 2;
  nonce = replicate 12 7;
  payload = 1 ∷ 2 ∷ [];
  tag = some (replicate 16 9);
}

sealed_record-IsValid : IsValid sealed_record
sealed_record-IsValid = record {
  flags_byte = omega arith;
  flags_known = refl;
  nonce_length = refl;
  payload_length = omega arith;
  tag_fits = refl;
}

abbrev three_bytes : Bytes
three_bytes = 1 ∷ 2 ∷ 3 ∷ []

abbrev options : ChunkOptions
options = record { kind = aes_256_gcm; level = 3; compress = true }

abbrev fresh_seq : NonceSeq
fresh_seq = record { counter = 5 }

u16_prefixed-put_example :
    (field : Bytes) × (put_u16_prefixed three_bytes [] ≡ ok ([] ++ field))
    × (u16_prefixed (field ++ (4 ∷ [])) ≡ ok (three_bytes, 4 ∷ []))
u16_prefixed-put_example = u16_prefixed-put three_bytes [] (4 ∷ []) (omega arith)

decode-encode_example :
    (bytes : Bytes) × (encode sealed_record ≡ ok bytes)
    × (length bytes ≡ total_len sealed_record)
    × (decode (bytes ++ (8 ∷ [])) ≡ ok sealed_record)
decode-encode_example = decode-encode sealed_record (8 ∷ []) sealed_record-IsValid

open-seal_chunk_example :
    (bytes hash : Bytes) × (seq' : NonceSeq) × (seal_chunk copying options
        (some (5 ∷ []))
        (6 ∷ [])
        block
        fresh_seq
        three_bytes
      ≡ ok ((bytes, hash), seq'))
    × (open_chunk copying aes_256_gcm (some (5 ∷ [])) (6 ∷ []) block hash 3 (bytes ++ (8 ∷ []))
        ≡ ok three_bytes)
open-seal_chunk_example =
    open-seal_chunk copying copying-IsSound options (some (5 ∷ [])) (6 ∷ []) block fresh_seq
      three_bytes (8 ∷ []) 3 (omega arith) (omega arith) (omega arith) (omega arith) (omega arith)

draw-Distinct_example :
    (ns : List Bytes) × (draw 3 fresh_seq ≡ ok (ns, record { counter = 8 }))
    × All (λ n. 5 ≤ value_of n) ns
    × Distinct ns
draw-Distinct_example = draw-Distinct 3 fresh_seq (omega arith)

draw-exhausted_example : draw 2 (record { counter = 2 ^ 96 - 1 }) ≡ err corrupt
draw-exhausted_example = draw-exhausted 1 (record { counter = 2 ^ 96 - 1 }) (omega arith)
