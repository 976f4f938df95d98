-- ===== src/Format/Superblock/RoundTrip.antt =====
-- A superblock that is encoded is decoded and authenticated.
use linuxreflect.Base.{
  ℕ, ◌+◌, ◌≡◌, refl, ap, ◌∙◌, Option, List, [], ◌∷◌, ◌++◌, length, take, drop, arith, replicate,
  eq_bytes_refl, length-append, take-append_of, drop-append_of, length-replicate,
}
use mathlib.Core.List.{append_assoc}
use linuxreflect.Base.Result.{ok, ◌>>=◌}
use linuxreflect.Format.Wire.{Bytes, to_le_bytes}
use linuxreflect.Crypto.Aead.{Primitives, IsSound}
use linuxreflect.Crypto.Mac.{mac32, unkeyed_mac32}
use linuxreflect.Format.Superblock.{
  Superblock, sb_magic, concat_fields, fields_of, prefix_of, authentication_key, validate_header,
  encode, decode, fields_at, verify_mac,
}
use linuxreflect.Format.Superblock.Layout.{IsValid, fields_at_lem}

concat_fields-append :
    (fields : List Bytes) (a b : Bytes)
    → concat_fields fields a ++ b ≡ concat_fields fields (a ++ b)
concat_fields-append [] a b = refl
concat_fields-append (field ∷ fields) a b =
    append_assoc field (concat_fields fields a) b
    ∙ ap (λ xs. field ++ xs) (concat_fields-append fields a b)

abbrev total : List Bytes → ℕ
total [] = 0
total (field ∷ fields) = length field + total fields

length-concat_fields :
    (fields : List Bytes) (rest : Bytes)
    → length (concat_fields fields rest) ≡ total fields + length rest
length-concat_fields [] rest = omega arith
length-concat_fields (field ∷ fields) rest =
    omega (arith, length-append field (concat_fields fields rest), length-concat_fields fields rest)

total-fields_of : (s : Superblock) → IsValid s → total (fields_of s) ≡ 214
unfolding to_le_bytes
total-fields_of s v = omega (
  arith, v.image_uuid_fits, v.chain_id_fits, v.set_id_fits, v.parent_uuid_fits, v.kdf_salt_fits,
  v.wrap_nonce_fits, v.wrapped_chain_key_fits,
)

zeros : (n : ℕ) → length (replicate {A = ℕ} n 0) ≡ n
zeros n = length-replicate {A = ℕ} n 0

length-prefix_of : (s : Superblock) → IsValid s → length (prefix_of s) ≡ 1024
length-prefix_of s v =
    omega
      (arith, length-concat_fields (fields_of s) (replicate 810 0), total-fields_of s v, zeros 810)

module _ (p : Primitives) (sound : IsSound p) (s : Superblock) (v : IsValid s)
    (key : Option Bytes) where
  abbrev hash_of : Bytes
  hash_of = unkeyed_mac32 p (prefix_of s)

  abbrev hashed : Bytes
  hashed = prefix_of s ++ hash_of

  abbrev mac_of : Bytes
  mac_of = mac32 p (authentication_key p key) hashed

  abbrev encoded : Bytes
  encoded = (hashed ++ mac_of) ++ replicate 3008 0

  length-hashed : length hashed ≡ 1056
  length-hashed = omega (
    arith,
    length-append (prefix_of s) hash_of,
    length-prefix_of s v,
    sound.length_hash (prefix_of s),
  )

  length-encoded : length encoded ≡ 4096
  length-encoded = omega (
    arith,
    length-append (hashed ++ mac_of) (replicate 3008 0),
    length-append hashed mac_of,
    length-hashed,
    sound.length_keyed_hash (authentication_key p key) hashed,
    zeros 3008,
  )

  from_prefix : encoded ≡ prefix_of s ++ (hash_of ++ (mac_of ++ replicate 3008 0))
  from_prefix =
      append_assoc hashed mac_of (replicate 3008 0)
      ∙ append_assoc (prefix_of s) hash_of (mac_of ++ replicate 3008 0)

  from_fields :
      encoded
      ≡ concat_fields (fields_of s) (replicate 810 0 ++ (hash_of ++ (mac_of ++ replicate 3008 0)))
  from_fields =
      from_prefix
      ∙ concat_fields-append (fields_of s) (replicate 810 0)
          (hash_of ++ (mac_of ++ replicate 3008 0))

  prefix_read : take 1024 encoded ≡ prefix_of s
  prefix_read =
      ap (λ bs. take 1024 bs) from_prefix
      ∙ take-append_of 1024 (prefix_of s) (hash_of ++ (mac_of ++ replicate 3008 0))
          (length-prefix_of s v)

  hash_read : take 32 (drop 1024 encoded) ≡ hash_of
  hash_read =
      ap (λ bs. take 32 (drop 1024 bs)) from_prefix
      ∙ ap (λ bs. take 32 bs)
          (drop-append_of 1024 (prefix_of s) (hash_of ++ (mac_of ++ replicate 3008 0))
            (length-prefix_of s v))
      ∙ take-append_of 32 hash_of (mac_of ++ replicate 3008 0) (sound.length_hash (prefix_of s))

  from_hashed : encoded ≡ hashed ++ (mac_of ++ replicate 3008 0)
  from_hashed = append_assoc hashed mac_of (replicate 3008 0)

  hashed_read : take 1056 encoded ≡ hashed
  hashed_read =
      ap (λ bs. take 1056 bs) from_hashed
      ∙ take-append_of 1056 hashed (mac_of ++ replicate 3008 0) length-hashed

  mac_read : take 32 (drop 1056 encoded) ≡ mac_of
  mac_read =
      ap (λ bs. take 32 (drop 1056 bs)) from_hashed
      ∙ ap (λ bs. take 32 bs)
          (drop-append_of 1056 hashed (mac_of ++ replicate 3008 0) length-hashed)
      ∙ take-append_of 32 mac_of (replicate 3008 0)
          (sound.length_keyed_hash (authentication_key p key) hashed)

  magic_read : take 8 encoded ≡ sb_magic
  magic_read = refl

  decode-encoded : validate_header s ≡ ok tt → decode p encoded ≡ ok s
  unfolding decode
  decode-encoded h =
      let fields_read : fields_at p encoded ≡ ok s =
        rw from_fields
          (fields_at_lem s v (replicate 810 0 ++ (hash_of ++ (mac_of ++ replicate 3008 0))) p) in
      rw
        (
          magic_read,
          eq_bytes_refl sb_magic,
          hash_read,
          prefix_read,
          eq_bytes_refl hash_of,
          fields_read,
          ◌>>=◌,
          h,
        )
        refl

  verify_mac-encoded : verify_mac p encoded key ≡ ok tt
  unfolding verify_mac
  verify_mac-encoded = rw (mac_read, hashed_read, eq_bytes_refl mac_of) refl

-- A superblock whose fields have their widths and whose header is valid is encoded in 4096 bytes, with
-- or without a key; from them it is decoded again, every field from its offset, and its MAC verifies
-- with that key.
pub decode-encode_superblock :
    (p : Primitives)
    → IsSound p
    → (s : Superblock) (key : Option Bytes) → IsValid s
    → validate_header s ≡ ok tt
    → (bytes : Bytes) × (encode p s key ≡ ok bytes)
      × (length bytes ≡ 4096)
      × (decode p bytes ≡ ok s)
      × (verify_mac p bytes key ≡ ok tt)
unfolding encode
decode-encode_superblock p sound s key v h = (
  encoded p sound s v key,
  rw h refl,
  length-encoded p sound s v key,
  decode-encoded p sound s v key h,
  verify_mac-encoded p sound s v key,
)
