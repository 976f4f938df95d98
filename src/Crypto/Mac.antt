-- ===== src/Crypto/Mac.antt =====
-- crates/lr-crypto/src/mac.rs: authentication of headers. BLAKE3 is third-party code.
use linuxreflect.Base.{Bool, [], ◌∷◌, eq_bytes}
use linuxreflect.Format.Wire.{Bytes}
use linuxreflect.Crypto.Aead.{Primitives}

-- `lrimg-v1/no-encrypt-mac`, in ASCII.
abbrev pub no_encrypt_context : Bytes
no_encrypt_context =
    108 ∷ 114 ∷ 105 ∷ 109 ∷ 103 ∷ 45 ∷ 118 ∷ 49 ∷ 47 ∷ 110 ∷ 111 ∷ 45 ∷ 101 ∷ 110 ∷ 99 ∷ 114 ∷ 121
    ∷ 112 ∷ 116 ∷ 45 ∷ 109 ∷ 97 ∷ 99 ∷ []

module _ (p : Primitives) where
  abbrev pub mac32 : Bytes → Bytes → Bytes
  mac32 key data_in = p.keyed_hash key data_in

  abbrev pub unkeyed_mac32 : Bytes → Bytes
  unkeyed_mac32 data_in = p.hash data_in

  abbrev pub verify_mac32 : Bytes → Bytes → Bytes → Bool
  verify_mac32 key data_in expected = eq_bytes expected (mac32 key data_in)

  abbrev pub fixed_public_mac_key : Bytes
  fixed_public_mac_key = p.derive_key no_encrypt_context []
