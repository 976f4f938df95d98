-- ===== src/Format/Compress.antt =====
-- crates/lr-format/src/compress.rs: zstd, kept only where it helps.
use linuxreflect.Base.{
  ℕ, Bool, true, false, ◌&&◌, not, leb, ltb, length, if◌then◌else◌, ◌≤◌, ◌≡◌, arith,
}
use linuxreflect.Base.Result.{Result, ok, io, corrupt, unsupported, ok_or, refuse, ◌>>=◌, ◌>>◌}
use linuxreflect.Format.Wire.{Bytes}
use linuxreflect.Crypto.Aead.{Primitives, IsSound}

abbrev pub min_level : ℕ
min_level = 1

abbrev pub max_level : ℕ
max_level = 22

module _ (p : Primitives) where
  unfoldable pub compress : Bytes → ℕ → Result Bytes
  compress bytes level = do
    refuse (not (leb min_level level && leb level max_level)) unsupported
    ok_or (p.zstd_compress bytes level) io

  unfoldable pub decompress : Bytes → ℕ → Result Bytes
  decompress bytes max_output = do
    out ← ok_or (p.zstd_decompress bytes max_output) io
    refuse (ltb max_output (length out)) corrupt
    ok out

  -- The bytes to store, and whether they are compressed.
  unfoldable pub compress_if_smaller : Bytes → ℕ → Result (Bytes × Bool)
  compress_if_smaller bytes level = do
    compressed ← compress bytes level
    ok (if ltb (length compressed) (length bytes) then (compressed, true) else (bytes, false))

  pub decompress-compress :
      IsSound p
      → (bytes out : Bytes) (level limit : ℕ) → compress bytes level ≡ ok out
      → length bytes ≤ limit
      → decompress out limit ≡ ok bytes
  unfolding compress decompress
  decompress-compress s bytes out level limit e h =
      ground (arith, s.zstd_inverts bytes out level limit)
