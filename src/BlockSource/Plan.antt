-- ===== src/BlockSource/Plan.antt =====
-- crates/lr-blocksource/src/plan.rs: the chunks of a source to read.
pub mod Touched
pub mod Drain
pub mod Complete
use linuxreflect.Base.{
  ℕ, ◌+◌, ◌-◌, ◌*◌, ◌/◌, ◌%◌, ◌^◌, min, max, Bool, true, List, [], ◌∷◌, Option, none, some, leb,
  ltb, ◌==◌, ◌&&◌, if◌then◌else◌, drop,
}
use linuxreflect.Base.Result.{Result, ok, unsupported, refuse, ◌>>=◌, ◌>>◌}
use linuxreflect.FsMap.Extents.{Range}
use linuxreflect.FsMap.ExtentMap.{ExtentMap, chunk_aligned}

pub record ChunkPlan : Type 0 where
  pub index : ℕ
  pub offset : ℕ
  pub len : ℕ

pub record UsedChunks : Type 0 where
  pub chunk_size : ℕ
  pub device_size : ℕ
  pub chunk_count : ℕ
  pub regions : List Range
  pub region : ℕ
  pub next_offset : ℕ

-- `u64::div_ceil`
abbrev pub div_ceil : ℕ → ℕ → ℕ
div_ceil a b = if a % b == 0 then a / b else a / b + 1

-- `u32::try_from(len).unwrap_or(u32::MAX)`
abbrev pub to_u32 : ℕ → ℕ
to_u32 len = min len (2 ^ 32 - 1)

unfoldable pub new : ExtentMap → ℕ → ℕ → Result UsedChunks
new m chunk_size device_size = do
  refuse (chunk_size == 0) unsupported
  ok (record {
    chunk_size = chunk_size;
    device_size = device_size;
    chunk_count = div_ceil device_size chunk_size;
    regions = chunk_aligned m chunk_size device_size;
    region = 0;
    next_offset = 0;
  })

-- The sums wrap, as they do in a release build.
sum_chunks : ℕ → List Range → ℕ
sum_chunks chunk_size [] = 0
sum_chunks chunk_size ((start, end) ∷ rest) =
    (div_ceil (end - start + 1) chunk_size + sum_chunks chunk_size rest) % 2 ^ 64

unfoldable pub planned_chunks : UsedChunks → ℕ
unfolding sum_chunks
planned_chunks u = sum_chunks u.chunk_size u.regions

sum_bytes : List Range → ℕ
sum_bytes [] = 0
sum_bytes ((start, end) ∷ rest) = (end - start + 1 + sum_bytes rest) % 2 ^ 64

unfoldable pub planned_bytes : UsedChunks → ℕ
unfolding sum_bytes
planned_bytes u = sum_bytes u.regions

-- The loop of `next_chunk`, over the regions from `regions[region]` on.
unfoldable pub next_in : List Range → UsedChunks → Option ChunkPlan × UsedChunks
next_in [] u = (none, u)
next_in ((start, end) ∷ rest) u =
    let offset = max u.next_offset start in
    let skip = next_in rest (record u { region = u.region + 1; next_offset = 0 }) in
    let available = end - offset + 1 in
    let len = min (min available u.chunk_size) (u.device_size - offset) in
    if ltb end offset then skip else (
      some (record { index = offset / u.chunk_size; offset = offset; len = to_u32 len }),
      record u { next_offset = (offset + u.chunk_size) % 2 ^ 64 },
    )

unfoldable pub next_chunk : UsedChunks → Option ChunkPlan × UsedChunks
unfolding next_in
next_chunk u = next_in (drop u.region u.regions) u

unfoldable pub is_all_zero : List ℕ → Bool
is_all_zero [] = true
is_all_zero (byte ∷ bytes) = byte == 0 && is_all_zero bytes
