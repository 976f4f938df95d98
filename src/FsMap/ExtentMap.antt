-- ===== src/FsMap/ExtentMap.antt =====
-- crates/lr-fsmap/src/lib.rs: the used-byte map and its rounding to chunks.
pub mod Aligned
use linuxreflect.Base.{
  ℕ, ◌+◌, ◌-◌, ◌*◌, ◌/◌, ◌%◌, ◌^◌, min, Bool, true, false, List, [], ◌∷◌, leb, ◌==◌, if◌then◌else◌,
}
use linuxreflect.FsMap.Extents.{Range, saturating_add, merge}

pub record ExtentMap : Type 0 where
  pub extents : List Range
  pub complete : Bool

-- `whole_device`, from the size that the device or its file reports.
unfoldable pub whole_device : ℕ → ExtentMap
whole_device size = record {
  extents = if size == 0 then [] else (0, size - 1) ∷ [];
  complete = false;
}

-- The sum wraps, as it does in a release build.
sum_lengths : List Range → ℕ
sum_lengths [] = 0
sum_lengths ((start, end) ∷ rest) = (end - start + 1 + sum_lengths rest) % 2 ^ 64

unfoldable pub covered_bytes : ExtentMap → ℕ
unfolding sum_lengths
covered_bytes m = sum_lengths m.extents

unfoldable pub is_empty : ExtentMap → Bool
is_empty m = elim m.extents [ [] ↦ true | x ∷ xs ↦ false ]

-- The `filter_map` of `chunk_aligned`.
unfoldable pub round_out : ℕ → ℕ → List Range → List Range
round_out chunk_size device_size [] = []
round_out chunk_size device_size ((start, end) ∷ rest) =
    let first = start / chunk_size * chunk_size in
    let last =
      min (saturating_add (end / chunk_size * chunk_size) (chunk_size - 1)) (device_size - 1) in
    let later = round_out chunk_size device_size rest in
    if leb first last then (first, last) ∷ later else later

unfoldable pub chunk_aligned : ExtentMap → ℕ → ℕ → List Range
unfolding round_out
chunk_aligned m chunk_size device_size =
    if chunk_size == 0 then m.extents else merge (round_out chunk_size device_size m.extents)
