-- ===== src/Engine/Chain.antt =====
-- crates/lr-engine/src/chain.rs: what counts as a change, and the cursor over one member's manifest.
-- A cursor is its fields but for the file name, which only messages read; the stream of pages below
-- it is the bytes left of it.
pub mod Walk
use linuxreflect.Base.{
  ℕ, ◌-◌, Bool, true, false, not, Option, none, some, ltb, ◌==◌, if◌then◌else◌, eq_bytes,
}
use linuxreflect.Base.Result.{Result, ok, err, corrupt, refuse, ◌>>=◌, ◌>>◌}
use linuxreflect.Format.Wire.{Bytes}
use linuxreflect.Format.Manifest.Header.{read_manifest_header}
use linuxreflect.Format.Manifest.Stream.{DeltaEntry, read_entry, read_delta}
use linuxreflect.Format.Manifest.Delta.{ChunkState, unused, zero_filled, stored, from_entry}

unfoldable pub is_change : ChunkState → ChunkState → Bool
is_change (stored _ left _ _) (stored _ right _ _) = not (eq_bytes left right)
is_change zero_filled zero_filled = false
is_change unused unused = false
is_change _ _ = true

pub record Cursor : Type 0 where
  pub wire : Bytes
  pub is_full : Bool
  pub chunk_count : ℕ
  pub chunk_size : ℕ
  pub remaining : ℕ
  pub pending : Option DeltaEntry

-- `Cursor::read_delta`, with its result as the next `pending`.
unfoldable pub read_pending : Cursor → Result Cursor
read_pending c = if c.remaining == 0 then ok (record c { pending = none }) else (do
  (entry, rest) ← read_delta c.wire
  ok (record c { wire = rest; remaining = c.remaining - 1; pending = some entry }))

-- `Cursor::open`
unfoldable pub open_cursor : (Bytes → Bool) → Bytes → Bool → Result Cursor
open_cursor is_utf8 stream delta = do
  ((header, header_delta), rest) ← read_manifest_header is_utf8 stream
  refuse (if delta then not header_delta else header_delta) corrupt
  let cursor : Cursor = record {
    wire = rest;
    is_full = not delta;
    chunk_count = header.chunk_count;
    chunk_size = header.chunk_size;
    remaining = header.entry_count;
    pending = none;
  }
  if delta then read_pending cursor else ok cursor

-- `Cursor::state_at` of a cursor over a full manifest.
unfoldable pub full_state_at : Cursor → Result (ChunkState × Cursor)
full_state_at c = do
  refuse (c.remaining == 0) corrupt
  (entry, rest) ← read_entry c.wire
  ok (from_entry entry, record c { wire = rest; remaining = c.remaining - 1 })

-- `Cursor::state_at` of a cursor over a delta whose next entry is `pending`.
unfoldable pub pending_state_at :
    Cursor → DeltaEntry → ℕ → ChunkState → Result (ChunkState × Cursor)
pending_state_at c pending index current =
    if ltb pending.chunk_no index
    then err corrupt
    else if ltb index pending.chunk_no
    then ok (current, c)
    else (do c' ← read_pending (record c { pending = none }); ok (from_entry pending.entry, c'))

-- `Cursor::state_at`
unfoldable pub state_at : Cursor → ℕ → ChunkState → Result (ChunkState × Cursor)
state_at c index current = if c.is_full then full_state_at c else elim c.pending [
  | none ↦ ok (current, c)
  | some pending ↦ pending_state_at c pending index current
]
