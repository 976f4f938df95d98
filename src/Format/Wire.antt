-- ===== src/Format/Wire.antt =====
-- crates/lr-format/src/wire.rs: little-endian fields, written to a byte vector and read from one.
-- A sink is the vector written so far, so its writes do not fail; a source is the bytes left.
pub mod RoundTrip
use linuxreflect.Base.{
  ℕ, zero, suc, ◌+◌, ◌*◌, ◌/◌, ◌%◌, ◌^◌, ◌<◌, Bool, List, [], ◌∷◌, ◌++◌, ltb, length, take, drop,
  if◌then◌else◌, All,
}
use linuxreflect.Base.Result.{Result, ok, err, corrupt, unsupported}

abbrev pub Bytes : Type 0
Bytes = List ℕ

abbrev pub IsByte : ℕ → Type 0
IsByte b = b < 256

-- `to_le_bytes` of a `w`-byte integer.
unfoldable pub to_le_bytes : ℕ → ℕ → Bytes
to_le_bytes zero value = []
to_le_bytes (suc w) value = (value % 256) ∷ to_le_bytes w (value / 256)

-- `from_le_bytes`
unfoldable pub from_le_bytes : Bytes → ℕ
from_le_bytes [] = 0
from_le_bytes (b ∷ bs) = b + 256 * from_le_bytes bs

abbrev pub Write : Type 0
Write = Bytes → Result Bytes

abbrev pub put_bytes : Bytes → Write
put_bytes bytes out = ok (out ++ bytes)

abbrev pub put_u8 : ℕ → Write
put_u8 value = put_bytes (value ∷ [])

abbrev pub put_u16 : ℕ → Write
put_u16 value = put_bytes (to_le_bytes 2 value)

abbrev pub put_u32 : ℕ → Write
put_u32 value = put_bytes (to_le_bytes 4 value)

abbrev pub put_u64 : ℕ → Write
put_u64 value = put_bytes (to_le_bytes 8 value)

-- An `Id` is its 16 bytes.
abbrev pub put_id : Bytes → Write
put_id value = put_bytes value

infixl 20 ◌then_put◌
-- `first(out)?; second(out)`
abbrev pub ◌then_put◌ : Write → Write → Write
◌then_put◌ first second out = elim (first out) [ ok out' ↦ second out' | err e ↦ err e ]

unfoldable pub put_u16_prefixed : Bytes → Write
put_u16_prefixed bytes out =
    if ltb (length bytes) (2 ^ 16)
    then (put_u16 (length bytes) then_put put_bytes bytes) out
    else err unsupported

unfoldable pub put_u32_prefixed : Bytes → Write
put_u32_prefixed bytes out =
    if ltb (length bytes) (2 ^ 32)
    then (put_u32 (length bytes) then_put put_bytes bytes) out
    else err unsupported

abbrev pub Read {ℓ} : Type ℓ → Type ℓ
Read A = Bytes → Result (A × Bytes)

infixl 5 ◌>>=◌ ◌>>◌
abbrev pub ◌>>=◌ {ℓ κ} : {A : Type ℓ} {B : Type κ} → Read A → (A → Read B) → Read B
◌>>=◌ m f bytes = elim (m bytes) [ ok (a, rest) ↦ f a rest | err e ↦ err e ]

abbrev pub ◌>>◌ {ℓ κ} : {A : Type ℓ} {B : Type κ} → Read A → Read B → Read B
m >> k = m >>= λ _. k

abbrev pub pure {ℓ} : {A : Type ℓ} → A → Read A
pure a bytes = ok (a, bytes)

abbrev pub lift {ℓ} : {A : Type ℓ} → Result A → Read A
lift (ok a) bytes = ok (a, bytes)
lift (err e) bytes = err e

-- `read_bytes` into a buffer of `len` bytes, and the array and vector reads made of it.
unfoldable pub read_bytes : ℕ → Read Bytes
read_bytes len bytes =
    if ltb (length bytes) len then err corrupt else ok (take len bytes, drop len bytes)

-- An integer of `w` bytes: `from_le_bytes` of an array that is read.
unfoldable pub read_int : ℕ → Read ℕ
read_int w = do b ← read_bytes w; pure (from_le_bytes b)

abbrev pub u8 : Read ℕ
u8 = read_int 1

abbrev pub u16 : Read ℕ
u16 = read_int 2

abbrev pub u32 : Read ℕ
u32 = read_int 4

abbrev pub u64 : Read ℕ
u64 = read_int 8

abbrev pub id : Read Bytes
id = read_bytes 16

unfoldable pub u16_prefixed : Read Bytes
u16_prefixed = do len ← u16; read_bytes len

unfoldable pub u32_prefixed : Read Bytes
u32_prefixed = do len ← u32; read_bytes len

-- `slice_u16`, `slice_u32` and `slice_u64` read the front of a slice.
unfoldable pub slice : ℕ → Bytes → Result ℕ
slice w bytes = if ltb (length bytes) w then err corrupt else ok (from_le_bytes (take w bytes))

abbrev pub slice_u16 : Bytes → Result ℕ
slice_u16 = slice 2

abbrev pub slice_u32 : Bytes → Result ℕ
slice_u32 = slice 4

abbrev pub slice_u64 : Bytes → Result ℕ
slice_u64 = slice 8
