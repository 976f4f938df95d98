-- ===== src/Format/Wire/RoundTrip.antt =====
-- What is written is read back, whatever follows it.
use linuxreflect.Base.{
  ℕ, zero, suc, ◌+◌, ◌*◌, ◌/◌, ◌%◌, ◌^◌, ◌<◌, ◌≡◌, refl, ◌∙◌, ap, [], ◌∷◌, ◌++◌, arith, false, ltb,
  lt→ltb, length, All, length-append, take-append_of, drop-append_of,
}
use mathlib.Core.List.{append_assoc}
use native.Mathlib.Nat.{pow-suc}
use linuxreflect.Base.Result.{Error, ok, err, corrupt}
use linuxreflect.Format.Wire.{
  Bytes, IsByte, to_le_bytes, from_le_bytes, Read, ◌>>=◌, read_bytes, read_int, u16, u16_prefixed,
  put_u16_prefixed, slice,
}

pub length-to_le_bytes : (w v : ℕ) → length (to_le_bytes w v) ≡ w
unfolding to_le_bytes
length-to_le_bytes zero v = refl
length-to_le_bytes (suc w) v = ap suc (length-to_le_bytes w (v / 256))

pub to_le_bytes-IsByte : (w v : ℕ) → All IsByte (to_le_bytes w v)
unfolding to_le_bytes
to_le_bytes-IsByte zero v = tt
to_le_bytes-IsByte (suc w) v = (omega arith, to_le_bytes-IsByte w (v / 256))

pub from-to_le_bytes : (w v : ℕ) → v < 256 ^ w → from_le_bytes (to_le_bytes w v) ≡ v
unfolding to_le_bytes from_le_bytes
from-to_le_bytes zero v h = omega arith
from-to_le_bytes (suc w) v h =
    omega (arith, from-to_le_bytes w (v / 256) (omega (arith, h, pow-suc 256 w)))

pub from_le_bytes-lt : (bs : Bytes) → All IsByte bs → from_le_bytes bs < 256 ^ length bs
unfolding from_le_bytes
from_le_bytes-lt [] h = omega arith
from_le_bytes-lt (b ∷ bs) (p, h) = omega (arith, from_le_bytes-lt bs h, pow-suc 256 (length bs))

pub to-from_le_bytes :
    (bs : Bytes) → All IsByte bs → to_le_bytes (length bs) (from_le_bytes bs) ≡ bs
unfolding to_le_bytes from_le_bytes
to-from_le_bytes [] h = refl
to-from_le_bytes (b ∷ bs) (p, h) =
    let low : (b + 256 * from_le_bytes bs) % 256 ≡ b = omega arith in
    let high : (b + 256 * from_le_bytes bs) / 256 ≡ from_le_bytes bs = omega arith in
    rw (low, high, to-from_le_bytes bs h)

-- A read at the front of a concatenation.
pub read_bytes_lem :
    (n : ℕ) (bs rest : Bytes) → length bs ≡ n → read_bytes n (bs ++ rest) ≡ ok (bs, rest)
unfolding read_bytes
read_bytes_lem n bs rest h =
    let enough : ltb (length (bs ++ rest)) n ≡ false = ground (arith, length-append bs rest) in
    rw (enough, take-append_of n bs rest h, drop-append_of n bs rest h)

pub read_bytes_short : (n : ℕ) (bs : Bytes) → length bs < n → read_bytes n bs ≡ err corrupt
unfolding read_bytes
read_bytes_short n bs h = rw (lt→ltb _ _ h)

pub >>=_ok {ℓ κ} :
    {A : Type ℓ} {B : Type κ} (m : Read A) (f : A → Read B) (bytes : Bytes) {a : A} {rest : Bytes}
    → m bytes ≡ ok (a, rest)
    → (m >>= f) bytes ≡ f a rest
>>=_ok m f bytes e = rw (e, ◌>>=◌)

pub >>=_err {ℓ κ} :
    {A : Type ℓ} {B : Type κ} (m : Read A) (f : A → Read B) (bytes : Bytes) {e : Error}
    → m bytes ≡ err e
    → (m >>= f) bytes ≡ err e
>>=_err m f bytes h = rw (h, ◌>>=◌)

pub read_int_lem :
    (w v : ℕ) (rest : Bytes) → v < 256 ^ w → read_int w (to_le_bytes w v ++ rest) ≡ ok (v, rest)
unfolding read_int
read_int_lem w v rest h =
    >>=_ok (read_bytes w) _ _ (read_bytes_lem w (to_le_bytes w v) rest (length-to_le_bytes w v))
    ∙ rw (from-to_le_bytes w v h)

pub slice_lem : (w v : ℕ) (rest : Bytes) → v < 256 ^ w → slice w (to_le_bytes w v ++ rest) ≡ ok v
unfolding slice
slice_lem w v rest h =
    let enough : ltb (length (to_le_bytes w v ++ rest)) w ≡ false =
      ground (arith, length-append (to_le_bytes w v) rest, length-to_le_bytes w v) in
    rw (
      enough,
      take-append_of w (to_le_bytes w v) rest (length-to_le_bytes w v),
      from-to_le_bytes w v h,
    )

-- A string of up to 65535 bytes is written, and read back from behind its length, whatever follows
-- it.
pub u16_prefixed-put :
    (bytes out rest : Bytes)
    → length bytes < 2 ^ 16
    → (field : Bytes) × (put_u16_prefixed bytes out ≡ ok (out ++ field))
      × (u16_prefixed (field ++ rest) ≡ ok (bytes, rest))
unfolding put_u16_prefixed u16_prefixed
u16_prefixed-put bytes out rest h = (
  to_le_bytes 2 (length bytes) ++ bytes,
  rw (lt→ltb _ _ h) (rw (append_assoc out)),
  rw (append_assoc (to_le_bytes 2 (length bytes)) bytes rest) (
      >>=_ok u16 _ _ (read_int_lem 2 (length bytes) (bytes ++ rest) h)
      ∙ read_bytes_lem (length bytes) bytes rest refl),
)
