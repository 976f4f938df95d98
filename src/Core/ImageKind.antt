-- ===== src/Core/ImageKind.antt =====
-- crates/lr-core/src/lib.rs: image kinds.
use linuxreflect.Base.{ℕ, ◌==◌, if◌then◌else◌, ◌≡◌, refl, arith}
use linuxreflect.Base.Result.{Result, ok, err, corrupt}

pub data ImageKind : Type 0 where
  block stream file : ImageKind

abbrev pub as_u8 : ImageKind → ℕ
as_u8 block = 1
as_u8 stream = 2
as_u8 file = 3

unfoldable pub from_u8 : ℕ → Result ImageKind
from_u8 value =
    if value == 1
    then ok block
    else if value == 2
    then ok stream
    else if value == 3
    then ok file
    else err corrupt

pub from_u8-as_u8 : (k : ImageKind) → from_u8 (as_u8 k) ≡ ok k
unfolding from_u8
from_u8-as_u8 block = refl
from_u8-as_u8 _ = refl

pub as_u8-from_u8 : (value : ℕ) (k : ImageKind) → from_u8 value ≡ ok k → as_u8 k ≡ value
unfolding from_u8
as_u8-from_u8 value k h = ground arith
