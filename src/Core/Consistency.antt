-- ===== src/Core/Consistency.antt =====
-- crates/lr-core/src/consistency.rs: consistency levels.
use linuxreflect.Base.{ℕ, Bool, true, false, leb, ◌==◌, if◌then◌else◌, ◌≡◌, refl, arith}
use linuxreflect.Base.Result.{Result, ok, err, corrupt}

pub data Consistency : Type 0 where
  point_in_time frozen offline per_file none : Consistency

unfoldable pub strength : Consistency → ℕ
strength point_in_time = 4
strength frozen = 3
strength offline = 2
strength per_file = 1
strength none = 0

unfoldable pub is_point_in_time : Consistency → Bool
is_point_in_time point_in_time = true
is_point_in_time _ = false

-- The weaker of two levels.
unfoldable pub minimum : Consistency → Consistency → Consistency
unfolding strength
minimum a b = if leb (strength a) (strength b) then a else b

abbrev pub as_u8 : Consistency → ℕ
as_u8 point_in_time = 0
as_u8 frozen = 1
as_u8 offline = 2
as_u8 per_file = 3
as_u8 none = 4

unfoldable pub from_u8 : ℕ → Result Consistency
from_u8 value =
    if value == 0
    then ok point_in_time
    else if value == 1
    then ok frozen
    else if value == 2
    then ok offline
    else if value == 3
    then ok per_file
    else if value == 4
    then ok none
    else err corrupt

pub from_u8-as_u8 : (c : Consistency) → from_u8 (as_u8 c) ≡ ok c
unfolding from_u8
from_u8-as_u8 point_in_time = refl
from_u8-as_u8 _ = refl

pub as_u8-from_u8 : (value : ℕ) (c : Consistency) → from_u8 value ≡ ok c → as_u8 c ≡ value
unfolding from_u8
as_u8-from_u8 value c h = ground arith
