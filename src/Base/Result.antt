-- ===== src/Base/Result.antt =====
-- crates/lr-core/src/error.rs: the error contract, and fallible code as values.
-- The texts and the payloads of the variants are not modelled: no code under study reads them.
use mathlib.Core.Path.{◌≡◌, refl}
use mathlib.Core.Bool.{Bool, true, false}
use mathlib.Core.Logic.{◌⊎◌, inl, inr}
use mathlib.Core.Option.{Option, none, some}

pub data Error : Type 0 where
  io bad_sector no_space network_timeout snapshot_overflow freeze_timeout : Error
  stream_parent_missing no_consistent_method set_locked target_changed target_busy : Error
  aead corrupt cancelled denied unsupported : Error

pub data Result {ℓ} (Value : Type ℓ) : Type ℓ where
  ok : Value → Result Value
  err : Error → Result Value

-- `if test { return Err(e) }`
abbrev pub refuse : Bool → Error → Result (Unit {0})
refuse test e = elim test [ true ↦ err e | false ↦ ok tt ]

-- `ok_or`
abbrev pub ok_or {ℓ} : {Value : Type ℓ} → Option Value → Error → Result Value
ok_or found e = elim found [ some a ↦ ok a | none ↦ err e ]

infixl 5 ◌>>=◌ ◌>>◌
-- `?`
abbrev pub ◌>>=◌ {ℓ κ} :
    {Value : Type ℓ} {Next : Type κ} (first : Result Value) (rest : Value → Result Next)
    → Result Next
first >>= rest = elim first [ err e ↦ err e | ok a ↦ rest a ]

abbrev pub ◌>>◌ {κ} :
    {Next : Type κ} (first : Result (Unit {0})) (second : Result Next) → Result Next
first >> second = first >>= λ done. second

pub Result-cases {ℓ} :
    {Value : Type ℓ} (r : Result Value) → ((a : Value) × (r ≡ ok a)) ⊎ ((e : Error) × (r ≡ err e))
Result-cases (ok a) = inl (a, refl)
Result-cases (err e) = inr (e, refl)

-- A test that is followed by something that succeeds did not refuse.
pub refuse_passed :
    {B : Type 0} (test : Bool) (e : Error) (rest : Result B) (b : B)
    → (refuse test e >> rest) ≡ ok b
    → (test ≡ false) × (rest ≡ ok b)
refuse_passed true e rest b h = absurd (cc)
refuse_passed false e rest b h = (refl, h)

-- A last test that succeeds did not refuse.
pub refuse_last : (test : Bool) (e : Error) → refuse test e ≡ ok tt → test ≡ false
refuse_last true e h = absurd (cc)
refuse_last false e h = refl
