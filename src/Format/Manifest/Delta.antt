-- ===== src/Format/Manifest/Delta.antt =====
-- crates/lr-format/src/manifest.rs: the states of chunks, and a delta on top of them.
use linuxreflect.Base.{
  ℕ, zero, suc, ◌<◌, ◌≤◌, ◌≡◌, refl, ◌∙◌, ap, true, Option, none, some, List, [], ◌∷◌, length,
  get_elem?, All, any, leb, ◌==◌, if◌then◌else◌, arith, Bool-cases, inl, inr,
}
use linuxreflect.Base.Result.{Result, ok, err, corrupt, ok_or, ◌>>=◌}
use linuxreflect.Format.Wire.{Bytes}
use linuxreflect.Format.Manifest.Entry.{BlockEntry, state_zero, state_stored, state_bad_sector}
use linuxreflect.Format.Manifest.Stream.{DeltaEntry}

pub data ChunkState : Type 0 where
  unused zero_filled bad_sector : ChunkState
  stored : ℕ → Bytes → ℕ → ℕ → ChunkState

-- `ChunkState::from`
unfoldable pub from_entry : BlockEntry → ChunkState
from_entry e =
    if e.state == state_stored
    then stored e.member e.hash e.offset e.stored_len
    else if e.state == state_zero
    then zero_filled
    else if e.state == state_bad_sector
    then bad_sector
    else unused

-- `*parent.get_mut(index)? = state`; a `u64` index fits a `usize` of 64 bits.
unfoldable pub set_state : ℕ → ChunkState → List ChunkState → Option (List ChunkState)
set_state index state [] = none
set_state zero state (x ∷ xs) = some (state ∷ xs)
set_state (suc index) state (x ∷ xs) = elim (set_state index state xs) [
  | some ys ↦ some (x ∷ ys)
  | none ↦ none
]

unfoldable pub apply_delta : List ChunkState → List DeltaEntry → Result (List ChunkState)
apply_delta parent [] = ok parent
apply_delta parent (d ∷ delta) = do
  parent' ← ok_or (set_state d.chunk_no (from_entry d.entry) parent) corrupt
  apply_delta parent' delta

-- The state of chunk `i` behind a delta: that of the last entry for it, or the one before.
unfoldable pub state_after : ℕ → List DeltaEntry → Option ChunkState → Option ChunkState
state_after i [] state = state
state_after i (d ∷ delta) state =
    state_after i delta (if d.chunk_no == i then some (from_entry d.entry) else state)

set_state_in :
    (n : ℕ) (s : ChunkState) (xs : List ChunkState)
    → n < length xs
    → (ys : List ChunkState) × (set_state n s xs ≡ some ys)
      × (length ys ≡ length xs)
      × ((i : ℕ) → get_elem? ys i ≡ (if n == i then some s else get_elem? xs i))
unfolding set_state
set_state_in n s [] h = absurd (omega arith)
set_state_in zero s (x ∷ xs) h = (s ∷ xs, refl, refl, here)
  where
    here : (i : ℕ) → get_elem? (s ∷ xs) i ≡ (if zero == i then some s else get_elem? (x ∷ xs) i)
    here zero = refl
    here (suc i) = ground arith
set_state_in (suc n) s (x ∷ xs) h =
    let (ys, e, l, f) = set_state_in n s xs (omega arith) in (x ∷ ys, rw e, ap suc l, there ys f)
  where
    there :
        (ys : List ChunkState)
        → ((i : ℕ) → get_elem? ys i ≡ (if n == i then some s else get_elem? xs i))
        → (i : ℕ) → get_elem? (x ∷ ys) i ≡ (if suc n == i then some s else get_elem? (x ∷ xs) i)
    there ys f zero = ground arith
    there ys f (suc i) = ground (arith, f i)

set_state_out :
    (n : ℕ) (s : ChunkState) (xs : List ChunkState) → length xs ≤ n → set_state n s xs ≡ none
unfolding set_state
set_state_out n s [] h = refl
set_state_out zero s (x ∷ xs) h = absurd (omega arith)
set_state_out (suc n) s (x ∷ xs) h = rw (set_state_out n s xs (omega arith))

-- With every entry inside the image, `apply_delta` succeeds, keeps the number of chunks, and gives
-- each chunk the state of its last entry, or leaves it.
pub apply_delta_lem :
    (delta : List DeltaEntry) (parent : List ChunkState)
    → All (λ d. d.chunk_no < length parent) delta
    → (out : List ChunkState) × (apply_delta parent delta ≡ ok out)
      × (length out ≡ length parent)
      × ((i : ℕ) → get_elem? out i ≡ state_after i delta (get_elem? parent i))
unfolding apply_delta state_after
apply_delta_lem [] parent h = (parent, refl, refl, λ i. refl)
apply_delta_lem (d ∷ delta) parent (p, h) =
    let (next, e, l, f) = set_state_in d.chunk_no (from_entry d.entry) parent p in
    let (out, e', l', f') = apply_delta_lem delta next (rw l h) in
    (out, rw (e, ◌>>=◌) e', l' ∙ l, λ i. f' i ∙ rw (f i))

-- An entry past the image makes `apply_delta` answer `corrupt`.
pub apply_delta-out :
    (delta : List DeltaEntry) (parent : List ChunkState)
    → any (λ d. leb (length parent) d.chunk_no) delta ≡ true
    → apply_delta parent delta ≡ err corrupt
unfolding apply_delta
apply_delta-out [] parent h = cc
apply_delta-out (d ∷ delta) parent h = elim (Bool-cases (leb (length parent) d.chunk_no)) [
  | inl e ↦ rw (set_state_out d.chunk_no (from_entry d.entry) parent (ground arith))
  | inr e ↦
      let (next, f, l, g) = set_state_in d.chunk_no (from_entry d.entry) parent (ground arith) in
      rw (f, ◌>>=◌) (apply_delta-out delta next (rw l (ground arith)))
]
