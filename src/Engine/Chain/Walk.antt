-- ===== src/Engine/Chain/Walk.antt =====
-- Reading the states of a delta manifest through its cursor, chunk after chunk.
use linuxreflect.Base.{
  ℕ, zero, suc, ◌+◌, ◌-◌, ◌<◌, ◌≤◌, ◌^◌, ◌≡◌, refl, ◌∙◌, sym, subst, ap, Bool, true, false, Option,
  none, some, List, [], ◌∷◌, ◌++◌, length, get_elem?, ltb, All, ◌==◌, if◌then◌else◌, arith,
  Bool-cases, inl, inr,
}
use linuxreflect.Base.Result.{Result, ok, ◌>>=◌}
use linuxreflect.Format.Wire.{Bytes}
use linuxreflect.Format.Manifest.Entry as Entry
use linuxreflect.Format.Manifest.Header.{BlockManifestHeader}
use linuxreflect.Format.Manifest.Header.RoundTrip as Header
use linuxreflect.Format.Manifest.Header.RoundTrip.{header_bytes, read_lem}
use linuxreflect.Format.Manifest.Stream.{DeltaEntry, delta_bytes, read_delta_lem}
use linuxreflect.Format.Manifest.Delta.{
  ChunkState, from_entry, state_after, apply_delta, apply_delta_lem,
}
use linuxreflect.Engine.Chain.{Cursor, read_pending, pending_state_at, state_at, open_cursor}

-- The entries are ones that `write_delta` writes, and their chunk numbers ascend from `from`.
unfoldable pub Ascending : ℕ → List DeltaEntry → Type 0
Ascending from [] = Unit
Ascending from (d ∷ ds) =
    (from ≤ d.chunk_no)
    × (d.chunk_no < 2 ^ 64)
    × Entry.IsValid d.entry
    × Ascending (suc d.chunk_no) ds

abbrev pub stream_of : List DeltaEntry → Bytes → Bytes
stream_of [] more = more
stream_of (d ∷ ds) more = delta_bytes d ++ stream_of ds more

-- The delta cursor that has read the first of these entries.
abbrev pub cursor_of : Cursor → List DeltaEntry → Bytes → Cursor
cursor_of c [] more = record c { is_full = false; wire = more; remaining = 0; pending = none }
cursor_of c (d ∷ ds) more = record c {
  is_full = false;
  wire = stream_of ds more;
  remaining = length ds;
  pending = some d;
}

-- The states of the chunks from `index` on, read through one cursor over those of its parent, and the
-- cursor after them.
unfoldable pub walk : Cursor → ℕ → List ChunkState → Result (List ChunkState × Cursor)
walk c index [] = ok ([], c)
walk c index (current ∷ rest) = do
  (state, c') ← state_at c index current
  (states, c'') ← walk c' (suc index) rest
  ok (state ∷ states, c'')

-- What the delta makes of the parent's states from chunk `index` on.
unfoldable pub merged : List DeltaEntry → ℕ → List ChunkState → List ChunkState
merged [] index states = states
merged (d ∷ ds) index [] = []
merged (d ∷ ds) index (current ∷ rest) =
    let here = from_entry d.entry ∷ merged ds (suc index) rest in
    let later = current ∷ merged (d ∷ ds) (suc index) rest in
    if d.chunk_no == index then here else later

read_pending_lem :
    (c : Cursor) (n : ℕ) (ds : List DeltaEntry) (more : Bytes)
    → Ascending n ds
    → read_pending (record c {
      is_full = false;
      wire = stream_of ds more;
      remaining = length ds;
      pending = none;
    })
      ≡ ok (cursor_of c ds more)
unfolding read_pending Ascending
read_pending_lem c n [] more h = refl
read_pending_lem c n (d ∷ ds) more (p, q, v, h) =
    let some_left : (suc (length ds) == 0) ≡ false = ground arith in
    let one_less : suc (length ds) - 1 ≡ length ds = omega arith in
    rw (some_left, read_delta_lem d (stream_of ds more) q v, ◌>>=◌, one_less)

-- All entries lie below `bound`.
abbrev pub Below : ℕ → List DeltaEntry → Type 0
Below bound ds = All (λ d. d.chunk_no < bound) ds

walk-cons :
    (c c' c'' : Cursor) (index : ℕ) (current state : ChunkState) (rest states : List ChunkState)
    → state_at c index current ≡ ok (state, c')
    → walk c' (suc index) rest ≡ ok (states, c'')
    → walk c index (current ∷ rest) ≡ ok (state ∷ states, c'')
unfolding walk
walk-cons c c' c'' index current state rest states e f = rw (e, ◌>>=◌, f)

module _ (c : Cursor) (more : Bytes) where
  state_at-here :
      (index : ℕ) (current : ChunkState) (d : DeltaEntry) (ds : List DeltaEntry)
      → d.chunk_no ≡ index
      → Ascending (suc index) ds
      → state_at (cursor_of c (d ∷ ds) more) index current
        ≡ ok (from_entry d.entry, cursor_of c ds more)
  unfolding state_at pending_state_at
  state_at-here index current d ds e h =
      let not_before : ltb d.chunk_no index ≡ false = ground arith in
      let not_after : ltb index d.chunk_no ≡ false = ground arith in
      rw (not_before, not_after, read_pending_lem c (suc index) ds more h, ◌>>=◌)

  state_at-later :
      (index : ℕ) (current : ChunkState) (d : DeltaEntry) (ds : List DeltaEntry)
      → index < d.chunk_no
      → state_at (cursor_of c (d ∷ ds) more) index current ≡ ok (current, cursor_of c (d ∷ ds) more)
  unfolding state_at pending_state_at
  state_at-later index current d ds h =
      let not_before : ltb d.chunk_no index ≡ false = ground arith in
      let after : ltb index d.chunk_no ≡ true = ground arith in rw (not_before, after)

  walk_lem :
      (states : List ChunkState) (index : ℕ) (ds : List DeltaEntry)
      → Ascending index ds
      → Below (index + length states) ds
      → walk (cursor_of c ds more) index states ≡ ok (merged ds index states, cursor_of c [] more)
  unfolding Ascending merged
  walk_lem [] index [] h b = unfold walk in refl
  walk_lem [] index (d ∷ ds) (p, q, v, h) (r, b) = absurd (omega arith)
  walk_lem (s ∷ states) index [] h b =
      walk-cons (cursor_of c [] more) (cursor_of c [] more) (cursor_of c [] more) index s s states
        states (unfold state_at in refl) (walk_lem states (suc index) [] tt tt)
  walk_lem (s ∷ states) index (d ∷ ds) (p, q, v, h) (r, b) =
      let next : index + length (s ∷ states) ≡ suc index + length states = omega arith in
      let below : Below (suc index + length states) ds = subst (λ n. Below n ds) next b in
      elim (Bool-cases (d.chunk_no == index)) [
        | inl e ↦
            let same : d.chunk_no ≡ index = ground arith in
            let later : Ascending (suc index) ds = subst (λ n. Ascending (suc n) ds) same h in
            rw e (
              walk-cons (cursor_of c (d ∷ ds) more) (cursor_of c ds more) (cursor_of c [] more)
                index s (from_entry d.entry) states (merged ds (suc index) states)
                (state_at-here index s d ds same later)
                (walk_lem states (suc index) ds later below))
        | inr e ↦ rw e (
            walk-cons (cursor_of c (d ∷ ds) more) (cursor_of c (d ∷ ds) more) (cursor_of c [] more)
              index s s states (merged (d ∷ ds) (suc index) states)
              (state_at-later index s d ds (ground arith))
              (walk_lem states (suc index) (d ∷ ds) (ground arith, q, v, h) (omega arith, below)))
      ]

-- Entries from `n` on leave the chunks below alone.
state_after-before :
    (i n : ℕ) (ds : List DeltaEntry) (state : Option ChunkState)
    → i < n
    → Ascending n ds
    → state_after i ds state ≡ state
unfolding state_after Ascending
state_after-before i n [] state l h = refl
state_after-before i n (d ∷ ds) state l (p, q, v, h) =
    let other : (d.chunk_no == i) ≡ false = ground arith in
    rw other (state_after-before i (suc d.chunk_no) ds state (omega arith) h)

get_elem?-merged :
    (states : List ChunkState) (index : ℕ) (ds : List DeltaEntry) (i : ℕ)
    → Ascending index ds
    → Below (index + length states) ds
    → get_elem? (merged ds index states) i ≡ state_after (index + i) ds (get_elem? states i)
unfolding merged state_after Ascending
get_elem?-merged states index [] i h b = refl
get_elem?-merged [] index (d ∷ ds) i (p, q, v, h) (r, b) = absurd (omega arith)
get_elem?-merged (s ∷ states) index (d ∷ ds) zero (p, q, v, h) (r, b) =
    elim (Bool-cases (d.chunk_no == index)) [
      | inl e ↦
          let hit : (d.chunk_no == index + 0) ≡ true = ground arith in
          rw (e, hit)
            (sym (
              state_after-before (index + 0) (suc d.chunk_no) ds (some (from_entry d.entry))
                (ground arith) h))
      | inr e ↦
          let miss : (d.chunk_no == index + 0) ≡ false = ground arith in
          rw (e, miss)
            (sym (state_after-before (index + 0) (suc d.chunk_no) ds (some s) (ground arith) h))
    ]
get_elem?-merged (s ∷ states) index (d ∷ ds) (suc i) (p, q, v, h) (r, b) =
    let next : index + length (s ∷ states) ≡ suc index + length states = omega arith in
    let below : Below (suc index + length states) ds = subst (λ n. Below n ds) next b in
    let shift : suc index + i ≡ index + suc i = omega arith in
    elim (Bool-cases (d.chunk_no == index)) [
      | inl e ↦
          let miss : (d.chunk_no == index + suc i) ≡ false = ground arith in
          let same : d.chunk_no ≡ index = ground arith in
          let later : Ascending (suc index) ds = subst (λ n. Ascending (suc n) ds) same h in
          rw (e, miss)
            (get_elem?-merged states (suc index) ds i later below
              ∙ ap (λ n. state_after n ds (get_elem? states i)) shift)
      | inr e ↦ rw e (
          get_elem?-merged states (suc index) (d ∷ ds) i (ground arith, q, v, h)
            (omega arith, below)
          ∙ ap (λ n. state_after n (d ∷ ds) (get_elem? states i)) shift)
    ]

same_elements :
    {A : Type 0} (xs ys : List A) → ((i : ℕ) → get_elem? xs i ≡ get_elem? ys i) → xs ≡ ys
same_elements [] [] h = refl
same_elements [] (y ∷ ys) h = let e = h 0 in cc
same_elements (x ∷ xs) [] h = let e = h 0 in cc
same_elements (x ∷ xs) (y ∷ ys) h =
    let e = h 0 in let first : x ≡ y = cc in λ i. first i ∷ same_elements xs ys (λ n. h (suc n)) i

pub walk-apply_delta :
    (c : Cursor) (more : Bytes) (parent : List ChunkState) (ds : List DeltaEntry)
    → Ascending 0 ds
    → Below (length parent) ds
    → (out : List ChunkState) × (apply_delta parent ds ≡ ok out)
      × (walk (cursor_of c ds more) 0 parent ≡ ok (out, cursor_of c [] more))
walk-apply_delta c more parent ds h b =
    let (out, e, l, f) = apply_delta_lem ds parent b in
    let all_of : length parent ≡ 0 + length parent = omega arith in
    let below : Below (0 + length parent) ds = subst (λ n. Below n ds) all_of b in
    let from_zero : (i : ℕ) → 0 + i ≡ i = λ i. omega arith in
    let same : merged ds 0 parent ≡ out = same_elements (merged ds 0 parent) out (λ i.
      get_elem?-merged parent 0 ds i h below
      ∙ ap (λ n. state_after n ds (get_elem? parent i)) (from_zero i)
      ∙ sym (f i)) in
    (
      out,
      e,
      walk_lem c more parent 0 ds h below
          ∙ ap (λ (states : List ChunkState). ok (states, cursor_of c [] more)) same,
    )

-- A cursor with the sizes of a header.
abbrev pub sized : BlockManifestHeader → Cursor
sized h = record {
  wire = [];
  is_full = false;
  chunk_count = h.chunk_count;
  chunk_size = h.chunk_size;
  remaining = 0;
  pending = none;
}

pub open_cursor_lem :
    (is_utf8 : Bytes → Bool) (h : BlockManifestHeader) (ds : List DeltaEntry) (more : Bytes)
    → Header.IsValid is_utf8 h
    → h.entry_count ≡ length ds
    → Ascending 0 ds
    → open_cursor is_utf8 (header_bytes h true (stream_of ds more)) true
      ≡ ok (cursor_of (sized h) ds more)
unfolding open_cursor
open_cursor_lem is_utf8 h ds more v e a =
    rw (read_lem is_utf8 h true (stream_of ds more) v, ◌>>=◌, e)
      (read_pending_lem (sized h) 0 ds more a)

-- The bytes of a delta manifest, a valid header and as many entries as it names, whose chunk
-- numbers ascend and lie inside the image, are opened as a cursor, whatever follows them. Reading
-- the states of all chunks through it gives the vector that `apply_delta` makes of the parent's
-- states, and leaves no entry pending and none remaining.
pub open-walk-apply_delta :
    (is_utf8 : Bytes → Bool) (h : BlockManifestHeader) (ds : List DeltaEntry)
    (parent : List ChunkState) (more : Bytes)
    → Header.IsValid is_utf8 h
    → h.entry_count ≡ length ds
    → Ascending 0 ds
    → Below (length parent) ds
    → (c : Cursor) × (out : List ChunkState) × (open_cursor is_utf8
          (header_bytes h true (stream_of ds more))
          true
        ≡ ok c)
      × (apply_delta parent ds ≡ ok out)
      × (walk c 0 parent ≡ ok (out, cursor_of (sized h) [] more))
open-walk-apply_delta is_utf8 h ds parent more v e a b =
    let (out, applied, walked) = walk-apply_delta (sized h) more parent ds a b in
    (cursor_of (sized h) ds more, out, open_cursor_lem is_utf8 h ds more v e a, applied, walked)
