-- ===== src/Engine/ChainWalk/Applied.antt =====
-- crates/lr-engine/src/chain.rs: the manifests of a chain as they are written, and the walk over them.
use linuxreflect.Base.{
  ℕ, suc, ◌-◌, ◌≡◌, refl, ◌∙◌, sym, subst, ap, Bool, true, false, List, [], ◌∷◌, ◌++◌, map,
  replicate, length, All, ◌==◌, ◌!=◌, arith,
}
use linuxreflect.Base.Result.{Result, ok, ◌>>=◌}
use linuxreflect.Format.Wire.{Bytes}
use linuxreflect.Format.Manifest.Entry as Entry
use linuxreflect.Format.Manifest.Entry.{BlockEntry, entry_bytes}
use linuxreflect.Format.Manifest.Header.{BlockManifestHeader}
use linuxreflect.Format.Manifest.Header.RoundTrip as Header
use linuxreflect.Format.Manifest.Header.RoundTrip.{header_bytes, read_lem}
use linuxreflect.Format.Manifest.Stream.{DeltaEntry, read_entry_lem}
use linuxreflect.Format.Manifest.Delta.{
  ChunkState, unused, from_entry, apply_delta, apply_delta_lem,
}
use linuxreflect.Crypto.Aead.{AeadKind, aes_256_gcm, cha_cha_20_poly_1305, id, from_id}
use linuxreflect.Engine.Chain.{Cursor, state_at, full_state_at, open_cursor}
use linuxreflect.Engine.Chain.Walk.{
  Ascending, Below, stream_of, cursor_of, sized, walk, walk-apply_delta, open_cursor_lem,
}
use linuxreflect.Engine.ChainWalk.{
  open_cursors, check_sizes, merge_chunk, merge_chunks, check_used, walk_manifests,
}
use linuxreflect.Engine.ChainWalk.Merged.{ok_value, merge_chunks-walk}

-- A member of a chain as it was written: a delta manifest, and what follows it.
pub record DeltaMember : Type 0 where
  pub kind : AeadKind
  pub header : BlockManifestHeader
  pub entries : List DeltaEntry
  pub more : Bytes

-- The member fits an image of that many chunks of that size.
pub record Written (is_utf8 : Bytes → Bool) (chunk_count : ℕ) (chunk_size : ℕ) (d : DeltaMember)
    : Type 0 where
  pub header_valid : Header.IsValid is_utf8 d.header
  pub counted : d.header.entry_count ≡ length d.entries
  pub same_count : d.header.chunk_count ≡ chunk_count
  pub same_size : d.header.chunk_size ≡ chunk_size
  pub ascending : Ascending 0 d.entries
  pub inside : Below chunk_count d.entries

abbrev pub entry_stream : List BlockEntry → Bytes → Bytes
entry_stream [] more = more
entry_stream (e ∷ es) more = entry_bytes e ++ entry_stream es more

abbrev pub manifest_of : DeltaMember → ℕ × (Bytes × Bool)
manifest_of d = (id d.kind, (header_bytes d.header true (stream_of d.entries d.more), true))

abbrev opened : DeltaMember → Cursor
opened d = cursor_of (sized d.header) d.entries d.more

abbrev used : DeltaMember → Cursor
used d = cursor_of (sized d.header) [] d.more

-- The deltas of the members, applied one after another.
unfoldable pub apply_deltas : List ChunkState → List DeltaMember → Result (List ChunkState)
apply_deltas states [] = ok states
apply_deltas states (d ∷ ds) = apply_delta states d.entries >>= λ next. apply_deltas next ds

from_id-id : (kind : AeadKind) → from_id (id kind) ≡ ok kind
unfolding from_id id
from_id-id aes_256_gcm = refl
from_id-id cha_cha_20_poly_1305 = refl

merge_chunks-none : (index : ℕ) (xs : List ChunkState) → merge_chunks [] index xs ≡ ok (xs, [])
unfolding merge_chunks merge_chunk
merge_chunks-none index [] = refl
merge_chunks-none index (x ∷ xs) = rw (merge_chunks-none (suc index) xs)

length-apply_delta :
    (parent out : List ChunkState) (ds : List DeltaEntry)
    → Below (length parent) ds
    → apply_delta parent ds ≡ ok out
    → length out ≡ length parent
length-apply_delta parent out ds b e =
    let (out', e', l, f) = apply_delta_lem ds parent b in
    ap length (ok_value out out' (sym e ∙ e')) ∙ l

cursor_of-count :
    (c : Cursor) (more : Bytes) (ds : List DeltaEntry)
    → (cursor_of c ds more).chunk_count ≡ c.chunk_count
cursor_of-count c more [] = refl
cursor_of-count c more (d ∷ ds) = refl

cursor_of-size :
    (c : Cursor) (more : Bytes) (ds : List DeltaEntry)
    → (cursor_of c ds more).chunk_size ≡ c.chunk_size
cursor_of-size c more [] = refl
cursor_of-size c more (d ∷ ds) = refl

module _ (is_utf8 : Bytes → Bool) (chunk_count chunk_size : ℕ) where
  merge_chunks-opened :
      (ds : List DeltaMember) (parent : List ChunkState)
      → length parent ≡ chunk_count
      → All (Written is_utf8 chunk_count chunk_size) ds
      → (out : List ChunkState) × (apply_deltas parent ds ≡ ok out)
        × (merge_chunks (map opened ds) 0 parent ≡ ok (out, map used ds))
  unfolding apply_deltas
  merge_chunks-opened [] parent l v = (parent, refl, merge_chunks-none 0 parent)
  merge_chunks-opened (d ∷ ds) parent l (w, v) =
      let below : Below (length parent) d.entries =
        subst (λ n. Below n d.entries) (sym l) w.inside in
      let (next, e, walked) =
        walk-apply_delta (sized d.header) d.more parent d.entries w.ascending below in
      let same = length-apply_delta parent next d.entries below e ∙ l in
      let (out, f, merged) = merge_chunks-opened ds next same v in
      (
        out,
        rw (e, ◌>>=◌) f,
        merge_chunks-walk (opened d) (used d) (map opened ds) (map used ds) 0 parent next out walked
            merged,
      )

  open_cursors_lem :
      (ds : List DeltaMember)
      → All (Written is_utf8 chunk_count chunk_size) ds
      → open_cursors is_utf8 (map manifest_of ds) ≡ ok (map opened ds)
  unfolding open_cursors
  open_cursors_lem [] v = refl
  open_cursors_lem (d ∷ ds) (w, v) = rw (
    from_id-id d.kind,
    ◌>>=◌,
    open_cursor_lem is_utf8 d.header d.entries d.more w.header_valid w.counted w.ascending,
    open_cursors_lem ds v,
  )

  check_sizes_lem :
      (ds : List DeltaMember)
      → All (Written is_utf8 chunk_count chunk_size) ds
      → check_sizes chunk_count chunk_size (map opened ds) ≡ ok tt
  unfolding check_sizes
  check_sizes_lem [] v = refl
  check_sizes_lem (d ∷ ds) (w, v) =
      let counts : ((opened d).chunk_count != chunk_count) ≡ false =
        ground (arith, cursor_of-count (sized d.header) d.more d.entries, w.same_count) in
      let sizes : ((opened d).chunk_size != chunk_size) ≡ false =
        ground (arith, cursor_of-size (sized d.header) d.more d.entries, w.same_size) in
      rw (counts, sizes) (check_sizes_lem ds v)

check_used_lem : (ds : List DeltaMember) → check_used (map used ds) ≡ ok tt
unfolding check_used
check_used_lem [] = refl
check_used_lem (d ∷ ds) = check_used_lem ds

-- The cursor over a full manifest with these entries left.
abbrev full_cursor : BlockManifestHeader → List BlockEntry → Bytes → Cursor
full_cursor h es more = record (sized h) {
  is_full = true;
  wire = entry_stream es more;
  remaining = length es;
}

walk-full :
    (h : BlockManifestHeader) (more : Bytes) (es : List BlockEntry) (index : ℕ)
    → All Entry.IsValid es
    → walk (full_cursor h es more) index (replicate (length es) unused)
      ≡ ok (map from_entry es, full_cursor h [] more)
unfolding walk state_at full_state_at
walk-full h more [] index v = refl
walk-full h more (e ∷ es) index (w, v) =
    let some_left : (suc (length es) == 0) ≡ false = ground arith in
    let one_less : suc (length es) - 1 ≡ length es = omega arith in
    rw (
      some_left,
      read_entry_lem e (entry_stream es more) w,
      ◌>>=◌,
      one_less,
      walk-full h more es (suc index) v,
    )

open_full :
    (is_utf8 : Bytes → Bool) (h : BlockManifestHeader) (es : List BlockEntry) (more : Bytes)
    → Header.IsValid is_utf8 h
    → h.entry_count ≡ length es
    → open_cursor is_utf8 (header_bytes h false (entry_stream es more)) false
      ≡ ok (full_cursor h es more)
unfolding open_cursor
open_full is_utf8 h es more v e = rw (read_lem is_utf8 h false (entry_stream es more) v, ◌>>=◌, e)

length-from_entries : (es : List BlockEntry) → length (map from_entry es) ≡ length es
length-from_entries [] = refl
length-from_entries (e ∷ es) = ap suc (length-from_entries es)

-- A chain of a full manifest with valid entries, one for each chunk of the image, and of delta
-- manifests whose headers are valid and name the same number and size of chunks and as many entries
-- as follow, with chunk numbers that ascend and lie inside the image, is walked to the end. The
-- states that the walk gives are those that `apply_delta` makes of the states of the full manifest,
-- one delta after another.
pub walk_manifests-apply_deltas :
    (is_utf8 : Bytes → Bool) (kind : AeadKind) (h : BlockManifestHeader) (es : List BlockEntry)
    (more : Bytes) (ds : List DeltaMember)
    → Header.IsValid is_utf8 h
    → h.entry_count ≡ length es
    → h.chunk_count ≡ length es
    → All Entry.IsValid es
    → All (Written is_utf8 h.chunk_count h.chunk_size) ds
    → (out : List ChunkState) × (apply_deltas (map from_entry es) ds ≡ ok out)
      × (walk_manifests is_utf8 h.chunk_count h.chunk_size
            ((id kind, (header_bytes h false (entry_stream es more), false)) ∷ map manifest_of ds)
          ≡ ok out)
unfolding walk_manifests open_cursors check_sizes check_used
walk_manifests-apply_deltas is_utf8 kind h es more ds v e n vs ws =
    let all_of : length (map from_entry es) ≡ h.chunk_count = length-from_entries es ∙ sym n in
    let (out, applied, merged) =
      merge_chunks-opened is_utf8 h.chunk_count h.chunk_size ds (map from_entry es) all_of ws in
    let walked =
      merge_chunks-walk (full_cursor h es more) (full_cursor h [] more) (map opened ds)
        (map used ds) 0 (replicate (length es) unused) (map from_entry es) out
        (walk-full h more es 0 vs) merged in
    let starts : merge_chunks (full_cursor h es more ∷ map opened ds) 0
          (replicate h.chunk_count unused)
        ≡ ok (out, full_cursor h [] more ∷ map used ds) =
      subst
        (λ m.
          merge_chunks (full_cursor h es more ∷ map opened ds) 0 (replicate m unused)
          ≡ ok (out, full_cursor h [] more ∷ map used ds))
        (sym n) walked in
    let count_same : (h.chunk_count != h.chunk_count) ≡ false = ground arith in
    let size_same : (h.chunk_size != h.chunk_size) ≡ false = ground arith in
    (
      out,
      applied,
      rw (
        from_id-id kind,
        ◌>>=◌,
        open_full is_utf8 h es more v e,
        open_cursors_lem is_utf8 h.chunk_count h.chunk_size ds ws,
        count_same,
        size_same,
        check_sizes_lem is_utf8 h.chunk_count h.chunk_size ds ws,
        starts,
        check_used_lem ds,
      ),
    )
