-- ===== src/Engine/ChainWalk/Linked.antt =====
-- crates/lr-engine/src/chain.rs: ChainWalk::new, with what it checks of the members.
use linuxreflect.Base.{
  ℕ, zero, suc, ◌+◌, ◌≡◌, refl, ◌∙◌, sym, subst, ap, Bool, true, false, not, ◌||◌, Option, none,
  some, List, [], ◌∷◌, get_elem?, ltb, ◌!=◌, arith, ◌⊎◌, inl, inr, eq_bytes, eq_bytes→eq, sort_by,
}
use linuxreflect.Base.Result.{refuse_passed, refuse_last, ok, corrupt, refuse}
use linuxreflect.Format.Wire.{Bytes}
use linuxreflect.Core.ImageKind as ImageKind
use linuxreflect.Core.ImageKind.{ImageKind}
use linuxreflect.Core.Catalog.{to_u32, full, incremental, differential, is_full, MemberKind}
use linuxreflect.Format.Manifest.Header.{read_manifest_header}
use linuxreflect.Format.Superblock.{aead_kind}
use linuxreflect.Engine.ChainWalk.{
  OpenMember, ChainWalk, same_kind, by_seq, breaks_link, check_member, check_members, new,
}
use linuxreflect.Engine.ChainWalk.Merged.{bind_ok, ok_value}

-- The members agree about what the walk takes from the first one.
pub record Agrees (first : OpenMember) (m : OpenMember) : Type 0 where
  pub chunk_size_same : m.superblock.chunk_size ≡ first.superblock.chunk_size
  pub source_size_same : m.superblock.source_size_bytes ≡ first.superblock.source_size_bytes
  pub image_kind_same : m.superblock.image_kind ≡ first.superblock.image_kind
  pub set_same : m.superblock.set_id ≡ first.superblock.set_id

not-false : (b : Bool) → not b ≡ false → b ≡ true
not-false true h = refl
not-false false h = sym h

same_kind→eq : (a b : ImageKind) → same_kind a b ≡ true → a ≡ b
same_kind→eq a b h =
    let codes : ImageKind.as_u8 a ≡ ImageKind.as_u8 b = ground arith in
    ok_value a b
      (sym (ImageKind.from_u8-as_u8 a) ∙ ap ImageKind.from_u8 codes ∙ ImageKind.from_u8-as_u8 b)

check_member-passed :
    (first : OpenMember) (index : ℕ) (previous : Option OpenMember) (m : OpenMember)
    → check_member first index previous m ≡ ok tt
    → (m.seq_in_chain ≡ to_u32 index) × (breaks_link previous m ≡ false) × Agrees first m
unfolding check_member
check_member-passed first index previous m h =
    let (numbered, h1) = refuse_passed (m.seq_in_chain != to_u32 index) corrupt _ tt h in
    let (linked, h2) = refuse_passed (breaks_link previous m) corrupt _ tt h1 in
    let (chunks, h3) =
      refuse_passed (m.superblock.chunk_size != first.superblock.chunk_size) corrupt _ tt h2 in
    let (sizes, h4) =
      refuse_passed (m.superblock.source_size_bytes != first.superblock.source_size_bytes) corrupt _
        tt h3 in
    let (kinds, h5) =
      refuse_passed (not (same_kind m.superblock.image_kind first.superblock.image_kind)) corrupt _
        tt h4 in
    let sets =
      refuse_last (not (eq_bytes m.superblock.set_id first.superblock.set_id)) corrupt h5 in
    (
      ground (arith, numbered),
      linked,
      record {
        chunk_size_same = ground (arith, chunks);
        source_size_same = ground (arith, sizes);
        image_kind_same =
            same_kind→eq m.superblock.image_kind first.superblock.image_kind (not-false _ kinds);
        set_same = eq_bytes→eq m.superblock.set_id first.superblock.set_id (not-false _ sets);
      },
    )

check_members-cons :
    (first : OpenMember) (index : ℕ) (previous : Option OpenMember) (m : OpenMember)
    (ms : List OpenMember)
    → check_members first index previous (m ∷ ms) ≡ ok tt
    → (check_member first index previous m ≡ ok tt)
      × (check_members first (index + 1) (some m) ms ≡ ok tt)
unfolding check_members
check_members-cons first index previous m ms h =
    let (tt, e, rest) = bind_ok (check_member first index previous m) _ tt h in (e, rest)

some_value : {A : Type 0} (a b : A) → some a ≡ some b → a ≡ b
some_value a b h = ap (λ found. elim found [ some x ↦ x | none ↦ a ]) h

links :
    (x y : OpenMember)
    → breaks_link (some x) y ≡ false
    → ltb 0 y.seq_in_chain ≡ true
    → y.superblock.parent_uuid ≡ x.image_uuid
links x y linked later =
    let equal : eq_bytes y.superblock.parent_uuid x.image_uuid ≡ true = ground arith in
    eq_bytes→eq y.superblock.parent_uuid x.image_uuid equal

-- Each of the checked members has its place as its sequence number and agrees with the first one.
check_members-at :
    (first : OpenMember) (n : ℕ) (previous : Option OpenMember) (ms : List OpenMember)
    → check_members first n previous ms ≡ ok tt
    → (i : ℕ) (m : OpenMember) → get_elem? ms i ≡ some m
    → (m.seq_in_chain ≡ to_u32 (n + i)) × Agrees first m
check_members-at first n previous [] h i m e = absurd (cc)
check_members-at first n previous (x ∷ ms) h zero m e =
    let (numbered, linked, agrees) =
      check_member-passed first n previous x (check_members-cons first n previous x ms h).0 in
    let same : x ≡ m = some_value x m e in
    let here : n ≡ n + 0 = omega arith in
    subst (λ y. (y.seq_in_chain ≡ to_u32 (n + 0)) × Agrees first y) same
      (numbered ∙ ap to_u32 here, agrees)
check_members-at first n previous (x ∷ ms) h (suc i) m e =
    let (numbered, agrees) =
      check_members-at first (n + 1) (some x) ms (check_members-cons first n previous x ms h).1 i m
        e in
    let there : n + 1 + i ≡ n + suc i = omega arith in (numbered ∙ ap to_u32 there, agrees)

-- Each of the checked members but the first names the one before it as its parent.
check_members-linked :
    (first : OpenMember) (n : ℕ) (previous : Option OpenMember) (ms : List OpenMember)
    → check_members first n previous ms ≡ ok tt
    → (i : ℕ) (a b : OpenMember) → get_elem? ms i ≡ some a
    → get_elem? ms (suc i) ≡ some b
    → b.superblock.parent_uuid ≡ a.image_uuid
check_members-linked first n previous [] h i a b e f = absurd (cc)
check_members-linked first n previous (x ∷ []) h i a b e f = absurd (cc)
check_members-linked first n previous (x ∷ y ∷ ms) h zero a b e f =
    let rest = (check_members-cons first n previous x (y ∷ ms) h).1 in
    let (numbered, linked, agrees) =
      check_member-passed first (n + 1) (some x) y
        (check_members-cons first (n + 1) (some x) y ms rest).0 in
    let later : ltb 0 y.seq_in_chain ≡ true = ground (arith, numbered) in
    let link = links x y linked later in
    subst (λ m. m.superblock.parent_uuid ≡ a.image_uuid) (some_value y b f)
      (subst (λ m. y.superblock.parent_uuid ≡ m.image_uuid) (some_value x a e) link)
check_members-linked first n previous (x ∷ y ∷ ms) h (suc i) a b e f =
    check_members-linked first (n + 1) (some x) (y ∷ ms)
      (check_members-cons first n previous x (y ∷ ms) h).1 i a b e f

or-false : (a b : Bool) → (a || b) ≡ false → b ≡ false
or-false true b h = absurd (cc)
or-false false b h = h

sorted-cases :
    (ms : List OpenMember)
    → (ms ≡ []) ⊎ ((first : OpenMember) × (rest : List OpenMember) × (ms ≡ first ∷ rest))
sorted-cases [] = inl refl
sorted-cases (first ∷ rest) = inr (first, rest, refl)

is_full→eq : (kind : MemberKind) → is_full kind ≡ true → kind ≡ full
is_full→eq full h = refl
is_full→eq incremental h = absurd (cc)
is_full→eq differential h = absurd (cc)

-- What `new` has checked of the sorted members, and what it returns of them.
new-steps :
    (is_utf8 : Bytes → Bool) (members rest : List OpenMember) (first : OpenMember) (w : ChainWalk)
    → sort_by by_seq members ≡ first ∷ rest
    → new is_utf8 members ≡ ok w
    → (first.kind ≡ full)
      × (check_members first 0 none (first ∷ rest) ≡ ok tt)
      × (w.members ≡ first ∷ rest)
      × (w.chunk_size ≡ first.superblock.chunk_size)
unfolding new
new-steps is_utf8 members rest first w e h =
    let h1 = rw (new, e) at h in
    let test : Bool = first.seq_in_chain != 0 || not (is_full first.kind) in
    let (done, passed, h2) = bind_ok (refuse test corrupt) _ w h1 in
    let starts = refuse_last test corrupt passed in
    let (done', checked, h3) = bind_ok (check_members first 0 none (first ∷ rest)) _ w h2 in
    let (kind, known, h4) = bind_ok (aead_kind first.superblock) _ w h3 in
    let (manifest, read, h5) = bind_ok (read_manifest_header is_utf8 first.manifest) _ w h4 in
    let made = ok_value _ w h5 in
    (
      is_full→eq first.kind (not-false _ (or-false (first.seq_in_chain != 0) _ starts)),
      checked,
      sym (ap (λ (v : ChainWalk). v.members) made),
      sym (ap (λ (v : ChainWalk). v.chunk_size) made),
    )

new-none :
    (is_utf8 : Bytes → Bool) (members : List OpenMember) (w : ChainWalk)
    → sort_by by_seq members ≡ []
    → ¬ (new is_utf8 members ≡ ok w)
unfolding new
new-none is_utf8 members w e h = let refused = rw (new, e) at h in absurd (cc)

-- A chain that `new` accepts has all the given members, sorted by sequence number, and at least one.
-- The first one is full; the member at a place has the place as its sequence number, as far as 32
-- bits hold it, and the chunk size, source size, image kind and set of the first one; and every other
-- member names the one before it as its parent. The chunk size of the chain is that of the first.
pub new-Linked :
    (is_utf8 : Bytes → Bool) (members : List OpenMember) (w : ChainWalk)
    → new is_utf8 members ≡ ok w
    → (w.members ≡ sort_by by_seq members)
      × ((first : OpenMember) × (get_elem? w.members 0 ≡ some first)
          × (first.kind ≡ full)
          × (w.chunk_size ≡ first.superblock.chunk_size)
          × ((i : ℕ) (m : OpenMember)
              → get_elem? w.members i ≡ some m
              → (m.seq_in_chain ≡ to_u32 i) × Agrees first m))
      × ((i : ℕ) (a b : OpenMember)
          → get_elem? w.members i ≡ some a
          → get_elem? w.members (suc i) ≡ some b
          → b.superblock.parent_uuid ≡ a.image_uuid)
new-Linked is_utf8 members w h = elim (sorted-cases (sort_by by_seq members)) [
  | inl e ↦ absurd (new-none is_utf8 members w e h)
  | inr (first, rest, e) ↦
      let (starts, checked, same, size) = new-steps is_utf8 members rest first w e h in
      (
        same ∙ sym e,
        (
          first,
          ap (λ ms. get_elem? ms 0) same,
          starts,
          size,
          λ i m found.
              let (numbered, agrees) =
                check_members-at first 0 none (first ∷ rest) checked i m
                  (subst (λ ms. get_elem? ms i ≡ some m) same found) in
              let place : 0 + i ≡ i = omega arith in (numbered ∙ ap to_u32 place, agrees),
        ),
        λ i a b here next.
            check_members-linked first 0 none (first ∷ rest) checked i a b
              (subst (λ ms. get_elem? ms i ≡ some a) same here)
              (subst (λ ms. get_elem? ms (suc i) ≡ some b) same next),
      )
]
