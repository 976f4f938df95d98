-- ===== src/Format/PageReader/Growing.antt =====
-- What a file holds is still read when the file grows, and a page more is opened after the others.
use linuxreflect.Base.{
  ℕ, suc, ◌+◌, ◌≤◌, ◌<◌, ◌≡◌, refl, sym, subst, ap, ◌∙◌, true, false, List, [], ◌∷◌, ◌++◌, length,
  take, drop, ltb, arith, length-append, length-drop, drop-append, drop-append_inside,
  take-append_inside, take_all, inl, inr, Bool-cases, ◌==◌,
}
use mathlib.Core.List.{append_assoc, append-nil}
use linuxreflect.Base.Result.{ok, ◌>>=◌, Result-cases}
use linuxreflect.Format.Wire.{Bytes}
use linuxreflect.Format.PageTable.{PageEntry, entries_for, same_stream}
use linuxreflect.Crypto.Aead.{AeadKind, Primitives}
use linuxreflect.Crypto.Page.{StreamId, open_page, page_overhead, as_u8}
use linuxreflect.Format.PageReader.{read_at, page_at}
use linuxreflect.Format.PageReader.Refinement.{Opens, flat}

read_at-append :
    (file more : Bytes) (offset total : ℕ) (raw : Bytes)
    → 0 < total
    → read_at file offset total ≡ ok raw
    → read_at (file ++ more) offset total ≡ ok raw
unfolding read_at
read_at-append file more offset total raw some h =
    elim (Bool-cases (ltb (length (drop offset file)) total)) [
      | inl e ↦ let k = rw e at h in absurd (cc)
      | inr e ↦
          let dropped = length-drop offset file in
          let inside : offset ≤ length file = ground arith in
          let enough : total ≤ length (drop offset file) = ground arith in
          let still : ltb (length (drop offset file ++ more)) total ≡ false =
            ground (arith, length-append (drop offset file) more) in
          let k : ok (take total (drop offset file)) ≡ ok raw = rw e at h in
          rw
            (
              drop-append_inside offset file more inside,
              still,
              take-append_inside total (drop offset file) more enough,
            )
            k
    ]

-- The bytes that were written last.
pub read_at-end :
    (file page more : Bytes) → read_at (file ++ page) (length file) (length page) ≡ ok page
unfolding read_at
read_at-end file page more =
    let enough : ltb (length page) (length page) ≡ false = ground arith in
    rw (drop-append file page, enough, take_all (length page) page refl) refl

module _ (p : Primitives) where
  page_at-append :
      (file more : Bytes) (kind : AeadKind) (key : Bytes) (stream : StreamId) (index : ℕ)
      (e : PageEntry) (page : Bytes)
      → page_at p file kind key stream index e ≡ ok page
      → page_at p (file ++ more) kind key stream index e ≡ ok page
  unfolding page_at
  page_at-append file more kind key stream index e page h =
      elim (Result-cases (read_at file e.offset (e.len + page_overhead))) [
        | inl (raw, r) ↦
            let k : open_page p kind key stream index raw ≡ ok page = rw (r, ◌>>=◌) at h in
            rw
              (read_at-append file more e.offset (e.len + page_overhead) raw (omega arith) r, ◌>>=◌)
              k
        | inr (x, r) ↦ let k = rw (r, ◌>>=◌) at h in absurd (cc)
      ]

  pub Opens-append :
      (file more : Bytes) (kind : AeadKind) (key : Bytes) (stream : StreamId) (index : ℕ)
      (es : List PageEntry) (pages : List Bytes)
      → Opens p file kind key stream index es pages
      → Opens p (file ++ more) kind key stream index es pages
  unfolding Opens
  Opens-append file more kind key stream index [] [] h = tt
  Opens-append file more kind key stream index (e ∷ es) (page ∷ pages) (o, h) = (
    page_at-append file more kind key stream index e page o,
    Opens-append file more kind key stream (index + 1) es pages h,
  )
  Opens-append file more kind key stream index [] (page ∷ pages) h = absurd h
  Opens-append file more kind key stream index (e ∷ es) [] h = absurd h

  pub Opens-snoc :
      (file : Bytes) (kind : AeadKind) (key : Bytes) (stream : StreamId) (index : ℕ)
      (es : List PageEntry) (pages : List Bytes) (e : PageEntry) (page : Bytes)
      → Opens p file kind key stream index es pages
      → page_at p file kind key stream (index + length pages) e ≡ ok page
      → Opens p file kind key stream index (es ++ (e ∷ [])) (pages ++ (page ∷ []))
  unfolding Opens
  Opens-snoc file kind key stream index [] [] e page h o =
      let here : index + 0 ≡ index = omega arith in
      (subst (λ n. page_at p file kind key stream n e ≡ ok page) here o, tt)
  Opens-snoc file kind key stream index (x ∷ es) (y ∷ pages) e page (q, h) o =
      let next : index + suc (length pages) ≡ index + 1 + length pages = omega arith in
      (
        q,
        Opens-snoc file kind key stream (index + 1) es pages e page h
            (subst (λ n. page_at p file kind key stream n e ≡ ok page) next o),
      )
  Opens-snoc file kind key stream index [] (y ∷ pages) e page h o = absurd h
  Opens-snoc file kind key stream index (x ∷ es) [] e page h o = absurd h

pub flat_snoc :
    (pages : List Bytes) (page : Bytes) → flat (pages ++ (page ∷ [])) ≡ flat pages ++ page
flat_snoc [] page = append-nil page
flat_snoc (x ∷ pages) page =
    ap (λ bs. x ++ bs) (flat_snoc pages page) ∙ sym (append_assoc x (flat pages) page)

pub entries_for_snoc :
    (table : List PageEntry) (e : PageEntry)
    → entries_for (table ++ (e ∷ [])) e.stream ≡ entries_for table e.stream ++ (e ∷ [])
unfolding entries_for
entries_for_snoc [] e =
    let same : (as_u8 e.stream == as_u8 e.stream) ≡ true = ground arith in rw same refl
entries_for_snoc (x ∷ table) e =
    let rest = entries_for_snoc table e in
    elim (Bool-cases (same_stream x.stream e.stream)) [
      | inl h ↦ rw h (ap (◌∷◌ x) rest)
      | inr h ↦ rw h rest
    ]
