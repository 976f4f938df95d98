-- ===== src/Format/PageStream/Written.antt =====
-- What was written to a page stream stands in the image, page after page.
use linuxreflect.Base.{
  ℕ, ◌+◌, ◌-◌, ◌^◌, ◌≤◌, ◌≡◌, refl, sym, subst, ◌∙◌, true, false, none, some, List, [], ◌∷◌, ◌++◌,
  length, leb, ◌==◌, ◌!=◌, arith, length-append,
}
use mathlib.Core.List.{append-nil}
use linuxreflect.Base.Result.{ok, ◌>>=◌}
use linuxreflect.Format.Wire.{Bytes}
use linuxreflect.Format.PageTable.{PageEntry, entries_for}
use linuxreflect.Crypto.Nonce.{max_counter}
use linuxreflect.Crypto.Aead.{Primitives, IsSound}
use linuxreflect.Crypto.Page.{StreamId, as_u8, open_page, page_overhead, max_page_len}
use linuxreflect.Crypto.Page.RoundTrip.{open-seal_page}
use linuxreflect.Format.ImageWriter.{ImageWriter, write_page, count_page}
use linuxreflect.Format.PageReader.{page_at}
use linuxreflect.Format.PageReader.Refinement.{Opens, flat}
use linuxreflect.Format.PageReader.Growing.{
  read_at-end, Opens-append, Opens-snoc, flat_snoc, entries_for_snoc,
}
use linuxreflect.Format.PageReader.Opening.{Placed, Placed-snoc}
use linuxreflect.Format.PageStream.{PageStream, seal_and_write}

-- The pages of the stream that stand in the image, with the bytes that wait in the buffer, are this
-- content; the image knows how many pages there are.
pub record Holds (p : Primitives) (s : PageStream) (w : ImageWriter) (content : Bytes)
    : Type 0 where
  pub pages : List Bytes
  pub opens : Opens p w.file s.kind s.meta_key s.stream 0 (entries_for w.page_table s.stream) pages
  pub counted : length pages ≡ s.page_no
  pub expected : w.next_page s.stream ≡ s.page_no
  pub written : flat pages ++ s.buf ≡ content
  pub room : length s.buf ≤ s.page_len
  pub fits : s.page_len ≤ max_page_len
  pub placed : Placed (length w.file) w.page_table

-- The later state is of the same stream.
abbrev pub SameStream : PageStream → PageStream → Type 0
SameStream s s' =
    (s'.stream ≡ s.stream)
    × (s'.kind ≡ s.kind)
    × (s'.meta_key ≡ s.meta_key)
    × (s'.page_len ≡ s.page_len)

pub SameStream-trans : (s t u : PageStream) → SameStream s t → SameStream t u → SameStream s u
SameStream-trans s t u (a, b, c, d) (e, f, g, h) = (e ∙ a, f ∙ b, g ∙ c, h ∙ d)

abbrev pub counter_of : ImageWriter → ℕ
counter_of w = w.meta_nonces.counter

module _ (p : Primitives) (sound : IsSound p) where
  -- The image after a page of the expected number.
  abbrev after_page : ImageWriter → StreamId → Bytes → ImageWriter
  after_page w stream page = record w {
    file = w.file ++ page;
    page_table =
        w.page_table
        ++ (record { stream = stream; offset = length w.file; len = length page - page_overhead }
            ∷ []);
    data_end_offset = elim w.data_end_offset [
      | none ↦ some (length w.file)
      | some offset ↦ some offset
    ];
    next_page = count_page w.next_page stream;
  }

  write_page_lem :
      (w : ImageWriter) (stream : StreamId) (page_no : ℕ) (page : Bytes)
      → w.next_page stream ≡ page_no
      → length page ≤ page_overhead + max_page_len
      → write_page w stream page_no page ≡ ok (after_page w stream page)
  unfolding write_page
  write_page_lem w stream page_no page e l =
      let same : (page_no != w.next_page stream) ≡ false = ground arith in
      let small : leb (2 ^ 32) (length page - page_overhead) ≡ false = ground arith in
      rw (same, small) refl

  page_at-end :
      (w : ImageWriter) (s : PageStream) (page : Bytes) (plaintext : Bytes)
      → length page ≡ page_overhead + length plaintext
      → open_page p s.kind s.meta_key s.stream s.page_no page ≡ ok plaintext
      → page_at p
          (w.file ++ page)
          s.kind
          s.meta_key
          s.stream
          s.page_no
          (record { stream = s.stream; offset = length w.file; len = length page - page_overhead })
        ≡ ok plaintext
  unfolding page_at
  page_at-end w s page plaintext l o =
      let total : length page - page_overhead + page_overhead ≡ length page = omega arith in
      rw (total, read_at-end w.file page [], ◌>>=◌) o

  -- A page that is not empty is sealed and stands in the image.
  pub seal_and_write-Holds :
      (s : PageStream) (w : ImageWriter) (content : Bytes)
      → Holds p s w content
      → counter_of w ≤ max_counter
      → (s' : PageStream) × (w' : ImageWriter) × (seal_and_write p s w ≡ ok (s', w'))
        × Holds p s' w' content
        × (s'.buf ≡ [])
        × SameStream s s'
        × (counter_of w' ≡ counter_of w + 1)
  unfolding seal_and_write
  seal_and_write-Holds s w content h c =
      let (page, sealed, l, opened) =
        open-seal_page p sound s.kind s.meta_key s.stream s.page_no s.buf w.meta_nonces []
          (omega (arith, h.room, h.fits)) c in
      let drawn : ImageWriter = record w { meta_nonces = record { counter = counter_of w + 1 } } in
      let placed_page : length page ≤ page_overhead + max_page_len =
        omega (arith, h.room, h.fits, l) in
      let w' = after_page drawn s.stream page in
      let s' : PageStream = record s { page_no = s.page_no + 1; pages = s.pages + 1; buf = [] } in
      let entry : PageEntry = record {
        stream = s.stream;
        offset = length w.file;
        len = length page - page_overhead;
      } in
      let stored = page_at-end w s page s.buf l opened in
      let number : 0 + length h.pages ≡ s.page_no = omega (arith, h.counted) in
      let kept =
        Opens-append p w.file page s.kind s.meta_key s.stream 0 (entries_for w.page_table s.stream)
          h.pages h.opens in
      (
        s',
        w',
        rw (sealed, ◌>>=◌, write_page_lem drawn s.stream s.page_no page h.expected placed_page)
            refl,
        record {
          pages = h.pages ++ (s.buf ∷ []);
          opens = rw (entries_for_snoc w.page_table entry) (
              Opens-snoc p (w.file ++ page) s.kind s.meta_key s.stream 0
                (entries_for w.page_table s.stream) h.pages entry s.buf kept
                (subst
                  (λ n. page_at p (w.file ++ page) s.kind s.meta_key s.stream n entry ≡ ok s.buf)
                  (sym number) stored));
          counted = omega (arith, length-append h.pages (s.buf ∷ []), h.counted);
          expected =
              let same : (as_u8 s.stream == as_u8 s.stream) ≡ true = ground arith in
              rw same (omega (arith, h.expected));
          written =
              rw (append-nil (flat (h.pages ++ (s.buf ∷ []))))
                (flat_snoc h.pages s.buf ∙ h.written);
          room = omega arith;
          fits = h.fits;
          placed =
              Placed-snoc (length w.file) (length (w.file ++ page)) w.page_table entry refl
                (omega (arith, l, h.room, h.fits)) (omega (arith, l, length-append w.file page))
                h.placed;
        },
        refl,
        (refl, refl, refl, refl),
        refl,
      )
