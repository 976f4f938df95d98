-- ===== src/Format/PageStream/RoundTrip.antt =====
-- A page stream is written, finished and read back.
use linuxreflect.Base.{
  ℕ, ◌+◌, ◌^◌, ◌≤◌, ◌<◌, ◌≡◌, refl, sym, subst, ap, ◌∙◌, List, [], ◌∷◌, ◌++◌, length, arith,
  length-append,
}
use mathlib.Core.List.{append_assoc, append-nil}
use linuxreflect.Base.Result.{Result, ok, ◌>>=◌}
use linuxreflect.Format.Wire.{Bytes}
use linuxreflect.Format.Wire as Wire
use linuxreflect.Format.Wire.RoundTrip.{read_bytes_lem}
use linuxreflect.Format.PageTable.{entries_for}
use linuxreflect.Crypto.Nonce.{max_counter}
use linuxreflect.Crypto.Aead.{AeadKind, Primitives, IsSound}
use linuxreflect.Crypto.Page.{StreamId, max_page_len}
use linuxreflect.Format.ImageWriter.{ImageWriter}
use linuxreflect.Format.PageReader as Reader
use linuxreflect.Format.PageReader.{PageStreamReader, read_bytes}
use linuxreflect.Format.PageReader.Refinement.{Opens, Content, ReadsLike, flat, read_bytes-Content}
use linuxreflect.Format.PageReader.Growing.{Opens-append}
use linuxreflect.Format.PageReader.Opening.{Placed, Placed-entries_for, new-Content}
use linuxreflect.Format.PageStream.{PageStream, with_page_len, write, finish}
use linuxreflect.Format.PageStream.Written.{Holds, SameStream, SameStream-trans, counter_of}
use linuxreflect.Format.PageStream.Writing.{write-Steps, flush_page-Holds}

-- A stream is ready to be written to an image: no page of it is there, and what is there is in order.
pub record IsFresh (w : ImageWriter) (stream : StreamId) (page_len : ℕ) : Type 0 where
  pub no_pages : entries_for w.page_table stream ≡ []
  pub none_expected : w.next_page stream ≡ 0
  pub table_placed : Placed (length w.file) w.page_table
  pub page_not_empty : 0 < page_len
  pub page_fits : page_len ≤ max_page_len

-- The pieces are written one after another, and the stream is finished.
unfoldable pub write_pieces :
    Primitives → PageStream → ImageWriter → List Bytes → Result (PageStream × ImageWriter)
write_pieces p s w [] = finish p s w
write_pieces p s w (piece ∷ pieces) =
    write p s w piece >>= λ state. write_pieces p state.0 state.1 pieces

module _ (p : Primitives) where
  -- The pages of a stream in an image, whatever follows it, are read as their bytes.
  abbrev pub Reads : ImageWriter → StreamId → AeadKind → Bytes → Bytes → Bytes → Type 0
  Reads w stream kind key more content =
      (r r' : PageStreamReader) × (Reader.new (w.file ++ more) kind key stream
          (entries_for w.page_table stream) (length (w.file ++ more))
        ≡ ok r)
      × (read_bytes p (length content) r ≡ ok (content, r'))
      × Content p r' []

  read_all :
      (r : PageStreamReader) (content : Bytes)
      → Content p r content
      → (r' : PageStreamReader) × (read_bytes p (length content) r ≡ ok (content, r'))
        × Content p r' []
  read_all r content c =
      let whole : Wire.read_bytes (length content) content ≡ ok (content, []) =
        subst (λ bs. Wire.read_bytes (length content) bs ≡ ok (content, [])) (append-nil content)
          (read_bytes_lem (length content) content [] refl) in
      subst (λ result. ReadsLike p result (read_bytes p (length content) r)) whole
        (read_bytes-Content p (length content) r content c)

  Opens-Reads :
      (w : ImageWriter) (stream : StreamId) (kind : AeadKind) (key more : Bytes)
      (pages : List Bytes)
      → Placed (length w.file) w.page_table
      → Opens p w.file kind key stream 0 (entries_for w.page_table stream) pages
      → length (w.file ++ more) < 2 ^ 64
      → Reads w stream kind key more (flat pages)
  Opens-Reads w stream kind key more pages placed o small =
      let entries = entries_for w.page_table stream in
      let longer : length w.file ≤ length (w.file ++ more) =
        omega (arith, length-append w.file more) in
      let (r, made, c) =
        new-Content p (w.file ++ more) kind key stream entries pages small
          (Placed-entries_for (length w.file) (length (w.file ++ more)) w.page_table stream longer
            placed)
          (Opens-append p w.file more kind key stream 0 entries pages o) in
      let (r', done, empty) = read_all r (flat pages) c in (r, r', made, done, empty)

  Holds-Reads :
      (t : PageStream) (w : ImageWriter) (content more : Bytes)
      → Holds p t w content
      → t.buf ≡ []
      → length (w.file ++ more) < 2 ^ 64
      → Reads w t.stream t.kind t.meta_key more content
  Holds-Reads t w content more h empty small =
      let all : flat h.pages ≡ content =
        sym (append-nil (flat h.pages)) ∙ ap (λ bs. flat h.pages ++ bs) (sym empty) ∙ h.written in
      subst (λ bs. Reads w t.stream t.kind t.meta_key more bs) all
        (Opens-Reads w t.stream t.kind t.meta_key more h.pages h.placed h.opens small)

module _ (p : Primitives) (sound : IsSound p) where
  write_pieces-Holds :
      (pieces : List Bytes) (s : PageStream) (w : ImageWriter) (content : Bytes)
      → Holds p s w content
      → length s.buf < s.page_len
      → counter_of w + length (flat pieces) ≤ max_counter
      → (s' : PageStream) × (w' : ImageWriter) × (write_pieces p s w pieces ≡ ok (s', w'))
        × Holds p s' w' (content ++ flat pieces)
        × (s'.buf ≡ [])
        × SameStream s s'
  unfolding write_pieces finish
  write_pieces-Holds [] s w content h strict c =
      let (s', w', done, h', empty, same, drawn) =
        flush_page-Holds p sound s w content h (omega arith) (omega arith) in
      (s', w', done, subst (λ bs. Holds p s' w' bs) (sym (append-nil content)) h', empty, same)
  write_pieces-Holds (piece ∷ pieces) s w content h strict c =
      let total = length-append piece (flat pieces) in
      let (s', w', done, h', strict', same, drawn) =
        write-Steps p sound s w content piece h strict (omega (arith, total)) in
      let (s'', w'', done', h'', empty, same') =
        write_pieces-Holds pieces s' w' (content ++ piece) h' strict'
          (omega (arith, total, drawn)) in
      (
        s'',
        w'',
        rw (done, ◌>>=◌) done',
        subst (λ bs. Holds p s'' w'' bs) (append_assoc content piece (flat pieces)) h'',
        empty,
        SameStream-trans s s' s'' same same',
      )

  module _ (w : ImageWriter) (stream : StreamId) (kind : AeadKind) (key : Bytes) (page_len : ℕ)
      (fresh : IsFresh w stream page_len) where
    abbrev start : PageStream
    start = record {
      stream = stream;
      kind = kind;
      meta_key = key;
      page_len = page_len;
      buf = [];
      page_no = 0;
      pages = 0;
    }

    start-Holds : Holds p start w []
    start-Holds = record {
      pages = [];
      opens = rw fresh.no_pages (unfold Opens in tt);
      counted = refl;
      expected = fresh.none_expected;
      written = refl;
      room = omega arith;
      fits = fresh.page_fits;
      placed = fresh.table_placed;
    }

    -- While nonces last, one for each byte and one more, writing any pieces to a fresh stream and
    -- finishing it ends, and ends without an error.
    pub write_pieces-Ends :
        (pieces : List Bytes)
        → counter_of w + length (flat pieces) ≤ max_counter
        → (s' : PageStream) × (w' : ImageWriter) × (write_pieces p
              (with_page_len stream kind key page_len)
              w
              pieces
            ≡ ok (s', w'))
    unfolding with_page_len
    write_pieces-Ends pieces c =
        let (s', w', done, h, empty, same) =
          write_pieces-Holds pieces start w [] start-Holds fresh.page_not_empty c in
        (s', w', done)

    -- The pages that were written to a fresh stream are read back, whatever follows them in the file:
    -- a reader is made over the entries of the stream, and reading as many bytes as were written gives
    -- them, in order, whatever the pieces and the pages were, and leaves nothing.
    pub read-write_pieces :
        (pieces : List Bytes) (s' : PageStream) (w' : ImageWriter) (more : Bytes)
        → counter_of w + length (flat pieces) ≤ max_counter
        → write_pieces p (with_page_len stream kind key page_len) w pieces ≡ ok (s', w')
        → length (w'.file ++ more) < 2 ^ 64
        → Reads p w' stream kind key more (flat pieces)
    unfolding with_page_len
    read-write_pieces pieces s' w' more c done small =
        let (t, v, done', h, empty, (e1, e2, e3, e4)) =
          write_pieces-Holds pieces start w [] start-Holds fresh.page_not_empty c in
        let given : Result (PageStream × ImageWriter) = ok (s', w') in
        let found : Result (PageStream × ImageWriter) = ok (t, v) in
        let both : given ≡ found = sym done ∙ done' in
        let same : v ≡ w' = cc in
        let small' : length (v.file ++ more) < 2 ^ 64 = rw same small in
        let reads = Holds-Reads p t v (flat pieces) more h empty small' in
        subst (λ x. Reads p x stream kind key more (flat pieces)) same
          (subst (λ k. Reads p v stream kind k more (flat pieces)) e3
            (subst (λ k. Reads p v stream k t.meta_key more (flat pieces)) e2
              (subst (λ k. Reads p v k t.kind t.meta_key more (flat pieces)) e1 reads)))
