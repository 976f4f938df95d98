-- ===== src/Format/PageStream.antt =====
-- crates/lr-format/src/stream.rs: writing a page stream. The sink is the image writer, which the
-- operations take and return beside the stream.
pub mod Written
pub mod Writing
pub mod RoundTrip
use linuxreflect.Base.{
  ℕ, zero, suc, ◌+◌, ◌-◌, ◌*◌, min, List, [], ◌∷◌, ◌++◌, length, take, drop, ◌==◌, if◌then◌else◌,
}
use linuxreflect.Base.Result.{Result, ok, err, unsupported, ◌>>=◌}
use linuxreflect.Format.Wire.{Bytes}
use linuxreflect.Format.ImageWriter.{ImageWriter, write_page}
use linuxreflect.Crypto.Aead.{AeadKind, Primitives}
use linuxreflect.Crypto.Page.{StreamId, seal_page}

abbrev pub default_page_len : ℕ
default_page_len = 1024 * 1024

pub record PageStream : Type 0 where
  pub stream : StreamId
  pub kind : AeadKind
  pub meta_key : Bytes
  pub page_len : ℕ
  pub buf : Bytes
  pub page_no : ℕ
  pub pages : ℕ

-- The code asserts that `page_len` is in 1..=MAX_PAGE_LEN.
unfoldable pub with_page_len : StreamId → AeadKind → Bytes → ℕ → PageStream
with_page_len stream kind meta_key page_len = record {
  stream = stream;
  kind = kind;
  meta_key = meta_key;
  page_len = page_len;
  buf = [];
  page_no = 0;
  pages = 0;
}

unfoldable pub new : StreamId → AeadKind → Bytes → PageStream
new stream kind meta_key = with_page_len stream kind meta_key default_page_len

module _ (p : Primitives) where
  -- A page that is not empty.
  unfoldable pub seal_and_write : PageStream → ImageWriter → Result (PageStream × ImageWriter)
  seal_and_write s w = do
    (page, nonces) ← seal_page p s.kind s.meta_key s.stream s.page_no s.buf w.meta_nonces []
    w' ← write_page (record w { meta_nonces = nonces }) s.stream s.page_no page
    ok (record s { page_no = s.page_no + 1; pages = s.pages + 1; buf = [] }, w')

  unfoldable pub flush_page : PageStream → ImageWriter → Result (PageStream × ImageWriter)
  flush_page s w = elim s.buf [ [] ↦ ok (s, w) | _ ∷ _ ↦ seal_and_write s w ]

  -- One turn of the loop: the buffer takes what it has room for.
  unfoldable pub fill : PageStream → ImageWriter → Bytes → Result (PageStream × ImageWriter)
  fill s w bytes =
      let taken = min (s.page_len - length s.buf) (length bytes) in
      let filled : PageStream = record s { buf = s.buf ++ take taken bytes } in
      if length filled.buf == s.page_len then flush_page filled w else ok (filled, w)

  abbrev pub bytes_left : PageStream → Bytes → Bytes
  bytes_left s bytes = drop (min (s.page_len - length s.buf) (length bytes)) bytes

  -- The loop, on fuel.
  unfoldable pub write_loop :
      ℕ → PageStream → ImageWriter → Bytes → Result (PageStream × ImageWriter)
  write_loop fuel s w [] = ok (s, w)
  write_loop zero s w (b ∷ bs) = err unsupported
  write_loop (suc fuel) s w (b ∷ bs) =
      fill s w (b ∷ bs) >>= λ state. write_loop fuel state.0 state.1 (bytes_left s (b ∷ bs))

  -- Every turn takes a byte.
  unfoldable pub write : PageStream → ImageWriter → Bytes → Result (PageStream × ImageWriter)
  write s w bytes = write_loop (length bytes) s w bytes

  unfoldable pub finish : PageStream → ImageWriter → Result (PageStream × ImageWriter)
  finish s w = flush_page s w
