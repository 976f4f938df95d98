-- ===== src/Format/PageReader.antt =====
-- crates/lr-format/src/stream.rs: reading a page stream. The file is its bytes, so that a seek and
-- `read_exact` take the bytes at an offset. The entries of a reader are those from `index` on, and its
-- buffer is what `pos` has left of it.
pub mod Refinement
pub mod Growing
pub mod Ending
pub mod Opening
use linuxreflect.Base.{
  ℕ, zero, suc, ◌+◌, ◌-◌, ◌^◌, ◌≤◌, min, Bool, ◌||◌, Option, none, some, List, [], ◌∷◌, ◌++◌,
  length, take, drop, any, ltb, leb, if◌then◌else◌, sort_by,
}
use linuxreflect.Base.Result.{Result, ok, err, corrupt, unsupported, refuse, ok_or, ◌>>=◌, ◌>>◌}
use linuxreflect.Format.Wire.{Bytes}
use linuxreflect.Format.PageTable.{PageEntry}
use linuxreflect.Crypto.Aead.{AeadKind, Primitives}
use linuxreflect.Crypto.Page.{StreamId, open_page, page_overhead, max_page_len}

pub record PageStreamReader : Type 0 where
  pub file : Bytes
  pub kind : AeadKind
  pub meta_key : Bytes
  pub stream : StreamId
  pub entries : List PageEntry
  pub index : ℕ
  pub buf : Bytes

-- The tests of one entry: its length, the overflow of its end, and its end.
unfoldable pub check_entry : ℕ → PageEntry → Result (Unit {0})
check_entry file_len entry = do
  refuse (ltb max_page_len entry.len) corrupt
  let end = entry.offset + (entry.len + page_overhead)
  refuse (leb (2 ^ 64) end) corrupt
  refuse (ltb file_len end) corrupt

unfoldable pub check_entries : ℕ → List PageEntry → Result (Unit {0})
check_entries file_len [] = ok tt
check_entries file_len (entry ∷ rest) = check_entry file_len entry >> check_entries file_len rest

abbrev pub by_offset : PageEntry → PageEntry → Bool
by_offset a b = leb a.offset b.offset

unfoldable pub new :
    Bytes → AeadKind → Bytes → StreamId → List PageEntry → ℕ → Result PageStreamReader
new file kind meta_key stream entries file_len = do
  check_entries file_len entries
  ok (record {
    file = file;
    kind = kind;
    meta_key = meta_key;
    stream = stream;
    entries = sort_by by_offset entries;
    index = 0;
    buf = [];
  })

-- A seek and `read_exact`.
unfoldable pub read_at : Bytes → ℕ → ℕ → Result Bytes
read_at file offset total =
    if ltb (length (drop offset file)) total
    then err corrupt
    else ok (take total (drop offset file))

module _ (p : Primitives) where
  -- The page that an entry names, at a position of its stream.
  unfoldable pub page_at : Bytes → AeadKind → Bytes → StreamId → ℕ → PageEntry → Result Bytes
  page_at file kind meta_key stream index entry = do
    raw ← read_at file entry.offset (entry.len + page_overhead)
    open_page p kind meta_key stream index raw

  -- `None` where the source returns false.
  unfoldable pub load_next : PageStreamReader → Result (Option PageStreamReader)
  load_next r = elim r.entries [
    | [] ↦ ok none
    | entry ∷ rest ↦ page_at r.file r.kind r.meta_key r.stream r.index entry >>= λ page.
        ok (some (record r { entries = rest; index = r.index + 1; buf = page }))
  ]

  abbrev pub load_if_read : PageStreamReader → Result (Option PageStreamReader)
  load_if_read r = elim r.buf [ [] ↦ load_next r | _ ∷ _ ↦ ok (some r) ]

  unfoldable pub read_bytes_partial : ℕ → PageStreamReader → Result (Bytes × PageStreamReader)
  read_bytes_partial n r = load_if_read r >>= λ loaded. elim loaded [
    | none ↦ ok ([], r)
    | some r' ↦
        let taken = min n (length r'.buf) in
        ok (take taken r'.buf, record r' { buf = drop taken r'.buf })
  ]

  -- One turn of the loop of `read_bytes`, and what `more` reads after it.
  abbrev pub copy :
      (ℕ → PageStreamReader → Result (Bytes × PageStreamReader))
      → ℕ
      → PageStreamReader
      → Result (Bytes × PageStreamReader)
  copy more n r =
      let taken = min n (length r.buf) in
      more (n - taken) (record r { buf = drop taken r.buf }) >>= λ rest.
      ok (take taken r.buf ++ rest.0, rest.1)

  -- The loop, on fuel. Running out of it is `unsupported`, which nothing that reads a page answers.
  unfoldable pub read_loop : ℕ → ℕ → PageStreamReader → Result (Bytes × PageStreamReader)
  read_loop fuel zero r = ok ([], r)
  read_loop zero (suc n) r = err unsupported
  read_loop (suc fuel) (suc n) r =
      load_if_read r >>= λ loaded. ok_or loaded corrupt >>= copy (read_loop fuel) (suc n)

  -- Every turn takes a byte or loads a page.
  unfoldable pub read_bytes : ℕ → PageStreamReader → Result (Bytes × PageStreamReader)
  read_bytes n r = read_loop (n + length r.entries) n r
