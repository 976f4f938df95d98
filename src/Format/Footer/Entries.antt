-- ===== src/Format/Footer/Entries.antt =====
-- crates/lr-format/src/footer.rs: the page table, written and read.
use linuxreflect.Base.{
  ◌<◌, ◌^◌, ◌≡◌, refl, ◌∙◌, ap, List, [], ◌∷◌, ◌++◌, length, All, drop, drop-append_of,
}
use mathlib.Core.List.{append_assoc}
use linuxreflect.Base.Result.{ok, ◌>>=◌}
use linuxreflect.Format.Wire.{Bytes, to_le_bytes, slice}
use linuxreflect.Format.Wire.RoundTrip.{slice_lem, length-to_le_bytes}
use linuxreflect.Format.Manifest.Entry.{drop-append_past}
use linuxreflect.Crypto.Page.{StreamId, manifest, hash_index, extras, page_table, as_u8, from_u8}
use linuxreflect.Format.PageTable.{PageEntry}
use linuxreflect.Format.Footer.{entry_bytes, table_bytes, page_entry_size, read_entries}

-- The numbers of an entry have their widths.
pub record Fits (e : PageEntry) : Type 0 where
  pub offset_fits : e.offset < 2 ^ 64
  pub len_fits : e.len < 2 ^ 32

from_u8-as_u8 : (s : StreamId) → from_u8 (as_u8 s) ≡ ok s
unfolding from_u8 as_u8
from_u8-as_u8 manifest = refl
from_u8-as_u8 hash_index = refl
from_u8-as_u8 extras = refl
from_u8-as_u8 page_table = refl

module _ (e : PageEntry) (rest : Bytes) where
  abbrev after_stream : Bytes
  after_stream = to_le_bytes 8 e.offset ++ (to_le_bytes 4 e.len ++ rest)

  without_stream : drop 1 (entry_bytes e ++ rest) ≡ after_stream
  without_stream = append_assoc (to_le_bytes 8 e.offset) (to_le_bytes 4 e.len) rest

  offset_read : Fits e → slice 8 (drop 1 (entry_bytes e ++ rest)) ≡ ok e.offset
  offset_read f =
      ap (slice 8) without_stream ∙ slice_lem 8 e.offset (to_le_bytes 4 e.len ++ rest) f.offset_fits

  from_len : drop 9 (entry_bytes e ++ rest) ≡ to_le_bytes 4 e.len ++ rest
  from_len =
      ap (drop 8) without_stream
      ∙ drop-append_of 8 (to_le_bytes 8 e.offset) (to_le_bytes 4 e.len ++ rest)
          (length-to_le_bytes 8 e.offset)

  len_read : Fits e → slice 4 (drop 9 (entry_bytes e ++ rest)) ≡ ok e.len
  len_read f = ap (slice 4) from_len ∙ slice_lem 4 e.len rest f.len_fits

  after_entry : drop page_entry_size (entry_bytes e ++ rest) ≡ rest
  after_entry =
      ap (drop 12) without_stream
      ∙ drop-append_past 8 4 (to_le_bytes 8 e.offset) (to_le_bytes 4 e.len ++ rest)
          (length-to_le_bytes 8 e.offset)
      ∙ drop-append_of 4 (to_le_bytes 4 e.len) rest (length-to_le_bytes 4 e.len)

-- A page table whose numbers have their widths is read back from the bytes it is written as, whatever
-- follows them.
pub read_entries-table_bytes :
    (es : List PageEntry) (rest : Bytes)
    → All Fits es
    → read_entries (length es) (table_bytes es rest) ≡ ok es
unfolding read_entries
read_entries-table_bytes [] rest h = refl
read_entries-table_bytes (e ∷ es) rest (f, h) =
    let more = table_bytes es rest in
    rw (
      from_u8-as_u8 e.stream,
      ◌>>=◌,
      offset_read e more f,
      len_read e more f,
      after_entry e more,
      read_entries-table_bytes es rest h,
    )
