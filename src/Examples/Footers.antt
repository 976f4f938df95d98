-- ===== src/Examples/Footers.antt =====
-- crates/lr-format/src/footer.rs: a page table of two pages.
use linuxreflect.Base.{◌≡◌, List, [], ◌∷◌, arith, length}
use linuxreflect.Base.Result.{ok}
use linuxreflect.Crypto.Page.{manifest, extras}
use linuxreflect.Format.PageTable.{PageEntry}
use linuxreflect.Format.Footer.{read_entries, table_bytes}
use linuxreflect.Format.Footer.Entries.{read_entries-table_bytes}

abbrev two_pages : List PageEntry
two_pages =
    record { stream = manifest; offset = 8192; len = 300 }
    ∷ record { stream = extras; offset = 8600; len = 40 }
    ∷ []

read_entries-table_bytes_example :
    read_entries (length two_pages) (table_bytes two_pages (9 ∷ [])) ≡ ok two_pages
read_entries-table_bytes_example = read_entries-table_bytes two_pages (9 ∷ []) (
  record { offset_fits = omega arith; len_fits = omega arith },
  (record { offset_fits = omega arith; len_fits = omega arith }, tt),
)
