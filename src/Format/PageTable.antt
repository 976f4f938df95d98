-- ===== src/Format/PageTable.antt =====
-- crates/lr-format/src/footer.rs: the entries of the page table, which name the pages of an image.
use linuxreflect.Base.{ℕ, Bool, List, filter, ◌==◌}
use linuxreflect.Crypto.Page.{StreamId, as_u8}

pub record PageEntry : Type 0 where
  pub stream : StreamId
  pub offset : ℕ
  pub len : ℕ

-- `==` of stream identifiers.
abbrev pub same_stream : StreamId → StreamId → Bool
same_stream a b = as_u8 a == as_u8 b

unfoldable pub entries_for : List PageEntry → StreamId → List PageEntry
entries_for page_table stream = filter (λ entry. same_stream entry.stream stream) page_table
