-- ===== src/Format/PageReader/Opening.antt =====
-- A reader is made over entries that lie inside the file.
use linuxreflect.Base.{
  ℕ, ◌+◌, ◌^◌, ◌≤◌, ◌<◌, ◌≡◌, refl, false, List, [], ◌∷◌, ◌++◌, length, All, ltb, leb, arith,
  SortedBy, sort_by-SortedBy_same, SortedBy-filter, SortedBy-snoc, All-filter, All-append,
  All-map_of,
}
use linuxreflect.Base.Result.{ok}
use linuxreflect.Format.Wire.{Bytes}
use linuxreflect.Format.PageTable.{PageEntry, entries_for, same_stream}
use linuxreflect.Crypto.Aead.{AeadKind, Primitives}
use linuxreflect.Crypto.Page.{StreamId, page_overhead, max_page_len}
use linuxreflect.Format.PageReader.{PageStreamReader, new, check_entry, check_entries, by_offset}
use linuxreflect.Format.PageReader.Refinement.{Content, Opens, flat}

-- Every entry lies inside a file of this length, and none is too long.
abbrev pub Inside : ℕ → List PageEntry → Type 0
Inside len entries =
    All (λ e. (e.len ≤ max_page_len) × (e.offset + (e.len + page_overhead) ≤ len)) entries

-- The entries lie inside the file, in the order of their offsets.
abbrev pub Placed : ℕ → List PageEntry → Type 0
Placed len entries = Inside len entries × SortedBy by_offset entries

check_entries-Inside :
    (len : ℕ) (entries : List PageEntry)
    → len < 2 ^ 64
    → Inside len entries
    → check_entries len entries ≡ ok tt
unfolding check_entries check_entry
check_entries-Inside len [] h i = refl
check_entries-Inside len (e ∷ entries) h ((small, fits), i) =
    let short : ltb max_page_len e.len ≡ false = ground arith in
    let no_overflow : leb (2 ^ 64) (e.offset + (e.len + page_overhead)) ≡ false = ground arith in
    let inside : ltb len (e.offset + (e.len + page_overhead)) ≡ false = ground arith in
    rw (short, no_overflow, inside) (check_entries-Inside len entries h i)

Inside-longer :
    (len more : ℕ) (entries : List PageEntry)
    → len ≤ more
    → Inside len entries
    → Inside more entries
Inside-longer len more entries l =
    All-map_of
      (λ e (h : (e.len ≤ max_page_len) × (e.offset + (e.len + page_overhead) ≤ len)).
        (h.0, omega arith))
      entries

pub Placed-entries_for :
    (len more : ℕ) (table : List PageEntry) (stream : StreamId)
    → len ≤ more
    → Placed len table
    → Placed more (entries_for table stream)
unfolding entries_for
Placed-entries_for len more table stream l (inside, sorted) = (
  All-filter (λ e. (e.len ≤ max_page_len) × (e.offset + (e.len + page_overhead) ≤ more))
      (λ e. same_stream e.stream stream) table (Inside-longer len more table l inside),
  SortedBy-filter by_offset (λ e. same_stream e.stream stream) table sorted,
)

-- An entry at the end of the file comes after the others.
pub Placed-snoc :
    (len more : ℕ) (table : List PageEntry) (e : PageEntry)
    → e.offset ≡ len
    → e.len ≤ max_page_len
    → len + (e.len + page_overhead) ≤ more
    → Placed len table
    → Placed more (table ++ (e ∷ []))
Placed-snoc len more table e at small fits (inside, sorted) = (
  All-append (λ e. (e.len ≤ max_page_len) × (e.offset + (e.len + page_overhead) ≤ more)) table
      (e ∷ []) (Inside-longer len more table (omega arith) inside) ((small, omega arith), tt),
  SortedBy-snoc by_offset table e
      (All-map_of
        (λ x (h : (x.len ≤ max_page_len) × (x.offset + (x.len + page_overhead) ≤ len)).
          ground arith)
        table inside)
      sorted,
)

-- A reader over entries that open as pages starts with all bytes of the pages left.
pub new-Content :
    (p : Primitives) (file : Bytes) (kind : AeadKind) (key : Bytes) (stream : StreamId)
    (entries : List PageEntry) (pages : List Bytes)
    → length file < 2 ^ 64
    → Placed (length file) entries
    → Opens p file kind key stream 0 entries pages
    → (r : PageStreamReader) × (new file kind key stream entries (length file) ≡ ok r)
      × Content p r (flat pages)
unfolding new Content
new-Content p file kind key stream entries pages h (inside, sorted) o = (
  record {
    file = file;
    kind = kind;
    meta_key = key;
    stream = stream;
    entries = entries;
    index = 0;
    buf = [];
  },
  rw
      (
        check_entries-Inside (length file) entries h inside,
        sort_by-SortedBy_same by_offset entries sorted,
      )
      refl,
  (pages, o, refl),
)
