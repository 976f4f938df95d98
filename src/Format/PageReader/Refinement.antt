-- ===== src/Format/PageReader/Refinement.antt =====
-- A page stream is read as the bytes of its pages, one after another.
use linuxreflect.Base.{
  ℕ, zero, suc, ◌+◌, ◌-◌, ◌≤◌, ◌<◌, ◌≡◌, refl, sym, subst, ap, min, List, [], ◌∷◌, ◌++◌, length,
  take, drop, ltb, arith, length-append, length-drop, inl, inr, Bool-cases,
}
use linuxreflect.Base.Result.{Result, ok, err, corrupt, ◌>>=◌}
use linuxreflect.Format.Wire.{Bytes}
use linuxreflect.Format.Wire as Wire
use linuxreflect.Format.PageTable.{PageEntry}
use linuxreflect.Crypto.Aead.{AeadKind, Primitives}
use linuxreflect.Crypto.Page.{StreamId}
use linuxreflect.Format.PageReader.{
  PageStreamReader, page_at, load_next, copy, read_loop, read_bytes,
}

abbrev pub flat : List Bytes → Bytes
flat [] = []
flat (page ∷ pages) = page ++ flat pages

-- Reading the front of a concatenation in two parts.
take_parts :
    (n : ℕ) (xs ys : Bytes)
    → take n (xs ++ ys)
      ≡ take (min n (length xs)) xs
        ++ take (n - min n (length xs)) (drop (min n (length xs)) xs ++ ys)
take_parts zero xs ys = let none_taken : min 0 (length xs) ≡ 0 = omega arith in rw none_taken refl
take_parts (suc n) [] ys =
    let none_taken : min (suc n) 0 ≡ 0 = omega arith in
    let all : suc n - 0 ≡ suc n = omega arith in rw (none_taken, all) refl
take_parts (suc n) (x ∷ xs) ys =
    let one : min (suc n) (suc (length xs)) ≡ suc (min n (length xs)) = omega arith in
    let rest : suc n - suc (min n (length xs)) ≡ n - min n (length xs) = omega arith in
    rw (one, rest) (ap (◌∷◌ x) (take_parts n xs ys))

drop_parts :
    (n : ℕ) (xs ys : Bytes)
    → drop n (xs ++ ys) ≡ drop (n - min n (length xs)) (drop (min n (length xs)) xs ++ ys)
drop_parts zero xs ys = let none_taken : min 0 (length xs) ≡ 0 = omega arith in rw none_taken refl
drop_parts (suc n) [] ys =
    let none_taken : min (suc n) 0 ≡ 0 = omega arith in
    let all : suc n - 0 ≡ suc n = omega arith in rw (none_taken, all) refl
drop_parts (suc n) (x ∷ xs) ys =
    let one : min (suc n) (suc (length xs)) ≡ suc (min n (length xs)) = omega arith in
    let rest : suc n - suc (min n (length xs)) ≡ n - min n (length xs) = omega arith in
    rw (one, rest) (drop_parts n xs ys)

module _ (p : Primitives) where
  -- The entries from a position of the stream on are opened as these pages.
  unfoldable pub Opens :
      Bytes → AeadKind → Bytes → StreamId → ℕ → List PageEntry → List Bytes → Type 0
  Opens file kind key stream index [] [] = Unit
  Opens file kind key stream index (e ∷ es) (page ∷ pages) =
      (page_at p file kind key stream index e ≡ ok page)
      × Opens file kind key stream (index + 1) es pages
  Opens file kind key stream index _ _ = ⊥

  -- What a reader has left to read.
  unfoldable pub Content : PageStreamReader → Bytes → Type 0
  Content r content =
      (pages : List Bytes) × Opens r.file r.kind r.meta_key r.stream r.index r.entries pages
      × (content ≡ r.buf ++ flat pages)

  -- The result is that of reading `n` bytes of the content.
  abbrev Agrees : ℕ → Bytes → Result (Bytes × PageStreamReader) → Type 0
  Agrees n content result =
      (length content < n → result ≡ err corrupt)
      × (n ≤ length content
          → (r : PageStreamReader) × (result ≡ ok (take n content, r)) × Content r (drop n content))

  copy-Agrees :
      (more : ℕ → PageStreamReader → Result (Bytes × PageStreamReader)) (n : ℕ)
      (r : PageStreamReader) (pages : List Bytes)
      → (let taken = min n (length r.buf) in
          Agrees
            (n - taken)
            (drop taken r.buf ++ flat pages)
            (more (n - taken) (record r { buf = drop taken r.buf })))
      → Agrees n (r.buf ++ flat pages) (copy p more n r)
  copy-Agrees more n r pages (short, enough) =
      let taken = min n (length r.buf) in
      let rest = drop taken r.buf ++ flat pages in
      let total = length-append r.buf (flat pages) in
      let left = length-append (drop taken r.buf) (flat pages) in
      let dropped = length-drop taken r.buf in
      (
        λ l. rw (short (omega (arith, total, left, dropped, l)), ◌>>=◌) refl,
        λ l.
            let (r', e, c) = enough (omega (arith, total, left, dropped, l)) in
            (
              r',
              rw (e, ◌>>=◌) (ap (λ bytes. ok (bytes, r')) (sym (take_parts n r.buf (flat pages)))),
              subst (λ bytes. Content r' bytes) (sym (drop_parts n r.buf (flat pages))) c,
            ),
      )

  module _ (file : Bytes) (kind : AeadKind) (key : Bytes) (stream : StreamId) where
    abbrev reader : List PageEntry → ℕ → Bytes → PageStreamReader
    reader entries index buf = record {
      file = file;
      kind = kind;
      meta_key = key;
      stream = stream;
      entries = entries;
      index = index;
      buf = buf;
    }

    read_loop-Agrees :
        (fuel n : ℕ) (entries : List PageEntry) (index : ℕ) (buf : Bytes) (pages : List Bytes)
        → Opens file kind key stream index entries pages
        → n + length entries ≤ fuel
        → Agrees n (buf ++ flat pages) (read_loop p fuel n (reader entries index buf))
    unfolding read_loop load_next Opens
    read_loop-Agrees fuel zero entries index buf pages h l = (
      λ k. absurd (omega arith),
      λ k. (reader entries index buf, refl, unfold Content in (pages, h, refl)),
    )
    read_loop-Agrees zero (suc n) entries index buf pages h l = absurd (omega arith)
    read_loop-Agrees (suc fuel) (suc n) entries index (b ∷ bs) pages h l =
        copy-Agrees (read_loop p fuel) (suc n) (reader entries index (b ∷ bs)) pages (
          read_loop-Agrees fuel (suc n - min (suc n) (suc (length bs))) entries index
            (drop (min (suc n) (suc (length bs))) (b ∷ bs)) pages h (omega arith))
    read_loop-Agrees (suc fuel) (suc n) [] index [] [] h l = (λ k. refl, λ k. absurd (omega arith))
    read_loop-Agrees (suc fuel) (suc n) (e ∷ es) index [] (page ∷ pages) (opened, h) l =
        rw (opened, ◌>>=◌)
          (copy-Agrees (read_loop p fuel) (suc n) (reader es (index + 1) page) pages (
            read_loop-Agrees fuel (suc n - min (suc n) (length page)) es (index + 1)
              (drop (min (suc n) (length page)) page) pages h (omega arith)))
    read_loop-Agrees (suc fuel) (suc n) [] index [] (page ∷ pages) h l = absurd h
    read_loop-Agrees (suc fuel) (suc n) (e ∷ es) index [] [] h l = absurd h

  read_loop-Content :
      (fuel n : ℕ) (r : PageStreamReader) (content : Bytes)
      → Content r content
      → n + length r.entries ≤ fuel
      → Agrees n content (read_loop p fuel n r)
  unfolding Content
  read_loop-Content fuel n r content (pages, h, e) l =
      subst (λ c. Agrees n c (read_loop p fuel n r)) (sym e)
        (read_loop-Agrees r.file r.kind r.meta_key r.stream fuel n r.entries r.index r.buf pages h
          l)

  -- A reader's result beside that of reading from the front of its content.
  abbrev pub ReadsLike : Result (Bytes × Bytes) → Result (Bytes × PageStreamReader) → Type 0
  ReadsLike (ok (bytes, rest)) result =
      (r : PageStreamReader) × (result ≡ ok (bytes, r)) × Content r rest
  ReadsLike (err e) result = result ≡ err e

  -- A reader whose entries open as pages reads, at any length, what reading that many bytes from the
  -- front of the pages' bytes gives: the same bytes with a reader of the rest, or the same error, which
  -- is `corrupt`. It never answers `unsupported`, with which the loop would run out of its fuel: the
  -- loop ends, whatever the lengths of the pages are.
  pub read_bytes-Content :
      (n : ℕ) (r : PageStreamReader) (content : Bytes)
      → Content r content
      → ReadsLike (Wire.read_bytes n content) (read_bytes p n r)
  unfolding Wire.read_bytes read_bytes
  read_bytes-Content n r content c =
      let agrees = read_loop-Content (n + length r.entries) n r content c (omega arith) in
      elim (Bool-cases (ltb (length content) n)) [
        | inl e ↦ rw e (agrees.0 (ground arith))
        | inr e ↦ rw e (agrees.1 (ground arith))
      ]
