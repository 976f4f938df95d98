-- ===== src/Format/PageReader/Ending.antt =====
-- crates/lr-format/src/stream.rs: the loop of read_bytes over any file, with any entries.
use linuxreflect.Base.{
  ℕ, zero, suc, ◌+◌, ◌-◌, ◌≤◌, ◌≢◌, ◌≡◌, min, take, Option, none, some, List, [], ◌∷◌, length, drop,
  ltb, arith, Bool, true, false, Bool-cases, inl, inr, ◌!=◌,
}
use linuxreflect.Base.Result.{
  Error, aead, Result, ok, err, corrupt, unsupported, refuse, ok_or, Result-cases, ◌>>=◌,
}
use linuxreflect.Format.Wire.{Bytes, slice}
use linuxreflect.Format.PageTable.{PageEntry}
use linuxreflect.Crypto.Aead.{AeadKind, Primitives, open_in_place, cipher_of, nonce_len}
use linuxreflect.Crypto.Page.{
  StreamId, open_page, page_ad, page_magic, page_overhead, page_header_len, max_page_len,
}
use linuxreflect.Format.PageReader.{
  PageStreamReader, read_at, page_at, load_next, copy, read_loop, read_bytes,
}

-- Not the answer of a loop that is out of fuel.
unfoldable Settles : {A : Type 0} → Result A → Type 0
Settles (ok a) = Unit
Settles (err e) = e ≢ unsupported

Settles-unsupported : {A : Type 0} (r : Result A) → Settles r → r ≢ err unsupported
unfolding Settles
Settles-unsupported (ok a) h = λ q. cc
Settles-unsupported (err e) h = λ q. let same : e ≡ unsupported = cc in h same

>>=-Settles :
    {A B : Type 0} (r : Result A) (f : A → Result B)
    → Settles r
    → ((a : A) → Settles (f a))
    → Settles (r >>= f)
unfolding Settles
>>=-Settles (ok a) f h k = k a
>>=-Settles (err e) f h k = h

refuse-Settles : (test : Bool) → Settles (refuse test corrupt)
unfolding Settles
refuse-Settles true = λ q. cc
refuse-Settles false = tt

slice-Settles : (w : ℕ) (bytes : Bytes) → Settles (slice w bytes)
unfolding Settles slice
slice-Settles w bytes = elim (Bool-cases (ltb (length bytes) w)) [
  | inl e ↦ rw e (λ q. cc)
  | inr e ↦ rw e tt
]

ok_or-Settles :
    {A : Type 0} (found : Option A) (e : Error) → e ≢ unsupported → Settles (ok_or found e)
unfolding Settles
ok_or-Settles none e h = h
ok_or-Settles (some a) e h = tt

read_at-Settles : (file : Bytes) (offset total : ℕ) → Settles (read_at file offset total)
unfolding Settles read_at
read_at-Settles file offset total = elim (Bool-cases (ltb (length (drop offset file)) total)) [
  | inl e ↦ rw e (λ q. cc)
  | inr e ↦ rw e tt
]

module _ (p : Primitives) where
  open_page-Settles :
      (kind : AeadKind) (key : Bytes) (stream : StreamId) (page_no : ℕ) (bytes : Bytes)
      → Settles (open_page p kind key stream page_no bytes)
  unfolding open_page open_in_place
  open_page-Settles kind key stream page_no bytes =
      let nonce = take nonce_len (drop (2 + 4) bytes) in
      let opened = λ (len : ℕ).
        (cipher_of p kind).decrypt key nonce (page_ad stream page_no)
          (take len (drop page_header_len bytes)) (drop (page_header_len + len) bytes) in
      >>=-Settles _ _ (refuse-Settles (ltb (length bytes) page_overhead)) (λ done.
        >>=-Settles (slice 2 bytes) _ (slice-Settles 2 bytes) (λ magic.
          >>=-Settles _ _ (refuse-Settles (magic != page_magic)) (λ done.
            >>=-Settles (slice 4 (drop 2 bytes)) _ (slice-Settles 4 (drop 2 bytes)) (λ len.
              >>=-Settles _ _ (refuse-Settles (ltb max_page_len len)) (λ done.
                >>=-Settles _ _ (refuse-Settles (length bytes != page_overhead + len))
                  (λ done. ok_or-Settles (opened len) aead (λ q. cc)))))))

  page_at-Settles :
      (file : Bytes) (kind : AeadKind) (key : Bytes) (stream : StreamId) (index : ℕ) (e : PageEntry)
      → Settles (page_at p file kind key stream index e)
  unfolding page_at
  page_at-Settles file kind key stream index e =
      >>=-Settles _ _ (read_at-Settles _ _ _) (λ raw. open_page-Settles kind key stream index raw)

  copy-Settles :
      (more : ℕ → PageStreamReader → Result (Bytes × PageStreamReader)) (n : ℕ)
      (r : PageStreamReader)
      → Settles
          (more (n - min n (length r.buf)) (record r { buf = drop (min n (length r.buf)) r.buf }))
      → Settles (copy p more n r)
  unfolding Settles
  copy-Settles more n r h =
      >>=-Settles
        (more (n - min n (length r.buf)) (record r { buf = drop (min n (length r.buf)) r.buf })) _ h
        (λ rest. tt)

  module _ (file : Bytes) (kind : AeadKind) (key : Bytes) (stream : StreamId) where
    abbrev reader : List PageEntry → ℕ → Bytes → PageStreamReader
    reader entries index buf = record {
      file = file;
      kind = kind;
      meta_key = key;
      stream = stream;
      entries = entries;
      index = index;
      buf = buf;
    }

    read_loop-Settles :
        (fuel n : ℕ) (entries : List PageEntry) (index : ℕ) (buf : Bytes)
        → n + length entries ≤ fuel
        → Settles (read_loop p fuel n (reader entries index buf))
    unfolding read_loop load_next Settles
    read_loop-Settles fuel zero entries index buf l = tt
    read_loop-Settles zero (suc n) entries index buf l = absurd (omega arith)
    read_loop-Settles (suc fuel) (suc n) entries index (b ∷ bs) l =
        copy-Settles (read_loop p fuel) (suc n) (reader entries index (b ∷ bs)) (
          read_loop-Settles fuel (suc n - min (suc n) (suc (length bs))) entries index
            (drop (min (suc n) (suc (length bs))) (b ∷ bs)) (omega arith))
    read_loop-Settles (suc fuel) (suc n) [] index [] l = λ q. cc
    read_loop-Settles (suc fuel) (suc n) (e ∷ es) index [] l =
        elim (Result-cases (page_at p file kind key stream index e)) [
          | inl (page, opened) ↦
              rw (opened, ◌>>=◌)
                (copy-Settles (read_loop p fuel) (suc n) (reader es (index + 1) page) (
                  read_loop-Settles fuel (suc n - min (suc n) (length page)) es (index + 1)
                    (drop (min (suc n) (length page)) page) (omega arith)))
          | inr (x, refused) ↦
              let h : Settles (page_at p file kind key stream index e) =
                page_at-Settles file kind key stream index e in
              let k : x ≢ unsupported = rw refused at h in rw (refused, ◌>>=◌) k
        ]

-- Whatever the file and the entries of a reader hold and however many bytes are asked for, reading
-- never answers `unsupported`, which is what the loop answers out of fuel: it ends with the bytes or
-- with an error of a page or of the end of the stream.
pub read_bytes-Ends :
    (p : Primitives) (n : ℕ) (r : PageStreamReader) → read_bytes p n r ≢ err unsupported
unfolding read_bytes
read_bytes-Ends p n r = Settles-unsupported (read_bytes p n r) (
    read_loop-Settles p r.file r.kind r.meta_key r.stream (n + length r.entries) n r.entries r.index
      r.buf (omega arith))
