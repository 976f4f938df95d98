-- ===== src/Format/PageStream/Writing.antt =====
-- Writing to a page stream adds the bytes to what it holds.
use linuxreflect.Base.{
  ℕ, zero, suc, ◌+◌, ◌-◌, ◌^◌, ◌≤◌, ◌<◌, ◌≡◌, ◌⊎◌, refl, sym, subst, ap, ◌∙◌, min, [], ◌∷◌, ◌++◌,
  length, take, drop, ◌==◌, arith, length-append, length-take, length-drop, take-append-drop, inl,
  inr, Bool-cases,
}
use mathlib.Core.List.{append_assoc, append-nil}
use linuxreflect.Base.Result.{Result, ok, ◌>>=◌}
use linuxreflect.Format.Wire.{Bytes}
use linuxreflect.Crypto.Nonce.{max_counter}
use linuxreflect.Crypto.Aead.{Primitives, IsSound}
use linuxreflect.Format.ImageWriter.{ImageWriter}
use linuxreflect.Format.PageReader.Refinement.{flat}
use linuxreflect.Format.PageStream.{
  PageStream, seal_and_write, flush_page, fill, bytes_left, write_loop, write,
}
use linuxreflect.Format.PageStream.Written.{
  Holds, SameStream, SameStream-trans, counter_of, seal_and_write-Holds,
}

module _ (p : Primitives) (sound : IsSound p) where
  -- What a step of writing gives: the stream and the image after it, with at most `n` nonces drawn.
  abbrev pub Steps :
      PageStream → ImageWriter → Bytes → ℕ → Result (PageStream × ImageWriter) → Type 0
  Steps s w content n result =
      (s' : PageStream) × (w' : ImageWriter) × (result ≡ ok (s', w'))
      × Holds p s' w' content
      × (length s'.buf < s'.page_len)
      × SameStream s s'
      × (counter_of w' ≤ counter_of w + n)

  flush_page_some :
      (s : PageStream) (w : ImageWriter) (b : ℕ) (bs : Bytes)
      → s.buf ≡ b ∷ bs
      → flush_page p s w ≡ seal_and_write p s w
  unfolding flush_page
  flush_page_some s w b bs e =
      ap (λ (xs : Bytes). elim xs [ [] ↦ ok (s, w) | _ ∷ _ ↦ seal_and_write p s w ]) e

  pub flush_page-Holds :
      (s : PageStream) (w : ImageWriter) (content : Bytes)
      → Holds p s w content
      → 0 < s.page_len
      → counter_of w ≤ max_counter
      → (s' : PageStream) × (w' : ImageWriter) × (flush_page p s w ≡ ok (s', w'))
        × Holds p s' w' content
        × (s'.buf ≡ [])
        × SameStream s s'
        × (counter_of w' ≤ counter_of w + 1)
  unfolding flush_page
  flush_page-Holds s w content h nonempty c = elim (empty_or_not s.buf) [
    | inl e ↦ (s, w, rw e refl, h, e, (refl, refl, refl, refl), omega arith)
    | inr (b, bs, e) ↦
        let (s', w', done, h', empty, same, drawn) = seal_and_write-Holds p sound s w content h c in
        (s', w', flush_page_some s w b bs e ∙ done, h', empty, same, omega (arith, drawn))
  ]
    where
      empty_or_not : (xs : Bytes) → (xs ≡ []) ⊎ ((x : ℕ) × (ys : Bytes) × (xs ≡ x ∷ ys))
      empty_or_not [] = inl refl
      empty_or_not (x ∷ xs) = inr (x, xs, refl)

  fill-Steps :
      (s : PageStream) (w : ImageWriter) (content bytes : Bytes)
      → Holds p s w content
      → length s.buf < s.page_len
      → counter_of w ≤ max_counter
      → Steps s w
          (content ++ take (min (s.page_len - length s.buf) (length bytes)) bytes)
          1
          (fill p s w bytes)
  unfolding fill
  fill-Steps s w content bytes h strict c =
      let taken = min (s.page_len - length s.buf) (length bytes) in
      let more = take taken bytes in
      let filled : PageStream = record s { buf = s.buf ++ more } in
      let total = length-append s.buf more in
      let took = length-take taken bytes in
      let h' : Holds p filled w (content ++ more) = record {
        pages = h.pages;
        opens = h.opens;
        counted = h.counted;
        expected = h.expected;
        written = sym (append_assoc (flat h.pages) s.buf more) ∙ ap (λ bs. bs ++ more) h.written;
        room = omega (arith, total, took);
        fits = h.fits;
        placed = h.placed;
      } in
      elim (Bool-cases (length filled.buf == s.page_len)) [
        | inl e ↦
            let (s', w', done, k, empty, same, drawn) =
              flush_page-Holds filled w (content ++ more) h' (omega arith) c in
            let (same_stream', same_kind, same_key, same_len) = same in
            let none_left : length s'.buf ≡ 0 = ap length empty in
            (s', w', rw e done, k, omega (arith, none_left, same_len), same, drawn)
        | inr e ↦ (
          filled,
          w,
          rw e refl,
          h',
          ground (arith, h'.room),
          (refl, refl, refl, refl),
          omega arith,
        )
      ]

  write_loop-Steps :
      (fuel : ℕ) (s : PageStream) (w : ImageWriter) (content bytes : Bytes)
      → Holds p s w content
      → length s.buf < s.page_len
      → counter_of w + length bytes ≤ 2 ^ 96
      → length bytes ≤ fuel
      → Steps s w (content ++ bytes) (length bytes) (write_loop p fuel s w bytes)
  unfolding write_loop
  write_loop-Steps fuel s w content [] h strict c l = (
    s,
    w,
    refl,
    subst (λ bs. Holds p s w bs) (sym (append-nil content)) h,
    strict,
    (refl, refl, refl, refl),
    omega arith,
  )
  write_loop-Steps zero s w content (b ∷ bs) h strict c l = absurd (omega arith)
  write_loop-Steps (suc fuel) s w content (b ∷ bs) h strict c l =
      let bytes = b ∷ bs in
      let taken = min (s.page_len - length s.buf) (length bytes) in
      let (s', w', done, h', strict', same, drawn) =
        fill-Steps s w content bytes h strict (omega arith) in
      let left = length-drop taken bytes in
      let (s'', w'', done', h'', strict'', same', drawn') =
        write_loop-Steps fuel s' w' (content ++ take taken bytes) (bytes_left p s bytes) h' strict'
          (omega (arith, left, drawn, strict)) (omega (arith, left, strict)) in
      let whole : (content ++ take taken bytes) ++ drop taken bytes ≡ content ++ bytes =
        append_assoc content (take taken bytes) (drop taken bytes)
        ∙ ap (λ xs. content ++ xs) (take-append-drop taken bytes) in
      (
        s'',
        w'',
        rw (done, ◌>>=◌) done',
        subst (λ xs. Holds p s'' w'' xs) whole h'',
        strict'',
        SameStream-trans s s' s'' same same',
        omega (arith, left, drawn, drawn', strict),
      )

  -- While nonces last, one for each byte at most, `write` ends and adds its bytes to what the stream
  -- holds; the buffer has room again.
  pub write-Steps :
      (s : PageStream) (w : ImageWriter) (content bytes : Bytes)
      → Holds p s w content
      → length s.buf < s.page_len
      → counter_of w + length bytes ≤ 2 ^ 96
      → Steps s w (content ++ bytes) (length bytes) (write p s w bytes)
  unfolding write
  write-Steps s w content bytes h strict c =
      write_loop-Steps (length bytes) s w content bytes h strict c (omega arith)
