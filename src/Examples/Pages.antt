-- ===== src/Examples/Pages.antt =====
-- Metadata pages of a small image, with the cipher of Sealing.
use linuxreflect.Base.{
  ◌≢◌, ◌+◌, ◌^◌, ◌≡◌, refl, ◌++◌, none, List, [], ◌∷◌, arith, length, replicate, ltb, ltb→lt, true,
}
use linuxreflect.Base.Result.{ok, err, unsupported}
use linuxreflect.Format.Wire.{Bytes, to_le_bytes, from_le_bytes, slice}
use linuxreflect.Format.Wire as Wire
use linuxreflect.Format.PageTable.{entries_for}
use linuxreflect.Format.ImageWriter.{ImageWriter, write_page}
use linuxreflect.Format.PageReader.{PageStreamReader, page_at, read_bytes, read_at}
use linuxreflect.Format.PageReader.Ending.{read_bytes-Ends}
use linuxreflect.Format.PageReader.Refinement.{Opens, Content, ReadsLike, read_bytes-Content, flat}
use linuxreflect.Format.PageStream.{
  PageStream, with_page_len, write, write_loop, fill, flush_page, seal_and_write, finish,
}
use linuxreflect.Format.PageStream.RoundTrip.{
  IsFresh, write_pieces, write_pieces-Ends, Reads, read-write_pieces,
}
use linuxreflect.Crypto.Nonce.{NonceSeq, next_nonce}
use linuxreflect.Crypto.Aead.{aes_256_gcm, seal_in_place, open_in_place}
use linuxreflect.Crypto.Page.{manifest, as_u8, seal_page, open_page, page_overhead}
use linuxreflect.Crypto.Page.RoundTrip.{record_bytes, open-seal_page}
use linuxreflect.Examples.Sealing.{copying, copying-IsSound}

abbrev page_key : Bytes
page_key = 5 ∷ []

abbrev seq : NonceSeq
seq = record { counter = 0 }

open-seal_page_example :
    (page : Bytes) × (seal_page copying aes_256_gcm page_key manifest 3 (1 ∷ 2 ∷ []) seq (7 ∷ [])
      ≡ ok ((7 ∷ []) ++ page, record { counter = 1 }))
    × (length page ≡ page_overhead + 2)
    × (open_page copying aes_256_gcm page_key manifest 3 page ≡ ok (1 ∷ 2 ∷ []))
open-seal_page_example =
    open-seal_page copying copying-IsSound aes_256_gcm page_key manifest 3 (1 ∷ 2 ∷ []) seq (7 ∷ [])
      (omega arith) (omega arith)

abbrev empty_image : ImageWriter
empty_image = record {
  file = replicate 4 0;
  superblock_bytes = replicate 4 0;
  page_table = [];
  data_end_offset = none;
  total_chunks = 0;
  next_page = λ stream. 0;
  meta_nonces = seq;
}

empty_image-IsFresh : IsFresh empty_image manifest 2
empty_image-IsFresh = record {
  no_pages = unfold entries_for in refl;
  none_expected = refl;
  table_placed = (tt, tt);
  page_not_empty = omega arith;
  page_fits = omega arith;
}

abbrev pieces : List Bytes
pieces = (1 ∷ 2 ∷ 3 ∷ []) ∷ [] ∷ (4 ∷ 5 ∷ []) ∷ []

abbrev Done : Type 0
Done =
    (s : PageStream) × (w : ImageWriter) × (write_pieces copying
        (with_page_len manifest aes_256_gcm page_key 2) empty_image pieces
      ≡ ok (s, w))

write_pieces-Ends_example : Done
write_pieces-Ends_example =
    write_pieces-Ends copying copying-IsSound empty_image manifest aes_256_gcm page_key 2
      empty_image-IsFresh pieces (omega arith)

abbrev stream_of_pieces : PageStream
stream_of_pieces = with_page_len manifest aes_256_gcm page_key 2

-- The stream and the image after the pieces.
result : PageStream × ImageWriter
result = elim (write_pieces copying stream_of_pieces empty_image pieces) [
  | ok state ↦ state
  | err e ↦ (stream_of_pieces, empty_image)
]

pieces-written : write_pieces copying stream_of_pieces empty_image pieces ≡ ok result
unfolding result write_pieces with_page_len write write_loop fill flush_page seal_and_write finish
    seal_page write_page next_nonce seal_in_place to_le_bytes as_u8
pieces-written = refl

file_small : ltb (length (result.1.file ++ (9 ∷ []))) (2 ^ 64) ≡ true
unfolding result write_pieces with_page_len write write_loop fill flush_page seal_and_write finish
    seal_page write_page next_nonce seal_in_place to_le_bytes as_u8
file_small = refl

read-write_pieces_example :
    Reads copying result.1 manifest aes_256_gcm page_key (9 ∷ []) (flat pieces)
read-write_pieces_example =
    read-write_pieces copying copying-IsSound empty_image manifest aes_256_gcm page_key 2
      empty_image-IsFresh pieces result.0 result.1 (9 ∷ []) (omega arith) pieces-written
      (ltb→lt _ _ file_small)

-- A reader between two pages: one byte is left of the first, and the second is in the file.
abbrev between : PageStreamReader
between = record {
  file = record_bytes (replicate 12 0) (2 ∷ 3 ∷ []) (replicate 16 0);
  kind = aes_256_gcm;
  meta_key = page_key;
  stream = manifest;
  entries = record { stream = manifest; offset = 0; len = 2 } ∷ [];
  index = 1;
  buf = 1 ∷ [];
}

between-Content : Content copying between (1 ∷ 2 ∷ 3 ∷ [])
unfolding Content Opens page_at read_at open_page open_in_place to_le_bytes from_le_bytes slice
    as_u8
between-Content = ((2 ∷ 3 ∷ []) ∷ [], (refl, tt), refl)

read_bytes-Content_example :
    ReadsLike copying (Wire.read_bytes 2 (1 ∷ 2 ∷ 3 ∷ [])) (read_bytes copying 2 between)
read_bytes-Content_example = read_bytes-Content copying 2 between (1 ∷ 2 ∷ 3 ∷ []) between-Content

-- More bytes than there are.
read_bytes-Ends_example : read_bytes copying 9 between ≢ err unsupported
read_bytes-Ends_example = read_bytes-Ends copying 9 between
