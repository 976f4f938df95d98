-- ===== src/Lib.antt =====
-- linuxreflect: a verification library for the backup program's formats, planning and retention.
--
-- linuxreflect backs up block devices and file trees into image files that form chains, a full
-- image and the members that build on it, in backup sets. A backup maps the used parts of a device
-- (crates/lr-fsmap), plans the chunks to read from the map (crates/lr-blocksource), seals each
-- chunk under its own nonce (crates/lr-crypto) and writes it as a record of an image file
-- (crates/lr-format). The engine (crates/lr-engine) keeps a catalog of the chains of a set
-- (crates/lr-core) and deletes old chains. The daemon (crates/lr-daemon) runs such work as jobs, at
-- most one for each set, and waits for them when it stops.
--
-- Base holds what all parts share: Boolean tests, lists, maps (Base/Assoc), division, sorting, and the error contract
-- of crates/lr-core/src/error.rs with results in Base/Result.
--   FsMap/Extents        crates/lr-fsmap/src/extents.rs: normalize, merge, complement, to_bytes
--   FsMap/ExtentMap      crates/lr-fsmap/src/lib.rs: ExtentMap and its rounding to chunks
--   BlockSource/Plan     crates/lr-blocksource/src/plan.rs: UsedChunks, whose next_chunk yields the
--                        chunks to read; new takes the regions from ExtentMap.chunk_aligned
--   Format/Wire          crates/lr-format/src/wire.rs: little-endian fields, written and read
--   Format/Compress      crates/lr-format/src/compress.rs: bounded use of zstd
--   Format/Manifest      crates/lr-format/src/manifest.rs: block manifests and their deltas
--   Format/Chunk         crates/lr-format/src/chunk.rs: the chunk record, sealing and opening;
--                        seal_chunk compresses, draws a nonce, encrypts and encodes
--   Core/ImageKind, Core/Consistency, Core/Catalog
--                        crates/lr-core/src/lib.rs, consistency.rs and catalog.rs
--   Core/Names           crates/lr-core/src/names.rs: the names of sets and jobs
--   Crypto/Nonce         crates/lr-crypto/src/nonce.rs: the 96-bit nonce counter
--   Crypto/Aead          crates/lr-crypto/src/aead.rs: the dispatcher over two ciphers
--   Crypto/Page          crates/lr-crypto/src/page.rs: one metadata page, sealed and opened
--   Crypto/Mac           crates/lr-crypto/src/mac.rs: authentication of headers
--   Format/Superblock    crates/lr-format/src/sb.rs: the superblock, encoded, decoded and verified
--   Format/Footer        crates/lr-format/src/footer.rs: the footer, encoded, decoded and verified
--   Format/PageTable     crates/lr-format/src/footer.rs: the entries that name the pages
--   Format/ImageWriter   crates/lr-format/src/writer.rs: records and pages appended to an image
--   Format/PageStream, Format/PageReader
--                        crates/lr-format/src/stream.rs: a byte stream cut into pages, written to the
--                        image writer, and read back page by page
--   Engine/Effect        code that acts on a destination, with the events it causes
--   Engine/Chain         crates/lr-engine/src/chain.rs: is_change, and the cursor over the manifest
--                        of one member
--   Engine/ChainWalk     crates/lr-engine/src/chain.rs: the checks of the members of a chain and the
--                        walk over their manifests, chunk by chunk
--   Engine/Retention     crates/lr-engine/src/retention.rs, with mark_verified of verify.rs
--   Store/Remote, Store/Publish
--                        crates/lr-store/src/publish.rs: publication of a file on a remote server
--   Daemon/Outcome, Daemon/Job, Daemon/Jobs
--                        crates/lr-daemon/src/jobs.rs: the registry of the jobs, with error_code of
--                        status.rs and job_outcome of verification.rs; Daemon/Jobs/Steps makes it a
--                        state machine, one step for each operation
--   Daemon/Shutdown      crates/lr-daemon/src/shutdown.rs: DrainWatch, which is told the events of
--                        Daemon/Job and asked about the active jobs of Daemon/Jobs
--   Examples             concrete runs
--
-- Integers are natural numbers; where a sum, a product or a cast of the source can leave its width,
-- the wrap of a release build is written out (to_bytes, covered_bytes, next_chunk, write_header).
-- Byte strings are lists of numbers. State that a method mutates is passed in and returned. A loop
-- is recursion on the list that it walks. The loops of PageStream::write and of read_bytes over pages
-- take fuel: as much as there are bytes, and for reading as many more as there are pages, which is
-- enough since each turn takes a byte or loads a page; out of fuel they answer unsupported, which
-- reading a page never does. An error is a value of
-- Error without its text, since no code under study reads the text.
--
-- Parameters: the ciphers, keyed BLAKE3 and zstd are third-party code, the record Primitives of
-- Crypto/Aead, of which IsSound states what the code relies on; UTF-8 validation is the parameter
-- of Format/Manifest. Retention works through the record Destination: the set lock, loading and
-- writing the catalog, opening and verifying an image, and deleting a file, with no hypothesis
-- about any of them, and lock and deletion may answer differently at each
-- step. Publication works through RemoteOps over a state of the server, whose
-- faults carry the answer of is_transient as a flag, and IsRemote states what it
-- relies on: renames may happen without an answer, but never replace a file unasked.
--
-- Not modelled: command line, graphical client, the D-Bus service and the
-- sockets of the daemon, FUSE and NBD servers, rescue system, the
-- snapshot providers, local and SFTP stores, and the parsers of the file-system tools; they are
-- input and output, or calls of other programs. Key derivation, file
-- manifests and reading the payloads of a chain are not modelled.
pub mod Base
pub mod FsMap
pub mod BlockSource
pub mod Format
pub mod Core
pub mod Crypto
pub mod Engine
pub mod Store
pub mod Daemon
pub mod Examples
