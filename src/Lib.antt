-- ===== src/Lib.antt =====
-- The server and the client of multipart-async: reading and writing of multipart/form-data bodies.
--
-- A body is a stream of chunks. `BoundaryFinder` (src/server/boundary.rs) cuts it at the boundaries,
-- `PushChunk` (src/server/mod.rs) lets a reader hand back the rest of a chunk, `ReadHeaders`
-- (src/server/field/headers.rs) collects and parses the headers of a field, and `Multipart` and
-- `NextField` (src/server/mod.rs, src/server/field/mod.rs) go from field to field. `ReadToString` decodes
-- the data of a field. `MultipartWriter` (src/client/writer.rs) writes such a body.
--
-- Base         shared names, lists over the native numbers, Boolean tests, and `Outcome`: a value, a
--              panic, or fuel that has run out
-- Stream       `Poll`, `Result`, `Error`, and the body stream as the list of the answers of its polls
-- Chunk        src/lib.rs: `BodyChunk`
-- Search       src/server/boundary.rs: the searches of a boundary in a chunk
-- Finder       src/server/boundary.rs: `State`, `BoundaryFinder`, `body_chunk`, `consume_boundary`
-- Push         src/server/mod.rs: `PushChunk`
-- Text         what the parsers use of `str` and of `str::from_utf8`
-- Disposition  src/server/field/headers.rs: `parse_cont_disp_val` and what it calls
-- Fields       src/server/field/headers.rs: `FieldHeaders`, `parse_headers`
-- Headers      src/server/field/headers.rs: `ReadHeaders`, `header_end_split`
-- Http         what the client and the server use of the crates http and mime for a request
-- Multipart    src/server/mod.rs and src/server/field/mod.rs: `Multipart`, `NextField`, `FieldData`
-- ReadString   src/server/field/mod.rs: `ReadToString`, over any stream of chunks
-- Writer       src/client/writer.rs, src/client/mod.rs
-- TestUtil     src/test_util.rs: the loops that drive a future or a stream
-- Fuzzing      src/fuzzing.rs: the drivers of the fuzz targets
-- Exchange     a request of the writer, read by the finder, by `Multipart`, and as texts
-- Tests        runs on the inputs of the repository's tests, and the theorems at concrete inputs
--
-- A method that changes `self` takes the record of its fields and returns the new one beside its
-- result. `mem::replace`, early returns and the order of the checks are those of the source. A slice, a
-- subtraction, an `unreachable!` or a debug assertion that could fail is an `Outcome`. A byte is a
-- number; no operation of the finder computes with bytes. Lengths do not overflow `usize`.
--
-- The crate twoway is the argument `Twoway`: `find_bytes` with its documented behaviour, the first
-- occurrence or none; Search.Naive shows that a function has it. The crates httparse, http and mime are
-- the argument `Crates` of Fields; for a whole request http and mime are the arguments `HeaderValues` and
-- `Requests` of Http. The samples of rand are the argument `Samples` of Writer.Request, the output of the
-- writer the argument `Sink`.
-- `interleave_pending` of the crate futures-test is the argument `Interleave` of TestUtil, and `Bytes` of the
-- crate bytes the argument `BytesCrate` of Chunk.
--
-- Fuel: `body_chunk` has four rounds: the state goes from `Remainder` to `Watching` and from there to a
-- state that returns. `consume_boundary` has two calls for each answer of the stream, and two more.
-- `read_headers` has more rounds than the stream and the push-back buffer have chunks to give. Each pause
-- lowers the number of chunks that may follow, and so ends the loops that drive a poll until it is ready.
-- The loop over the parameters of Content-Disposition has one round for each character, and one more.
--
-- Not modelled: logging, `Display` and `Debug`, wakers (a pending poll is an answer of the stream),
-- `write_file` (behind a feature that Cargo.toml does not declare), src/server/hyper.rs and
-- src/local_test.rs (not compiled), and the example programs.
pub mod Base
pub mod Stream
pub mod Chunk
pub mod Search
pub mod Finder
pub mod Push
pub mod Text
pub mod Disposition
pub mod Fields
pub mod Headers
pub mod Http
pub mod Multipart
pub mod ReadString
pub mod Writer
pub mod TestUtil
pub mod Fuzzing
pub mod Exchange
mod Tests
