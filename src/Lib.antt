-- ===== src/Lib.antt =====
-- Sofab's `no_std` core library: a streaming encoder and decoder of a wire format of tagged fields.
--
-- A message is a sequence of fields: a varint header (`id << 3 | wire type`), then a varint, a
-- ZigZag varint, a length-delimited payload, an array of one of these, or the framing of a nested
-- sequence. The client calls the writers of `OStream`, which put bytes in a buffer that a sink
-- drains and may replace; the bytes reach `IStream::feed` in chunks of any size, and it calls a
-- visitor back. `PayloadAcc` puts the chunks of a payload together for the visitor.
--
-- Which file models what:
--   Types, Error    src/types.rs, src/error.rs: the constants, tags and error codes.
--   Varint          src/varint.rs: `zigzag_encode`, `zigzag_decode`. Its children hold the varint of
--                   the format and the ZigZag numbers.
--   IStream         src/istream.rs. State, Push, Step and Feed hold the code, handler by handler:
--                   `push`, `on_header`, `on_fixlen_len`, `on_array_count`, `step_fixlen_val`,
--                   `step`, `feed`. The other children hold the invariant (Valid, Preserve), the
--                   bytewise reference decoder (Bytewise), `feed` against it (Bulk, FeedRun,
--                   Chunks, Interface), and a client that feeds a message in chunks (Deliver).
--                   Protocol is a machine that follows the order of callbacks that `Visitor`
--                   documents; Orderly and InOrder compare the decoder with it. Verdicts and Progress
--                   are about the verdicts, and how payloads and varints end; Ends is about the loop of
--                   `feed`.
--   OStream         src/ostream.rs. Handover, Stream and Fields hold the code, from `check_install`
--                   and `drain` to the writers. Spec is the specification: what each call appends to
--                   the message and does to the open sequences, without a buffer. The others prove
--                   that the code implements it (Wrote, Drain, Push, Commit, Field, Arrays, Sequences,
--                   Refine, Construct, Flushing), and say what becomes of the buffer when the
--                   client exchanges it (Replace) or the sink takes it (Channel).
--   Payload         src/payload.rs: `PayloadAcc`, chunk by chunk (Assembly, Refusal), and behind the
--                   decoder (Contiguous, Decoded).
--   Seq             src/seq.rs: the bounds, and `reserve_elem`, `place_elem` and `reserve_row` over any
--                   `SeqVec` (Place, Lawful, Rows, Bounds), and its back ends: `Vec`, and `heapless::Vec` of
--                   0.8 and 0.9 (Heapless, Backends).
--   RoundTrip       src/istream.rs behind src/ostream.rs: the words, fields and calls that the encoder
--                   puts out, read by the decoder. Told says what the visitor is told of a call, Message is about a
--                   streamed message and Fixed about one in a buffer of the caller.
--   Build           src/lib.rs: `config` and `require!`. Decoder is src/istream.rs with its `cfg`
--                   attributes as tests of the constructs that a build with 64-bit values has;
--                   Narrower, Foreign, Enough and Required compare it with the default build, and
--                   Compiled and Within are about its states and callbacks.
--   Smoke           .github/smoke: baremetal.rs (Baremetal) and roundtrip.rs (Probe, Host), for any
--                   values in place of their constants, as clients of both sides.
--   Floats          src/floats.rs: the bitwise comparisons.
--   Common          lists, order, words and bits over the native numbers.
--
-- Correspondence. The default build: every wire feature on, 64-bit values, a 64-bit `usize`; only Build
-- takes features away. Unsigned
-- machine integers are native numbers with their wrap-around written out; an `i64` and a float are
-- their bit patterns. `&mut self` is a state passed on. A visitor's callbacks return nothing, so the
-- decoder records them as events. A buffer that `&mut [u8]` lends is its contents. The sink and the
-- hand-over channel are the caller's: records over an environment. A `View` is how the client accounts
-- for it: the bytes that were sent, and the room that is reserved in front of the active buffer for a
-- framing header, which the start offset of each installation may leave. The law is that the sink sends
-- what it is handed behind the reserved room, and that a buffer that it installs has more room than it
-- reserves. A `heapless::Vec` is a record of its operations, with the laws that heapless documents.
--
-- Fuel. The loop of `feed` runs on fuel of twice the input's length and one: each round takes a byte
-- or leaves the bulk state. `write_varint` recurses on `Acc`. The push loop of the heapless back ends
-- runs on fuel of the length that is asked for: each round fills a slot.
--
-- Not modelled: builds with 32-bit values and the encoder of a build without some feature, whose
-- writers are left out whole; the crate root's re-exports, `Debug` and `Display`, what the smoke programs
-- print, benchmarks, tests and CI workflows.
pub mod Common
pub mod Error
pub mod Types
pub mod Varint
pub mod IStream
pub mod OStream
pub mod Payload
pub mod Floats
pub mod Seq
pub mod RoundTrip
pub mod Build
pub mod Smoke
