-- ===== src/Lib.antt =====
-- yawc, a WebSocket library for Rust (RFC 6455 with the permessage-deflate extension): a model of
-- its protocol core and the theorems that make that core correct.
--
-- The program. An application holds a `WebSocket` (src/native/mod.rs). Its `FragmentLayer` splits
-- outgoing messages into fragments and assembles incoming ones. Below it a `Streaming` connection
-- (src/native/streaming.rs) answers pings and close frames, turns errors into close frames,
-- inflates and deflates payloads and bounds their sizes. It owns a `ReadHalf` and a `WriteHalf`
-- (src/native/split.rs), which track compression across fragments and the closing handshake, and
-- the `Framed` stream of tokio-util, which calls the codec (src/codec.rs) to turn bytes into frames
-- and back. The codec masks payloads with src/mask.rs. Frames, close codes and errors are the data
-- that all of them share.
--
-- A client dials its peer first (`connect_stream` in src/native/mod.rs), perhaps through a SOCKS5
-- proxy (src/native/socks5.rs), and both sides settle the compression of the connection from the
-- `Sec-WebSocket-Extensions` header (src/compression.rs and src/compression/offer.rs).
--
-- The files, with what they model:
--   Error      src/lib.rs: `WebSocketError`, `Result` and the predicates on errors.
--   Close      src/close.rs: `CloseCode` and its conversions.
--   Frame      src/frame.rs: `OpCode`, `Frame`, the constructors, `into_fragments`, `write_head`.
--   Mask       src/mask.rs: `apply_mask` and `copy_mask` with the routines that they pick from.
--   Codec      src/codec.rs: `ReadState`, `Decoder::decode` and `Encoder::encode`.
--   Halves     src/native/split.rs: `ReadHalf::poll_frame`, `WriteHalf::poll_ready`, `start_send`,
--              `poll_flush` and `poll_close`.
--   Layer      src/native/mod.rs: `FragmentLayer`.
--   Streaming  src/native/streaming.rs: `Streaming`, its polls and its `Sink` implementation.
--   Socket     src/native/mod.rs: `WebSocket`, its polls and its `Sink` implementation.
--   Negotiation  src/compression.rs, src/native/options.rs and src/native/mod.rs:
--              `WebSocketExtensions::agree`, `DeflateOptions::merge`, `CompressionConfig::resolve` and
--              `Negotiation::new`.
--   Header     src/compression/offer.rs and src/compression.rs: the text of
--              `Sec-WebSocket-Extensions`, `WebSocketExtensions::offers`, `Display` and `FromStr`.
--   Inflate    src/compression.rs: `Inflate`, with its `write` and `flush` loops.
--   Pool       src/compression/pool.rs: `DeflatePool`, and src/compression.rs: `Decompressor`.
--   Network    src/native/mod.rs: `connect_tcp`, with the addresses of the standard library.
--   Socks      src/native/socks5.rs: the SOCKS5 dialogue, `Proxy::socks5` and `Proxy::connect`.
--   Dial       src/native/mod.rs: `dial` and `connect_stream`.
--   Handshake  src/native/mod.rs: `upgrade_with_options` and `verify`, with `sec_websocket_protocol`
--              of src/native/upgrade.rs.
--   Shared     lists, Boolean tests and bit operations that the others use.
--   Tests      the theorems at concrete inputs.
-- A definition has the name of the function or type that it models. A function that changes an
-- object takes the object and returns it beside its result; `Poll` and `Result` are data types, and a
-- call that panics or loops for ever has a value of its own. A module's proofs stand in its child
-- modules, which are named for what they prove.
--
-- What the code rests on. `Halves` takes the stream below it as a record `FrameSink` of its
-- operations, and `Streaming` a record `Env` with the `Framed` of tokio-util, the compressor and
-- decompressor, the texts of errors and the UTF-8 test. Their laws say that a sink accepts frames
-- through `start_send` alone. The random masking key, where `align_to_mut` cuts a buffer, the CPU
-- check for AVX2 and the clock are arguments. The SOCKS5 dialogue runs over a record `Stream` of
-- the calls on the stream, whose laws (`History`) are about the bytes that a successful call writes
-- or reads and allow any peer; `Network`, `Tls` and `UrlText` are records of the operations of
-- tokio, of the TLS library and of the url and percent-encoding crates. A `Url` is what its
-- accessors return. The headers of a message are a list of lines; `to_str` of a value returns what
-- is visible ASCII, and SHA-1 and base64 are any functions. `Zlib` is a record of the operations of
-- flate2's decompressor: it writes no more than its room (`IsLawful`), and a reset one behaves as a
-- new one (`Origin`).
--
-- Numbers. `usize` has 64 bits. Bytes are numbers below 256 where a theorem needs it, and words are
-- reduced where the code's operations wrap. Lengths of byte strings in memory do not overflow.
--
-- Loops and fuel. `decode`, masking, draining a queue and flushing fragments recur on their data.
-- The fragment iterator has the payload's length and two more calls, and the AVX2 loops the length
-- of the buffer, which is shown to be enough. `WriteHalf::poll_close` has five rounds, one for each
-- state. `WebSocket::poll_next_frame` goes round once for each fragment that is ready, so its fuel
-- is an argument. The parsers of the header have the length of the text and one more round, since
-- each round takes a byte. The loops of `Inflate` have the length of the input and the limit on the
-- output, which is shown to be enough.
--
-- Not modelled: the NEON routine, which x86-64 builds leave out; the fields' getters and setters;
-- the client side of HTTP itself, the HTTP/2 handshake and the builders that set a connection up;
-- the `Compressor` and the loops of `Deflate`, and the DEFLATE of flate2; TLS, the axum extractor
-- and the WebAssembly client, which call other crates; and task wake-ups, so a call through
-- `WakeProxy` is the call itself.
pub mod Shared
pub mod Error
pub mod Close
pub mod Frame
pub mod Mask
pub mod Codec
pub mod Halves
pub mod Layer
pub mod Streaming
pub mod Socket
pub mod Negotiation
pub mod Header
pub mod Inflate
pub mod Pool
pub mod Network
pub mod Socks
pub mod Dial
pub mod Handshake
mod Tests
