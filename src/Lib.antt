-- ===== src/Lib.antt =====
-- A model of pure-grpc-rs, a gRPC library in Rust, and theorems that make its core correct: the
-- streams of messages of both ends of a call, the status that ends them, the compression that they
-- negotiate, the metadata and the timeout of a call, the routes of a server, and the services and
-- wrappers around them: health, reflection, gRPC-Web, interceptors, balancing and error details;
-- the settings, timeouts and accept loops; HTTP/3; and the descriptors that code is generated from.
--
-- The parts, and how they interact. A sender's `EncodeBody` (grpc-core/src/codec/encode.rs) polls a
-- source of messages, encodes each into a frame (five bytes of header, and the payload, which
-- `compress` may have packed), and gives the frames as data frames of an HTTP body; a server's body
-- ends with trailers that `Status::to_header_map` writes. A receiver's `Streaming`
-- (grpc-core/src/codec/decode.rs) polls an HTTP body, gathers its bytes, cuts them into frames, has
-- the decoder read a message from each, and on a client ends as `infer_grpc_status` says of the
-- trailers. Requests and responses carry metadata, of which the reserved names are left out on the
-- way; a router picks a service by the path of a request.
--
-- The files:
--   * Base and its children: shared names, native numbers, lists, results, bytes and texts.
--   * Crates: the interfaces of the crates http, percent-encoding, base64, flate2 and zstd, as
--     records of operations and documented laws; Crates/Model is one implementation, for the tests.
--   * Metadata: grpc-core/src/metadata.rs (`MetadataMap`, `GRPC_RESERVED_HEADERS`); Metadata/Sanitize
--     has the lemmas on the headers that are kept.
--   * Code, Status: grpc-core/src/status.rs. Code has the table of `define_codes!`; Status has
--     `from_header_map`, `add_header`, `to_header_map`, `into_http`, `infer_grpc_status`, `from_error`
--     and `From<io::Error>`. Status/Written, Status/Wire and Status/Infer are the proofs.
--   * Compression: grpc-core/src/codec/compression.rs; Compression/Negotiation has the proofs.
--   * Codec, Codec/Buffer, Codec/Frame: grpc-core/src/codec/mod.rs and buffer.rs.
--   * Codec/Decode: `Streaming` of grpc-core/src/codec/decode.rs. Its children follow one frame
--     (Deliver, Message, Header), all frames of a body (Stream), the end (Ending), the loop (Total)
--     and the errors (Failures). Futures has `message` and `trailers`, with Drained, Steady, Held
--     and Consumed for their proofs.
--   * Codec/Encode: `EncodedBytes` and `EncodeBody` of grpc-core/src/codec/encode.rs, with Items (one
--     message), Sent and Emit (a whole body), Finish and Trailers (errors and the end) and Unique.
--   * Exchange: a sender and a receiver together.
--   * Request: grpc-core/src/request.rs and response.rs, with Timeout and Carried.
--   * Client: grpc-client/src/grpc.rs, with the patterns of calls in Client/Single.
--   * Server: grpc-server/src/grpc.rs, with the patterns of one message in Server/Single.
--   * Call: what a client and a server agree on by the headers of a call; Call/Single and Call/Unary
--     follow one message from the client through the server and back.
--   * Web: grpc-web/src/lib.rs and service.rs; Web/Body is call.rs. Sent, Trailers, Service and Misread
--     are the proofs.
--   * Health: grpc-health/src/lib.rs; Health/Current has what watching clients see.
--   * Interceptor: grpc-server/src/interceptor.rs. Balance: grpc-client/src/balance.rs.
--   * Messages: grpc-core/src/codec/prost_codec.rs and grpc-codec-flatbuffers/src/lib.rs.
--   * Reflection: grpc-reflection/src/lib.rs; Reflection/Indexed says which symbols are found,
--     and Reflection/Stream is the task behind a stream of requests.
--   * Details: grpc-types/src/any_ext.rs and status_ext.rs; Details/Carried follows them over the wire.
--   * Codegen: grpc-codegen/src/protobuf.rs, where `collect` over the methods is a recursion.
--     Codegen/Ir and Codegen/Flat are `service_to_ir` and the walk over messages of
--     grpc-codegen/src/flatbuffers.rs. Of Flat, Lookup is about identifiers, Pushed about what a message
--     pushes, Reached about the loop, Mentions, Used and Walked about which names are
--     found, and First and Needed about the messages.
--   * Router: grpc-server/src/router.rs, with Dispatch.
--   * H3: the bodies of grpc-server/src/h3_server.rs and grpc-client/src/h3_channel.rs. Given has what
--     the receiving bodies give and Carried what the sending loops bring; Exchange and Cut put both
--     together. Head is the head of a client's request.
--   * Deadline: the timeouts of grpc-server/src/server.rs and h3_server.rs, and of the channels of
--     grpc-client/src/channel.rs and h3_channel.rs.
--   * Listener: the accept loops of grpc-server/src/server.rs and h3_server.rs, as steps; Limit is
--     about their permits, and Served about connections that wait.
--   * Settings: grpc-core/src/http2_config.rs; Settings/Endpoint is grpc-client/src/endpoint.rs with the
--     connections of channel.rs, Settings/Builder the builder of grpc-server/src/server.rs, and
--     Settings/Last the proof.
--   * Tests: runs and applications of the theorems at concrete inputs.
--
-- How the code is modelled. A value of state is a record, and an operation gives the new record with
-- its result. What an asynchronous source will give is the list of its events, one for each poll,
-- with the polls that are not ready among them; `Poll` is `pending` or `ready`. Bytes are numbers in
-- lists, and a text is its bytes. The loop of `Streaming::poll_next` runs on fuel: two rounds more
-- than the body has events, which is enough, since every round that goes on takes an event of the
-- body, except the one that puts the stream into its error state, and the next one answers. Lengths
-- go into frames modulo 2^32 and `usize::MAX` is 2^64 - 1. Where the code indexes or asserts out of
-- range, the model gives `none`.
--
-- `message` polls once more than the body has events, since a poll that is not ready takes one; the
-- loop of `trailers` runs twice more than there are bytes left, since each message takes a byte. The
-- service, the transport and the inner service of a wrapper are the functions that their awaited calls
-- are, and a timeout is a test that says whether it elapses first. The loop of
-- `collect_rpc_relevant_messages` runs once more than there are names at the start and names that the
-- messages of the schema push, each once: every round takes a name, and a message pushes its names in
-- one round only. `HealthHandle::set_status` and the call of
-- `WatchSvc` take two locks one after the other, and are two steps each.
--
-- What is not modelled: wakers, capacities of buffers, logging, sockets, the handshakes of TLS and
-- QUIC, and what hyper and h3 do on a connection, which are pure I/O or not in this repository; the
-- dispatch of the health and reflection services by path, and the generators of server_gen.rs,
-- client_gen.rs and dart_client_gen.rs, which make token streams and text. The crates of
-- the interfaces, tokio's channels and semaphores, the streams of h3, prost and FlatBuffers are
-- parameters of the definitions; a stream's codec is a parameter as well.
pub mod Base
pub mod Crates
pub mod Metadata
pub mod Code
pub mod Status
pub mod Compression
pub mod Codec
pub mod Codegen
pub mod Settings
pub mod Listener
pub mod Deadline
pub mod H3
pub mod Exchange
pub mod Request
pub mod Router
pub mod Tests
pub mod Client
pub mod Server
pub mod Call
pub mod Web
pub mod Health
pub mod Interceptor
pub mod Balance
pub mod Messages
pub mod Reflection
pub mod Details
