-- ===== src/Server/Single.antt =====
-- grpc-server/src/grpc.rs: the patterns of calls with a single message on one side.
use pure_grpc_rs.Base.{List, [], ◌∷◌, Option, none, some, Result, ok, err}
use pure_grpc_rs.Base.Runs.{Run, ◌>>=◌, settled, ok_or_else}
use pure_grpc_rs.Base.Text.{ascii}
use pure_grpc_rs.Base.Words.{Bytes}
use pure_grpc_rs.Code.{Code}
use pure_grpc_rs.Codec.{Decoder, Encoder}
use pure_grpc_rs.Codec.Decode
use pure_grpc_rs.Codec.Decode.Futures.{message, trailers}
use pure_grpc_rs.Codec.Decode.{BodyEvent, request}
use pure_grpc_rs.Codec.Encode
use pure_grpc_rs.Codec.Encode.{SourceEvent}
use pure_grpc_rs.Compression.{
  CompressionEncoding, from_encoding_header, from_accept_encoding_header,
}
use pure_grpc_rs.Crates.{Crates}
use pure_grpc_rs.Metadata.{MetadataMap, merge}
use pure_grpc_rs.Request.{HttpRequest, Request, Response, from_http_parts}
use pure_grpc_rs.Server.{Grpc, Answer, status_response, map_request_streaming, map_response}
use pure_grpc_rs.Status
use pure_grpc_rs.Status.{Status}

module _ (x : Crates) (display : Status x.Headers → Bytes) {E T S : Type 0} (no_extensions : E)
    (d : Decoder x.Headers T) (n : Encoder x.Headers S) where
  open x use {Headers, http}

  abbrev pub Awaited : Type 0 → Type 0
  Awaited A = Run (Status Headers) A

  abbrev pub Replied : Type 0
  Replied = Answer x display no_extensions d n

  abbrev pub merge_trailers :
      Request Headers E T → Option (MetadataMap Headers) → Request Headers E T
  merge_trailers r none = r
  merge_trailers r (some t) = record r { metadata = merge http r.metadata t }

  abbrev pub missing_message : Status Headers
  missing_message = Status.new x Code.internal (ascii "Missing request message.")

  unfoldable pub map_request_unary :
      Grpc
      → d.State
      → HttpRequest Headers E (List (BodyEvent Headers))
      → Awaited (Request Headers E T)
  map_request_unary g decoder r = do
    request_encoding ← some (from_encoding_header x r.headers g.accept_compression_encodings)
    (stream, received) ← settled (
        message x d
          (Decode.new x d decoder r.body request request_encoding g.max_decoding_message_size))
    msg ← some (ok_or_else missing_message received)
    (_, found) ← settled (trailers x d stream)
    some (ok (merge_trailers (from_http_parts http r msg) found))

  -- `.map(|r| r.map(|m| tokio_stream::once(Ok(m))))`
  abbrev pub once :
      Result (Status Headers) (Response Headers E S)
      → Result (Status Headers) (Response Headers E (List (SourceEvent Headers S)))
  once (err status) = err status
  once (ok r) = ok (record {
    metadata = r.metadata;
    message = Encode.SourceEvent.message r.message ∷ [];
    extensions = r.extensions;
  })

  -- `map_response` of what the service gives for the request, or the status of the request's error.
  abbrev pub answer :
      {A : Type 0}
      → Grpc
      → n.State
      → Option CompressionEncoding
      → (A → Result (Status Headers) (Response Headers E (List (SourceEvent Headers S))))
      → Awaited A
      → Option Replied
  answer g encoder accept service none = none
  answer g encoder accept service (some (err status)) =
      some (status_response x display no_extensions d n status)
  answer g encoder accept service (some (ok r)) =
      some (map_response x display no_extensions d n g encoder (service r) accept)

  unfoldable pub unary :
      Grpc
      → d.State
      → n.State
      → (Request Headers E T → Result (Status Headers) (Response Headers E S))
      → HttpRequest Headers E (List (BodyEvent Headers))
      → Option Replied
  unfolding map_request_unary map_response
  unary g decoder encoder service req =
      let accept_encoding =
        from_accept_encoding_header x req.headers g.send_compression_encodings in
      answer g encoder accept_encoding (λ r. once (service r)) (map_request_unary g decoder req)

  unfoldable pub server_streaming :
      Grpc
      → d.State
      → n.State
      → (Request Headers E T
          → Result (Status Headers) (Response Headers E (List (SourceEvent Headers S))))
      → HttpRequest Headers E (List (BodyEvent Headers))
      → Option Replied
  unfolding map_request_unary map_response
  server_streaming g decoder encoder service req =
      let accept_encoding =
        from_accept_encoding_header x req.headers g.send_compression_encodings in
      answer g encoder accept_encoding service (map_request_unary g decoder req)

  -- The service reads the stream itself.
  unfoldable pub client_streaming :
      Grpc
      → d.State
      → n.State
      → (Request Headers E (Decode.Stream x d) → Result (Status Headers) (Response Headers E S))
      → HttpRequest Headers E (List (BodyEvent Headers))
      → Option Replied
  unfolding map_request_streaming map_response
  client_streaming g decoder encoder service req =
      let accept_encoding =
        from_accept_encoding_header x req.headers g.send_compression_encodings in
      answer g encoder accept_encoding (λ r. once (service r))
        (some (map_request_streaming x display no_extensions d n g decoder req))
