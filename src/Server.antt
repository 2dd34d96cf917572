-- ===== src/Server.antt =====
-- grpc-server/src/grpc.rs: how a server makes a stream of a request, and a response of what the
-- service gives, for the two patterns in which the request is a stream. The service is the function
-- that its awaited call is; a body is none where it is the default, empty one.
pub mod Single
use pure_grpc_rs.Base.{ltb, if◌then◌else◌, ℕ, List, Option, none, some, Result, ok, err, ◌>>=◌}
use pure_grpc_rs.Base.Words.{Bytes}
use pure_grpc_rs.Codec.{Decoder, Encoder}
use pure_grpc_rs.Client.{header_of, insert_if}
use pure_grpc_rs.Codec.Decode
use pure_grpc_rs.Codec.Decode.{BodyEvent, request}
use pure_grpc_rs.Codec.Encode
use pure_grpc_rs.Codec.Encode.{SourceEvent, server}
use pure_grpc_rs.Compression.{
  CompressionEncoding, EnabledCompressionEncodings, none_enabled, enable, encoding_header,
  from_encoding_header, from_accept_encoding_header,
}
use pure_grpc_rs.Crates.{Crates}
use pure_grpc_rs.Metadata.{grpc_content_type}
use pure_grpc_rs.Request.{
  HttpRequest, HttpResponse, Request, Response, from_http, response_into_http,
}
use pure_grpc_rs.Status
use pure_grpc_rs.Status.{Status}

pub record Grpc : Type 0 where
  pub accept_compression_encodings : EnabledCompressionEncodings
  pub send_compression_encodings : EnabledCompressionEncodings
  pub max_decoding_message_size : Option ℕ
  pub max_encoding_message_size : Option ℕ

abbrev pub new : Grpc
new = record {
  accept_compression_encodings = none_enabled;
  send_compression_encodings = none_enabled;
  max_decoding_message_size = none;
  max_encoding_message_size = none;
}

abbrev pub accept_compressed : CompressionEncoding → Grpc → Grpc
accept_compressed encoding g = record g {
  accept_compression_encodings = enable g.accept_compression_encodings encoding;
}

abbrev pub send_compressed : CompressionEncoding → Grpc → Grpc
send_compressed encoding g = record g {
  send_compression_encodings = enable g.send_compression_encodings encoding;
}

-- The assertion that a limit is above 0 fails as `none`.
abbrev pub max_decoding_message_size : ℕ → Grpc → Option Grpc
max_decoding_message_size limit g =
    if ltb 0 limit then some (record g { max_decoding_message_size = some limit }) else none

abbrev pub max_encoding_message_size : ℕ → Grpc → Option Grpc
max_encoding_message_size limit g =
    if ltb 0 limit then some (record g { max_encoding_message_size = some limit }) else none

module _ (x : Crates) (display : Status x.Headers → Bytes) {E T S : Type 0} (no_extensions : E)
    (d : Decoder x.Headers T) (n : Encoder x.Headers S) where
  open x use {Headers, http}

  unfoldable pub map_request_streaming :
      Grpc
      → d.State
      → HttpRequest Headers E (List (BodyEvent Headers))
      → Result (Status Headers) (Request Headers E (Decode.Stream x d))
  map_request_streaming g decoder r = do
    encoding ← from_encoding_header x r.headers g.accept_compression_encodings
    ok (
        from_http http (record {
          method = r.method;
          uri = r.uri;
          version = r.version;
          headers = r.headers;
          extensions = r.extensions;
          body = Decode.new x d decoder r.body request encoding g.max_decoding_message_size;
        }))

  abbrev pub Answer : Type 0
  Answer = HttpResponse Headers E (Option (Encode.Body x display n))

  -- `Status::into_http`
  abbrev pub status_response : Status Headers → Answer
  status_response status = record {
    status = 200;
    version = "HTTP/1.1";
    headers = Status.into_http x status;
    extensions = no_extensions;
    body = none;
  }

  unfoldable pub map_response :
      Grpc
      → n.State
      → Result (Status Headers) (Response Headers E (List (SourceEvent Headers S)))
      → Option CompressionEncoding
      → Answer
  map_response g encoder (err status) accept_encoding = status_response status
  map_response g encoder (ok r) accept_encoding =
      let parts = response_into_http http r in
      record {
        status = parts.status;
        version = parts.version;
        headers =
            insert_if x encoding_header (header_of accept_encoding)
              (http.insert "content-type" grpc_content_type parts.headers);
        extensions = parts.extensions;
        body = some (
            Encode.new x display n server encoder parts.body accept_encoding
              g.max_encoding_message_size);
      }

  -- `Grpc::streaming`
  unfoldable pub streaming :
      Grpc
      → d.State
      → n.State
      → (Request Headers E (Decode.Stream x d)
          → Result (Status Headers) (Response Headers E (List (SourceEvent Headers S))))
      → HttpRequest Headers E (List (BodyEvent Headers))
      → Answer
  unfolding map_request_streaming map_response
  streaming g decoder encoder service req =
      let accept_encoding =
        from_accept_encoding_header x req.headers g.send_compression_encodings in
      elim (map_request_streaming g decoder req) [
        | err status ↦ status_response status
        | ok r ↦ map_response g encoder (service r) accept_encoding
      ]
