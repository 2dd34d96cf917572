-- ===== src/Tests/Unary.antt =====
-- Unary calls at concrete inputs: with compression both ways, answered and refused.
use pure_grpc_rs.Codec.Decode
use pure_grpc_rs.Codec.Decode.{response}
use pure_grpc_rs.Codec.Decode.Consumed.{trailers-total}
use pure_grpc_rs.Codec.Decode.Held.{Consumes}
use pure_grpc_rs.Codec.Decode.Futures.{trailers}
use pure_grpc_rs.Base.{length-drop, Option, none}
use pure_grpc_rs.Metadata.{MetadataMap}
use pure_grpc_rs.Base.{List, [], ◌∷◌, ◌++◌, some, ◌≡◌, refl, Result, ok, err, arith}
use pure_grpc_rs.Base.Text.{ascii}
use pure_grpc_rs.Base.Words.{Bytes}
use pure_grpc_rs.Call.{delivered}
use pure_grpc_rs.Call.Unary.{called, served, unary-answered, unary-refused}
use pure_grpc_rs.Client
use pure_grpc_rs.Client.{prepare_request, called_path}
use pure_grpc_rs.Client.Single.{encoded, once}
use pure_grpc_rs.Codec.Decode.{BodyEvent, data_frame, waiting, trailers_frame}
use pure_grpc_rs.Codec.Decode.Deliver.{frame}
use pure_grpc_rs.Codec.Encode
use pure_grpc_rs.Codec.Encode.{SourceEvent, message}
use pure_grpc_rs.Codec.Encode.Sent.{Sends, none_left, one_more, Sent}
use pure_grpc_rs.Compression.{gzip, zstd, compress}
use pure_grpc_rs.Crates.Model.{model_crates, Entries}
use pure_grpc_rs.Metadata.{into_sanitized_headers, remove_all}
use pure_grpc_rs.Request.{HttpRequest, Request, Response, into_http}
use pure_grpc_rs.Server
use pure_grpc_rs.Status.{Status}
use pure_grpc_rs.Tests.Codec.{display, byte_encoder, byte_decoder, byte_codec, refusal}
use pure_grpc_rs.Tests.Exchange.{ok_headers, ok_headers_written, bytes_of_empty}
use pure_grpc_rs.Tests.Negotiation.{one_uri, caller, callee, question, gzip_accepted}

abbrev reply : Response Entries (Unit {0}) Bytes
reply = record {
  metadata = record { headers = ("x-id", ascii "8") ∷ [] };
  message = 2 ∷ 3 ∷ [];
  extensions = tt;
}

abbrev pub limited : Client.Grpc (Unit {0})
limited = record caller { max_encoding_message_size = some 10 }

abbrev limited_server : Server.Grpc
limited_server = record callee { max_encoding_message_size = some 10 }

abbrev replies :
    Request Entries (Unit {0}) Bytes → Result (Status Entries) (Response Entries (Unit {0}) Bytes)
replies r = ok reply

abbrev refuses :
    Request Entries (Unit {0}) Bytes → Result (Status Entries) (Response Entries (Unit {0}) Bytes)
refuses r = err refusal

abbrev wire : Bytes
wire = frame 1 (1 ∷ []) ++ []

abbrev wire_back : Bytes
wire_back = frame 1 (2 ∷ 3 ∷ []) ++ []

question_framed :
    Sends model_crates display byte_encoder
      (some gzip)
      (some 10)
      []
      tt
      (message (1 ∷ []) ∷ [])
      ((1 ∷ []) ∷ [])
      tt
      wire
unfolding compress
question_framed = one_more (1 ∷ []) (1 ∷ []) refl refl (omega arith) (omega arith) none_left

answer_framed :
    Sends model_crates display byte_encoder
      (some zstd)
      (some 10)
      []
      tt
      (message (2 ∷ 3 ∷ []) ∷ [])
      ((2 ∷ 3 ∷ []) ∷ [])
      tt
      wire_back
unfolding compress
answer_framed = one_more (2 ∷ 3 ∷ []) (2 ∷ 3 ∷ []) refl refl (omega arith) (omega arith) none_left

abbrev request_body : List (BodyEvent Entries)
request_body = data_frame (1 ∷ 0 ∷ 0 ∷ []) ∷ waiting ∷ data_frame (0 ∷ 1 ∷ 1 ∷ []) ∷ []

abbrev response_body : List (BodyEvent Entries)
response_body = data_frame (wire_back) ∷ waiting ∷ trailers_frame ok_headers ∷ []

abbrev pub prepared : HttpRequest Entries (Unit {0}) (Encode.Body model_crates display byte_encoder)
prepared = record {
  method = "POST";
  uri = "https://host/a/b";
  version = "HTTP/2.0";
  headers = Client.prepared_headers model_crates one_uri limited (("x-id", ascii "7") ∷ []);
  extensions = tt;
  body =
      Encode.new model_crates display byte_encoder Encode.Role.client tt (message (1 ∷ []) ∷ [])
        (some gzip) (some 10);
}

pub as_expected :
    prepare_request model_crates one_uri limited
      (encoded model_crates one_uri display Unit byte_encoder byte_decoder limited tt
        (once model_crates one_uri display Unit byte_encoder byte_decoder question))
      (ascii "/a/b")
    ≡ ok prepared
unfolding prepare_request called_path into_http into_sanitized_headers remove_all
as_expected = refl

unary-answered_example :
    (r' : Response Entries (Unit {0}) Bytes) × (called model_crates one_uri display Unit tt
        byte_encoder byte_decoder byte_encoder byte_decoder limited limited_server replies tt tt tt
        tt request_body response_body question
        (ascii "/a/b")
      ≡ some (ok r'))
    × (r'.message ≡ 2 ∷ 3 ∷ [])
    × Sent model_crates display byte_encoder
        (Encode.new model_crates display byte_encoder Encode.Role.client tt
          (message (1 ∷ []) ∷ [])
          (some gzip)
          (some 10))
        wire
        []
    × (a : Server.Answer model_crates display tt byte_decoder byte_encoder) × (b : Encode.Body
        model_crates display byte_encoder)
    × (served model_crates one_uri display Unit tt byte_encoder byte_decoder byte_encoder
          byte_decoder limited limited_server replies tt tt tt tt request_body response_body
          (delivered model_crates request_body prepared)
        ≡ some a)
    × (a.body ≡ some b)
    × Sent model_crates display byte_encoder b wire_back (trailers_frame ok_headers ∷ [])
unary-answered_example =
    unary-answered model_crates one_uri display Unit tt byte_encoder byte_decoder byte_encoder
      byte_decoder limited limited_server replies tt tt tt tt request_body response_body question
      (ascii "/a/b") prepared as_expected gzip_accepted (omega arith) byte_codec tt question_framed
      refl refl reply ok_headers byte_codec refl (omega arith) tt answer_framed refl refl
      ok_headers_written refl

unary-refused_example :
    (f : Status Entries) × (called model_crates one_uri display Unit tt byte_encoder byte_decoder
        byte_encoder byte_decoder limited limited_server refuses tt tt tt tt request_body []
        question
        (ascii "/a/b")
      ≡ some (err f))
    × (f.code ≡ refusal.code)
    × (f.message ≡ refusal.message)
    × (f.details ≡ refusal.details)
unary-refused_example =
    unary-refused model_crates one_uri display Unit tt byte_encoder byte_decoder byte_encoder
      byte_decoder limited limited_server refuses tt tt tt tt request_body [] question
      (ascii "/a/b") prepared as_expected gzip_accepted (omega arith) byte_codec tt question_framed
      refl refl refusal refl bytes_of_empty tt refl refl

byte_decoder-Consumes : Consumes model_crates byte_decoder
byte_decoder-Consumes u b = omega (arith, length-drop b.len b.buf)

abbrev undrained : Decode.Stream model_crates byte_decoder
undrained = Decode.new model_crates byte_decoder tt response_body (response 200) (some zstd) none

trailers-total_example :
    (t : Decode.Stream model_crates byte_decoder) × (r : Result
      (Status Entries)
      (Option (MetadataMap Entries)))
    × (trailers model_crates byte_decoder undrained ≡ some (t, r))
trailers-total_example = trailers-total model_crates byte_decoder byte_decoder-Consumes undrained
