-- ===== src/Tests/Negotiation.antt =====
-- The headers of a call between a client and a server that have encodings in common.
use pure_grpc_rs.Base.{true, false, List, [], ◌∷◌, none, some, ◌≡◌, refl, ok, arith}
use pure_grpc_rs.Base.Text.{ascii}
use pure_grpc_rs.Base.Words.{Bytes}
use pure_grpc_rs.Call.{delivered_back, response_negotiated}
use pure_grpc_rs.Client
use pure_grpc_rs.Client.{Uris, prepare_request, called_path, create_response}
use pure_grpc_rs.Codec.Decode
use pure_grpc_rs.Codec.Decode.{BodyEvent, data_frame, request, response}
use pure_grpc_rs.Codec.Encode
use pure_grpc_rs.Codec.Encode.{SourceEvent, message}
use pure_grpc_rs.Compression.{
  CompressionEncoding, EnabledCompressionEncodings, gzip, zstd, is_enabled,
}
use pure_grpc_rs.Crates.Model.{model_crates, Entries}
use pure_grpc_rs.Request.{Request, Response}
use pure_grpc_rs.Server
use pure_grpc_rs.Server.{map_request_streaming, map_response}
use pure_grpc_rs.Tests.Codec.{display, byte_encoder, byte_decoder}

abbrev pub one_uri : Uris
one_uri = record {
  Uri = Unit;
  PathAndQuery = Bytes;
  path_and_query = λ u. none;
  is_root = λ p. true;
  path = λ p. p;
  show = λ p. p;
  parse = ok;
  from_parts = λ u p. ok "https://host/a/b";
}

abbrev pub both : EnabledCompressionEncodings
both = record { has_gzip = true; has_deflate = false; has_zstd = true }

abbrev pub caller : Client.Grpc (Unit {0})
caller = record {
  origin = tt;
  accept_compression_encodings = both;
  send_compression_encoding = some gzip;
  max_decoding_message_size = none;
  max_encoding_message_size = none;
}

abbrev pub callee : Server.Grpc
callee = record {
  accept_compression_encodings = both;
  send_compression_encodings = record { has_gzip = false; has_deflate = false; has_zstd = true };
  max_decoding_message_size = some 10;
  max_encoding_message_size = none;
}

abbrev pub question : Request Entries (Unit {0}) Bytes
question = record {
  metadata = record { headers = ("x-id", ascii "7") ∷ [] };
  message = 1 ∷ [];
  extensions = tt;
}

pub gzip_accepted :
    (e : CompressionEncoding)
    → caller.send_compression_encoding ≡ some e
    → is_enabled callee.accept_compression_encodings e ≡ true
gzip_accepted e h = ground (arith, h)

abbrev answer : Response Entries (Unit {0}) (List (SourceEvent Entries Bytes))
answer = record {
  metadata = record { headers = ("x-id", ascii "8") ∷ [] };
  message = message (1 ∷ []) ∷ [];
  extensions = tt;
}

response_negotiated_example :
    (r' : Response Entries (Unit {0}) (Decode.Stream model_crates byte_decoder)) × (create_response
        model_crates one_uri byte_decoder caller tt
        (delivered_back model_crates (data_frame (0 ∷ []) ∷ []) (
          map_response model_crates display tt byte_decoder byte_encoder callee tt
            (ok answer)
            (some zstd)))
      ≡ ok r')
    × (r'.message
        ≡ Decode.new model_crates byte_decoder tt
            (data_frame (0 ∷ []) ∷ [])
            (response 200)
            (some zstd)
            none)
    × ((map_response model_crates display tt byte_decoder byte_encoder callee tt
          (ok answer)
          (some zstd)).body
        ≡ some (
            Encode.new model_crates display byte_encoder Encode.Role.server tt
              (message (1 ∷ []) ∷ [])
              (some zstd)
              none))
response_negotiated_example =
    response_negotiated model_crates one_uri display tt byte_decoder byte_encoder caller callee
      answer tt tt (some zstd) (data_frame (0 ∷ []) ∷ []) refl
