-- ===== src/Client.antt =====
-- grpc-client/src/grpc.rs: the request that a client prepares and the response that it makes of the
-- transport's. `Uris` is what the code uses of the crate `http` for URIs; the transport is no part
-- of it.
pub mod Single
use pure_grpc_rs.Base.{
  ℕ, Bool, true, false, List, ◌++◌, Option, none, some, String, if◌then◌else◌, Result, ok, err,
  map_err, ◌>>=◌,
}
use pure_grpc_rs.Base.Text.{ascii}
use pure_grpc_rs.Base.Words.{Bytes}
use pure_grpc_rs.Code.{Code}
use pure_grpc_rs.Codec.{Decoder}
use pure_grpc_rs.Codec.Decode
use pure_grpc_rs.Codec.Decode.{BodyEvent, response, empty_response}
use pure_grpc_rs.Compression.{
  CompressionEncoding, EnabledCompressionEncodings, as_str, none_enabled, enable, encoding_header,
  accept_encoding_header, into_accept_encoding_header_value, from_encoding_header,
}
use pure_grpc_rs.Crates.{Crates}
use pure_grpc_rs.Metadata.{grpc_content_type}
use pure_grpc_rs.Request.{
  HttpRequest, HttpResponse, Request, Response, into_http, response_from_http,
}
use pure_grpc_rs.Status
use pure_grpc_rs.Status.{Status, is_ok, from_header_map}

pub record Uris : Type 1 where
  pub Uri : Type 0
  pub PathAndQuery : Type 0
  pub path_and_query : Uri → Option PathAndQuery
  pub is_root : PathAndQuery → Bool
  pub path : PathAndQuery → Bytes
  pub show : PathAndQuery → Bytes
  pub parse : Bytes → Result Bytes PathAndQuery
  -- `Uri::from_parts` with the other parts of a URI.
  pub from_parts : Uri → PathAndQuery → Result Bytes String

pub record Grpc (U : Type 0) : Type 0 where
  pub origin : U
  pub accept_compression_encodings : EnabledCompressionEncodings
  pub send_compression_encoding : Option CompressionEncoding
  pub max_decoding_message_size : Option ℕ
  pub max_encoding_message_size : Option ℕ

abbrev pub with_origin : {U : Type 0} → U → Grpc U
with_origin origin = record {
  origin = origin;
  accept_compression_encodings = none_enabled;
  send_compression_encoding = none;
  max_decoding_message_size = none;
  max_encoding_message_size = none;
}

abbrev pub send_compressed : {U : Type 0} → CompressionEncoding → Grpc U → Grpc U
send_compressed encoding g = record g { send_compression_encoding = some encoding }

abbrev pub accept_compressed : {U : Type 0} → CompressionEncoding → Grpc U → Grpc U
accept_compressed encoding g = record g {
  accept_compression_encodings = enable g.accept_compression_encodings encoding;
}

abbrev pub max_decoding_message_size : {U : Type 0} → ℕ → Grpc U → Grpc U
max_decoding_message_size limit g = record g { max_decoding_message_size = some limit }

abbrev pub max_encoding_message_size : {U : Type 0} → ℕ → Grpc U → Grpc U
max_encoding_message_size limit g = record g { max_encoding_message_size = some limit }

abbrev pub header_of : Option CompressionEncoding → Option Bytes
header_of none = none
header_of (some e) = some (as_str e)

module _ (x : Crates) where
  open x use {Headers, http}

  unfoldable pub insert_if : String → Option Bytes → Headers → Headers
  insert_if name none h = h
  insert_if name (some value) h = http.insert name value h

  abbrev internal : Bytes → Bytes → Status Headers
  internal note e = Status.new x Code.internal (note ++ e)

  abbrev pub with_headers :
      {E B : Type 0} → (Headers → Headers) → HttpRequest Headers E B → HttpRequest Headers E B
  with_headers f r = record r { headers = f r.headers }

  -- Whether the headers have a status, which is OK; one that is not OK is the error.
  unfoldable pub trailers_only : Headers → Result (Status Headers) Bool
  trailers_only headers = elim (from_header_map x headers) [
    | none ↦ ok false
    | some status ↦ if is_ok status.code then ok true else err status
  ]

module _ (x : Crates) (u : Uris) where
  open x use {Headers, http}

  -- The path that is called, behind the path of the origin.
  unfoldable pub called_path :
      Option u.PathAndQuery → u.PathAndQuery → Result (Status Headers) u.PathAndQuery
  called_path none path = ok path
  called_path (some pnq) path =
      if u.is_root pnq
      then ok path
      else map_err (internal x (ascii "invalid path_and_query: "))
          (u.parse (u.path pnq ++ u.show path))

  unfoldable pub prepared_headers : Grpc u.Uri → Headers → Headers
  unfolding insert_if
  prepared_headers g h =
      insert_if x accept_encoding_header
        (into_accept_encoding_header_value g.accept_compression_encodings)
        (insert_if x encoding_header (header_of g.send_compression_encoding)
          (http.insert "content-type" grpc_content_type (http.insert "te" (ascii "trailers") h)))

  unfoldable pub prepare_request :
      {E B : Type 0}
      → Grpc u.Uri
      → Request Headers E B
      → u.PathAndQuery
      → Result (Status Headers) (HttpRequest Headers E B)
  unfolding called_path prepared_headers
  prepare_request g request path = do
    path_and_query ← called_path (u.path_and_query g.origin) path
    uri ← map_err (internal x (ascii "invalid URI: ")) (u.from_parts g.origin path_and_query)
    ok (with_headers x (prepared_headers g) (into_http http request uri "POST" "HTTP/2.0" true))

  module _ {T : Type 0} (d : Decoder Headers T) where
    unfoldable pub create_response :
        {E : Type 0}
        → Grpc u.Uri
        → d.State
        → HttpResponse Headers E (List (BodyEvent Headers))
        → Result (Status Headers) (Response Headers E (Decode.Stream x d))
    unfolding trailers_only
    create_response g decoder r = do
      encoding ← from_encoding_header x r.headers g.accept_compression_encodings
      only ← trailers_only x r.headers
      ok (
          response_from_http http (record {
            status = r.status;
            version = r.version;
            headers = r.headers;
            extensions = r.extensions;
            body =
                if only
                then Decode.new x d decoder r.body empty_response none none
                else Decode.new x d decoder r.body (response r.status) encoding
                    g.max_decoding_message_size;
          }))
