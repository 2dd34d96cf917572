-- ===== src/Web.antt =====
-- grpc-web/src/lib.rs and grpc-web/src/service.rs: the content types of gRPC-Web, and the service
-- around a gRPC service that translates its requests and responses. The inner service is the
-- function that its awaited call is.
pub mod Body
pub mod Sent
pub mod Trailers
pub mod Service
pub mod Misread
use pure_grpc_rs.Base.{
  ℕ, Bool, true, false, ◌||◌, List, [], ◌∷◌, Option, none, some, if◌then◌else◌, ltb, leb, unwrap_or,
}
use pure_grpc_rs.Base.Text.{ascii}
use pure_grpc_rs.Base.Words.{Bytes, same}
use pure_grpc_rs.Codec.Decode.{BodyEvent}
use pure_grpc_rs.Crates.{Crates}
use pure_grpc_rs.Request.{HttpRequest, HttpResponse}
use pure_grpc_rs.Router.{starts_with}
use pure_grpc_rs.Web.Body.{Encoding, binary, base64, GrpcWebCall}
use pure_grpc_rs.Web.Body

abbrev pub grpc_web : Bytes
grpc_web = ascii "application/grpc-web"

abbrev pub grpc_web_proto : Bytes
grpc_web_proto = ascii "application/grpc-web+proto"

abbrev pub grpc_web_text : Bytes
grpc_web_text = ascii "application/grpc-web-text"

abbrev pub grpc_web_text_proto : Bytes
grpc_web_text_proto = ascii "application/grpc-web-text+proto"

abbrev pub grpc : Bytes
grpc = ascii "application/grpc"

unfoldable pub is_grpc_web : Bytes → Bool
is_grpc_web content_type =
    same content_type grpc_web
    || same content_type grpc_web_proto
    || same content_type grpc_web_text
    || same content_type grpc_web_text_proto

-- `str::contains`
unfoldable pub contains : Bytes → Bytes → Bool
contains [] pattern = starts_with [] pattern
contains (b ∷ text) pattern = starts_with (b ∷ text) pattern || contains text pattern

unfoldable pub from_content_type : Bytes → Encoding
from_content_type ct = if contains ct (ascii "text") then base64 else binary

abbrev pub response_type : Encoding → Bytes
response_type base64 = grpc_web_text
response_type binary = grpc_web

module _ (x : Crates) where
  open x use {Headers, http}

  abbrev pub Call : Type 0
  Call = GrpcWebCall Headers

  -- `get(CONTENT_TYPE).and_then(to_str).unwrap_or("")`
  unfoldable pub content_type_of : Headers → Bytes
  content_type_of headers = elim (http.get "content-type" headers) [
    | none ↦ []
    | some v ↦ unwrap_or (x.to_str v) []
  ]

  abbrev pub wrapped_request :
      {E : Type 0}
      → Encoding
      → HttpRequest Headers E (List (BodyEvent Headers))
      → (Headers → Headers)
      → HttpRequest Headers E Call
  wrapped_request encoding r rewrite = record {
    method = r.method;
    uri = r.uri;
    version = r.version;
    headers = rewrite r.headers;
    extensions = r.extensions;
    body = Body.request encoding r.body;
  }

  abbrev pub wrapped_response :
      {E : Type 0}
      → Encoding
      → HttpResponse Headers E (List (BodyEvent Headers))
      → (Headers → Headers)
      → HttpResponse Headers E Call
  wrapped_response encoding r rewrite = record {
    status = r.status;
    version = r.version;
    headers = rewrite r.headers;
    extensions = r.extensions;
    body = Body.response encoding r.body;
  }

  -- The headers of the gRPC request.
  unfoldable pub to_grpc : Headers → Headers
  to_grpc h =
      http.insert "te" (ascii "trailers")
        (http.remove "content-length" (http.insert "content-type" grpc h))

  -- The headers of the gRPC-Web response.
  unfoldable pub to_grpc_web : Encoding → Headers → Headers
  to_grpc_web encoding h =
      http.remove "content-length" (http.insert "content-type" (response_type encoding) h)

  unfoldable pub call :
      {E : Type 0}
      → (HttpRequest Headers E Call → HttpResponse Headers E (List (BodyEvent Headers)))
      → HttpRequest Headers E (List (BodyEvent Headers))
      → HttpResponse Headers E Call
  unfolding to_grpc to_grpc_web
  call inner req =
      let content_type = content_type_of req.headers in
      let encoding = from_content_type content_type in
      if is_grpc_web content_type
      then wrapped_response encoding (inner (wrapped_request encoding req to_grpc))
          (to_grpc_web encoding)
      else wrapped_response binary (inner (wrapped_request binary req (λ h. h))) (λ h. h)
