-- ===== src/Call.antt =====
-- What the two ends of a call agree on by their headers (grpc-client/src/grpc.rs,
-- grpc-server/src/grpc.rs).
pub mod Single
pub mod Unary
use pure_grpc_rs.Base.{
  true, false, ◌&&◌, List, [], ◌∷◌, Option, none, some, String, ◌≡◌, refl, ap, ◌∙◌, inl, inr, arith,
  if◌then◌else◌, or_else, or_else-none, ok, ◌>>=◌, Result-cases, Bool-cases,
}
use pure_grpc_rs.Base.Words.{Bytes}
use pure_grpc_rs.Client
use pure_grpc_rs.Client.{
  Uris, header_of, insert_if, prepared_headers, prepare_request, called_path, with_headers,
  trailers_only, create_response,
}
use pure_grpc_rs.Codec.{Decoder, Encoder}
use pure_grpc_rs.Codec.Decode
use pure_grpc_rs.Codec.Decode.{BodyEvent, request, response}
use pure_grpc_rs.Codec.Encode
use pure_grpc_rs.Codec.Encode.{SourceEvent}
use pure_grpc_rs.Compression.{
  CompressionEncoding, EnabledCompressionEncodings, encodings, is_enabled, encoding_header,
  accept_encoding_header, into_accept_encoding_header_value, from_encoding_header,
  from_accept_encoding_header,
}
use pure_grpc_rs.Compression.Negotiation.{
  first_common, from_accept_encoding_header-into, from_encoding_header-as_str,
}
use pure_grpc_rs.Crates.{Crates}
use pure_grpc_rs.Metadata.{MetadataMap, is_reserved, into_sanitized_headers}
use pure_grpc_rs.Metadata.Sanitize.{get-into_sanitized_headers}
use pure_grpc_rs.Request.{
  HttpRequest, HttpResponse, Request, Response, from_http, into_http, response_into_http,
  response_from_http,
}
use pure_grpc_rs.Server
use pure_grpc_rs.Server.{map_request_streaming, map_response}
use pure_grpc_rs.Status.{Status, from_header_map, grpc_status}
use text.Mathlib.Text.{◌==◌}

first_common-enabled :
    (a b : EnabledCompressionEncodings) (es : List CompressionEncoding) (e : CompressionEncoding)
    → first_common a b es ≡ some e
    → is_enabled a e ≡ true
first_common-enabled a b [] e h = ground (arith, h)
first_common-enabled a b (c ∷ es) e h = elim (Bool-cases (is_enabled a c && is_enabled b c)) [
  | inl t ↦
      let q : some c ≡ some e = ground (arith, h, t) in
      elim (Bool-cases (is_enabled a c)) [
        | inl y ↦ ground (arith, q, y)
        | inr f ↦ ground (arith, t, f)
      ]
  | inr f ↦ first_common-enabled a b es e (ground (arith, h, f))
]

module _ (x : Crates) where
  open x use {Headers, http}

  get-insert_if :
      (name k : String) (o : Option Bytes) (h : Headers)
      → http.get k (insert_if x name o h)
        ≡ (if name == k then or_else o (http.get k h) else http.get k h)
  unfolding insert_if
  get-insert_if name k none h = ground arith
  get-insert_if name k (some v) h = http.get-insert name k v h ∙ ground arith

  read_encoding :
      (o : Option CompressionEncoding) (a : EnabledCompressionEncodings) (h : Headers)
      → ((e : CompressionEncoding) → o ≡ some e → is_enabled a e ≡ true)
      → http.get encoding_header h ≡ header_of o
      → from_encoding_header x h a ≡ ok o
  unfolding from_encoding_header
  read_encoding none a h t e = rw (from_encoding_header, e) refl
  read_encoding (some c) a h t e = from_encoding_header-as_str x c a h e (t c refl)

  module _ (u : Uris) (g : Client.Grpc u.Uri) (m : MetadataMap Headers) where
    abbrev pub sent : Headers
    sent = prepared_headers x u g (into_sanitized_headers http m)

    sent-encoding : http.get encoding_header sent ≡ header_of g.send_compression_encoding
    unfolding prepared_headers is_reserved
    sent-encoding =
        rw
          (
            get-insert_if,
            get-insert_if,
            http.get-insert,
            http.get-insert,
            get-into_sanitized_headers http m encoding_header,
          )
          (or_else-none (header_of g.send_compression_encoding))

    sent-accept :
        http.get accept_encoding_header sent
        ≡ into_accept_encoding_header_value g.accept_compression_encodings
    unfolding prepared_headers is_reserved
    sent-accept =
        rw
          (
            get-insert_if,
            get-insert_if,
            http.get-insert,
            http.get-insert,
            get-into_sanitized_headers http m accept_encoding_header,
          )
          (or_else-none (into_accept_encoding_header_value g.accept_compression_encodings))

  prepare_request-headers :
      (u : Uris) {E B : Type 0} (g : Client.Grpc u.Uri) (r : Request Headers E B)
      (path : u.PathAndQuery) (q : HttpRequest Headers E B)
      → prepare_request x u g r path ≡ ok q
      → q.headers ≡ sent u g r.metadata
  unfolding prepare_request into_http
  prepare_request-headers u g r path q h =
      elim (Result-cases (called_path x u (u.path_and_query g.origin) path)) [
        | inr (e, f) ↦ ground (arith, h, f)
        | inl (p, f) ↦ elim (Result-cases (u.from_parts g.origin p)) [
          | inr (e, k) ↦ ground (arith, h, f, k)
          | inl (uri, k) ↦ ground (arith, h, f, k)
        ]
      ]

  abbrev pub delivered : {E B C : Type 0} → C → HttpRequest Headers E B → HttpRequest Headers E C
  delivered body q = record {
    method = q.method;
    uri = q.uri;
    version = q.version;
    headers = q.headers;
    extensions = q.extensions;
    body = body;
  }

  abbrev pub delivered_back :
      {E B C : Type 0} → C → HttpResponse Headers E B → HttpResponse Headers E C
  delivered_back body q = record {
    status = q.status;
    version = q.version;
    headers = q.headers;
    extensions = q.extensions;
    body = body;
  }

  module _ (u : Uris) (display : Status Headers → Bytes) {E T S : Type 0} (no_extensions : E)
      (d : Decoder Headers T) (n : Encoder Headers S) (g : Client.Grpc u.Uri)
      (s : Server.Grpc) where
    pub request_encoding :
        {B : Type 0} (r : Request Headers E B) (path : u.PathAndQuery) (q : HttpRequest Headers E B)
        → prepare_request x u g r path ≡ ok q
        → ((e : CompressionEncoding)
            → g.send_compression_encoding ≡ some e
            → is_enabled s.accept_compression_encodings e ≡ true)
        → (from_encoding_header x q.headers s.accept_compression_encodings
            ≡ ok g.send_compression_encoding)
          × (from_accept_encoding_header x q.headers s.send_compression_encodings
              ≡ first_common g.accept_compression_encodings s.send_compression_encodings encodings)
    request_encoding r path q h t =
        let e = prepare_request-headers u g r path q h in
        (
          read_encoding g.send_compression_encoding s.accept_compression_encodings q.headers t
              (ap (http.get encoding_header) e ∙ sent-encoding u g r.metadata),
          from_accept_encoding_header-into x g.accept_compression_encodings
              s.send_compression_encodings q.headers
              (ap (http.get accept_encoding_header) e ∙ sent-accept u g r.metadata),
        )

    -- If a client has prepared a request, and the server accepts the encoding that the client
    -- sends with, if any, then the server makes of the HTTP request, with whatever body arrives, a
    -- request whose message is the stream that decodes this body with the client's encoding and
    -- the server's limit; and the encoding that the server chooses for its response is the first
    -- one, in the order of the program's list, that the client accepts and the server sends with,
    -- or none.
    pub request_negotiated :
        {B : Type 0} (r : Request Headers E B) (path : u.PathAndQuery) (q : HttpRequest Headers E B)
        (body : List (BodyEvent Headers)) (ds : d.State)
        → prepare_request x u g r path ≡ ok q
        → ((e : CompressionEncoding)
            → g.send_compression_encoding ≡ some e
            → is_enabled s.accept_compression_encodings e ≡ true)
        → (r' : Request Headers E (Decode.Stream x d)) × (map_request_streaming x display
              no_extensions d n s ds
              (delivered body q)
            ≡ ok r')
          × (r'.message
              ≡ Decode.new x d ds body request g.send_compression_encoding
                  s.max_decoding_message_size)
          × (from_accept_encoding_header x q.headers s.send_compression_encodings
              ≡ first_common g.accept_compression_encodings s.send_compression_encodings encodings)
    unfolding map_request_streaming from_http
    request_negotiated r path q body ds h t =
        let (k, c) = request_encoding r path q h t in
        (
          _,
          ap
              (λ o. do
                encoding ← o
                ok (
                    from_http http (
                      delivered
                        (Decode.new x d ds body request encoding s.max_decoding_message_size) q)))
              k,
          refl,
          c,
        )

    answer_headers :
        (r : Response Headers E (List (SourceEvent Headers S))) (st : n.State)
        (o : Option CompressionEncoding)
        → (http.get encoding_header (map_response x display no_extensions d n s st (ok r) o).headers
            ≡ header_of o)
          × (http.get grpc_status (map_response x display no_extensions d n s st (ok r) o).headers
              ≡ none)
    unfolding map_response response_into_http is_reserved
    answer_headers r st o = (
      rw
          (
            get-insert_if,
            http.get-insert,
            get-into_sanitized_headers http r.metadata encoding_header,
          )
          (or_else-none (header_of o)),
      rw (get-insert_if, http.get-insert, get-into_sanitized_headers http r.metadata grpc_status)
          refl,
    )

    no_status : (h : Headers) → http.get grpc_status h ≡ none → trailers_only x h ≡ ok false
    unfolding trailers_only from_header_map
    no_status h e = rw (trailers_only, e) refl

    response_read :
        (ds : d.State) (a : HttpResponse Headers E (List (BodyEvent Headers)))
        (o : Option CompressionEncoding)
        → from_encoding_header x a.headers g.accept_compression_encodings ≡ ok o
        → trailers_only x a.headers ≡ ok false
        → create_response x u d g ds a
          ≡ ok (
              response_from_http http (
                delivered_back
                  (Decode.new x d ds a.body (response a.status) o g.max_decoding_message_size)
                  a))
    unfolding create_response
    response_read ds a o k t = ground (arith, k, t)

    -- If the encoding of a response is the first one that the client accepts and the server sends
    -- with, or none, then the client makes of the server's HTTP response to a success of the
    -- service, with whatever body arrives, a response whose message is the stream that decodes
    -- this body with the same encoding, the client's limit and the HTTP status 200, and which
    -- expects trailers; the server's own body encodes the messages of the service with this
    -- encoding.
    pub response_negotiated :
        (r : Response Headers E (List (SourceEvent Headers S))) (st : n.State) (ds : d.State)
        (o : Option CompressionEncoding) (body : List (BodyEvent Headers))
        → first_common g.accept_compression_encodings s.send_compression_encodings encodings ≡ o
        → (r' : Response Headers E (Decode.Stream x d)) × (create_response x u d g ds
              (delivered_back body (map_response x display no_extensions d n s st (ok r) o))
            ≡ ok r')
          × (r'.message ≡ Decode.new x d ds body (response 200) o g.max_decoding_message_size)
          × ((map_response x display no_extensions d n s st (ok r) o).body
              ≡ some (
                  Encode.new x display n Encode.Role.server st r.message o
                    s.max_encoding_message_size))
    unfolding map_response response_into_http response_from_http
    response_negotiated r st ds o body c =
        let (enc, status) = answer_headers r st o in
        let a : HttpResponse Headers E (List (BodyEvent Headers)) =
          delivered_back body (map_response x display no_extensions d n s st (ok r) o) in
        (
          _,
          response_read ds a o
              (read_encoding o g.accept_compression_encodings a.headers
                (λ e q. first_common-enabled _ _ encodings e (c ∙ q)) enc)
              (no_status a.headers status),
          refl,
          refl,
        )
