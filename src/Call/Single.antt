-- ===== src/Call/Single.antt =====
-- Calls with one message on a side: what the server takes of the request, and what the client makes
-- of the response (grpc-server/src/grpc.rs, grpc-client/src/grpc.rs).
use pure_grpc_rs.Base.{List, [], ◌∷◌, Option, none, some, ◌≡◌, refl, ◌∙◌, ok, err}
use pure_grpc_rs.Base.Words.{Bytes}
use pure_grpc_rs.Client.{Uris, Grpc, prepare_request, create_response}
use pure_grpc_rs.Client.Single.{
  Transport, encoded, streaming, client_streaming, single, unary, once,
}
use pure_grpc_rs.Codec.{Decoder, Encoder}
use pure_grpc_rs.Codec.Decode
use pure_grpc_rs.Codec.Encode
use pure_grpc_rs.Codec.Decode.{BodyEvent, trailers_frame, request, response}
use pure_grpc_rs.Codec.Decode.Deliver.{Yields}
use pure_grpc_rs.Codec.Decode.Drained.{metadata_of, Ends-Yields, trailers-finished}
use pure_grpc_rs.Codec.Decode.Ending.{Ends}
use pure_grpc_rs.Codec.Decode.Futures.{message, trailers}
use pure_grpc_rs.Codec.Decode.Steady.{message-Yields}
use pure_grpc_rs.Compression.{CompressionEncoding, from_encoding_header}
use pure_grpc_rs.Crates.{Crates}
use pure_grpc_rs.Metadata.{merge, from_headers}
use pure_grpc_rs.Request.{HttpRequest, HttpResponse, Request, Response, from_http_parts}
use pure_grpc_rs.Server
use pure_grpc_rs.Server.Single.{map_request_unary}
use pure_grpc_rs.Status.{Status, ErrorNode, from_error}

module _ (x : Crates) {T : Type 0} (d : Decoder x.Headers T) where
  open x use {Headers, http}

  -- A stream of one message, which then ends well, gives the message and then the trailers.
  one_message :
      {s last : Decode.Stream x d} {m : T} {h : Option Headers}
      → Yields x d s (m ∷ []) last
      → Ends x d last none h
      → s.inner.trailers ≡ none
      → (t u : Decode.Stream x d) × (message x d s ≡ some (t, ok (some m)))
        × (trailers x d t ≡ some (u, ok (metadata_of x d h)))
  one_message y e n =
      let (t, p, z, k) = message-Yields x d y in
      let (u, q) = trailers-finished x d (k ∙ n) (Ends-Yields x d z e) in (t, u, p, q)

module _ (x : Crates) (display : Status x.Headers → Bytes) {E T S : Type 0} (no_extensions : E)
    (d : Decoder x.Headers T) (n : Encoder x.Headers S) where
  open x use {Headers, http}

  pub map_request_unary-message :
      {st : d.State} {last : Decode.Stream x d} {m : T} (g : Server.Grpc)
      (encoding : Option CompressionEncoding) (r : HttpRequest Headers E (List (BodyEvent Headers)))
      → from_encoding_header x r.headers g.accept_compression_encodings ≡ ok encoding
      → Yields x d
          (Decode.new x d st r.body request encoding g.max_decoding_message_size)
          (m ∷ [])
          last
      → Ends x d last none none
      → map_request_unary x display no_extensions d n g st r ≡ some (ok (from_http_parts http r m))
  unfolding map_request_unary
  map_request_unary-message g encoding r h y e =
      let (s, u, p, q) = one_message x d y e refl in rw (h, p, q) refl

module _ (x : Crates) (u : Uris) (display : Status x.Headers → Bytes) (E : Type 0) {S T : Type 0}
    (n : Encoder x.Headers S) (d : Decoder x.Headers T) where
  open x use {Headers, http}

  pub single-message :
      {s last : Decode.Stream x d} {m : T} {h : Headers}
      (r : Response Headers E (Decode.Stream x d))
      → r.message ≡ s
      → Yields x d s (m ∷ []) last
      → Ends x d last none (some h)
      → s.inner.trailers ≡ none
      → single x u display E n d r
        ≡ some (
            ok (record {
              metadata = merge http r.metadata (from_headers http h);
              message = m;
              extensions = r.extensions;
            }))
  unfolding single
  single-message r a y e k = let (t, u, p, q) = one_message x d y e k in rw (a, p, q) refl

  streaming-response :
      (g : Grpc u.Uri) (st : n.State) (ds : d.State) (call : Transport x u display E n d)
      (r : Request Headers E (List (Option S))) (path : u.PathAndQuery)
      (q : HttpRequest Headers E (Encode.Body x display n))
      (a : HttpResponse Headers E (List (BodyEvent Headers)))
      (r' : Response Headers E (Decode.Stream x d))
      → prepare_request x u g (encoded x u display E n d g st r) path ≡ ok q
      → call q ≡ ok a
      → create_response x u d g ds a ≡ ok r'
      → streaming x u display E n d g st ds call r path ≡ ok r'
  unfolding streaming
  streaming-response g st ds call r path q a r' p c e = rw (p, streaming) (rw c e)

  -- A call with a single response, where the transport answers and the client takes the answer.
  pub client_streaming-single :
      (g : Grpc u.Uri) (st : n.State) (ds : d.State) (call : Transport x u display E n d)
      (r : Request Headers E (List (Option S))) (path : u.PathAndQuery)
      (q : HttpRequest Headers E (Encode.Body x display n))
      (a : HttpResponse Headers E (List (BodyEvent Headers)))
      (r' : Response Headers E (Decode.Stream x d))
      → prepare_request x u g (encoded x u display E n d g st r) path ≡ ok q
      → call q ≡ ok a
      → create_response x u d g ds a ≡ ok r'
      → client_streaming x u display E n d g st ds call r path ≡ single x u display E n d r'
  unfolding client_streaming
  client_streaming-single g st ds call r path q a r' p c e =
      rw (streaming-response g st ds call r path q a r' p c e, client_streaming) refl

  streaming-refused :
      (g : Grpc u.Uri) (st : n.State) (ds : d.State) (call : Transport x u display E n d)
      (r : Request Headers E (List (Option S))) (path : u.PathAndQuery)
      (q : HttpRequest Headers E (Encode.Body x display n))
      (a : HttpResponse Headers E (List (BodyEvent Headers))) (f : Status Headers)
      → prepare_request x u g (encoded x u display E n d g st r) path ≡ ok q
      → call q ≡ ok a
      → create_response x u d g ds a ≡ err f
      → streaming x u display E n d g st ds call r path ≡ err f
  unfolding streaming
  streaming-refused g st ds call r path q a f p c e = rw (p, streaming) (rw c e)

  pub client_streaming-refused :
      (g : Grpc u.Uri) (st : n.State) (ds : d.State) (call : Transport x u display E n d)
      (r : Request Headers E (List (Option S))) (path : u.PathAndQuery)
      (q : HttpRequest Headers E (Encode.Body x display n))
      (a : HttpResponse Headers E (List (BodyEvent Headers))) (f : Status Headers)
      → prepare_request x u g (encoded x u display E n d g st r) path ≡ ok q
      → call q ≡ ok a
      → create_response x u d g ds a ≡ err f
      → client_streaming x u display E n d g st ds call r path ≡ some (err f)
  unfolding client_streaming
  client_streaming-refused g st ds call r path q a f p c e =
      rw (streaming-refused g st ds call r path q a f p c e, client_streaming) refl

  streaming_unsent :
      (g : Grpc u.Uri) (st : n.State) (ds : d.State) (call : Transport x u display E n d)
      (r : Request Headers E (List (Option S))) (path : u.PathAndQuery)
      (q : HttpRequest Headers E (Encode.Body x display n)) (e : ErrorNode Headers)
      (sources : List (ErrorNode Headers))
      → prepare_request x u g (encoded x u display E n d g st r) path ≡ ok q
      → call q ≡ err (e, sources)
      → streaming x u display E n d g st ds call r path ≡ err (from_error x e sources)
  unfolding streaming
  streaming_unsent g st ds call r path q e sources p c = rw (p, streaming) (rw c refl)

  -- An error of the transport, with its sources, is the error of the call.
  pub unary_unsent :
      (g : Grpc u.Uri) (st : n.State) (ds : d.State) (call : Transport x u display E n d)
      (r : Request Headers E S) (path : u.PathAndQuery)
      (q : HttpRequest Headers E (Encode.Body x display n)) (e : ErrorNode Headers)
      (sources : List (ErrorNode Headers))
      → prepare_request x u g (encoded x u display E n d g st (once x u display E n d r)) path
        ≡ ok q
      → call q ≡ err (e, sources)
      → unary x u display E n d g st ds call r path ≡ some (err (from_error x e sources))
  unfolding unary client_streaming
  unary_unsent g st ds call r path q e sources p c =
      rw
        (
          streaming_unsent g st ds call (once x u display E n d r) path q e sources p c,
          client_streaming,
        )
        refl
