-- ===== src/Call/Unary.antt =====
-- A unary call from the client's `unary` to the server's `unary` and back (grpc-client/src/grpc.rs,
-- grpc-server/src/grpc.rs).
use pure_grpc_rs.Base.{
  ◌≤◌, true, List, [], ◌∷◌, Option, none, some, ◌≡◌, refl, ap, ◌∙◌, arith, false, All, Result, ok,
  err, unwrap_or,
}
use pure_grpc_rs.Base.Runs.{Run}
use pure_grpc_rs.Base.Words.{Bytes}
use pure_grpc_rs.Call.{delivered, delivered_back, request_encoding, response_negotiated}
use pure_grpc_rs.Call.Single.{
  map_request_unary-message, client_streaming-refused, client_streaming-single, single-message,
}
use pure_grpc_rs.Client
use pure_grpc_rs.Client.Single.{single, encoded}
use pure_grpc_rs.Client.{Uris, prepare_request, create_response, trailers_only}
use pure_grpc_rs.Code.{Code}
use pure_grpc_rs.Codec.{Decoder, Encoder, default_max_recv_message_size}
use pure_grpc_rs.Codec.Decode
use pure_grpc_rs.Codec.Decode.{BodyEvent, trailers_frame}
use pure_grpc_rs.Codec.Decode.Deliver.{data_of, after_data, Yields}
use pure_grpc_rs.Codec.Decode.Ending.{Ends}
use pure_grpc_rs.Codec.Encode
use pure_grpc_rs.Codec.Encode.{SourceEvent, send_limit}
use pure_grpc_rs.Codec.Encode.Sent.{Sends, Sent}
use pure_grpc_rs.Compression.{CompressionEncoding, from_encoding_header, encodings, is_enabled}
use pure_grpc_rs.Compression.Negotiation.{first_common}
use pure_grpc_rs.Crates.{Crates}
use pure_grpc_rs.Exchange.{IsCodec, client_to_server, server_to_client}
use pure_grpc_rs.Request.{HttpRequest, HttpResponse, Request, Response, from_http_parts}
use pure_grpc_rs.Server
use pure_grpc_rs.Server.{map_response, status_response}
use pure_grpc_rs.Server.Single.{map_request_unary}
use pure_grpc_rs.Status
use pure_grpc_rs.Status.Refused.{no_encoding, from_header_map-into_http}
use pure_grpc_rs.Status.{
  Status, ErrorNode, other_error, is_ok, into_http, from_header_map, to_header_map,
}

module _ (x : Crates) (u : Uris) (display : Status x.Headers → Bytes) (E : Type 0) {T S : Type 0}
    (no_extensions : E) (cn : Encoder x.Headers T) (sd : Decoder x.Headers T)
    (sn : Encoder x.Headers S) (cd : Decoder x.Headers S) where
  open x use {Headers, http}

  -- What the transport makes of the server's answer.
  abbrev connected :
      List (BodyEvent Headers)
      → Option (Server.Answer x display no_extensions sd sn)
      → Result
          (ErrorNode Headers × List (ErrorNode Headers))
          (HttpResponse Headers E (List (BodyEvent Headers)))
  connected body none = err (other_error [], [])
  connected body (some a) = ok (delivered_back x body a)

  -- A transport that runs the server on the request, and brings these events as the bodies.
  abbrev pub connect :
      (HttpRequest Headers E (List (BodyEvent Headers))
        → Option (Server.Answer x display no_extensions sd sn))
      → List (BodyEvent Headers)
      → List (BodyEvent Headers)
      → Client.Single.Transport x u display E cn cd
  connect server request_body response_body q =
      connected response_body (server (delivered x request_body q))

  module _ (g : Client.Grpc u.Uri) (s : Server.Grpc)
      (service : Request Headers E T → Result (Status Headers) (Response Headers E S))
      (cst : cn.State) (sdt : sd.State) (snt : sn.State) (cdt : cd.State)
      (request_body response_body : List (BodyEvent Headers)) where
    abbrev pub served :
        HttpRequest Headers E (List (BodyEvent Headers))
        → Option (Server.Answer x display no_extensions sd sn)
    served = Server.Single.unary x display no_extensions sd sn s sdt snt service

    abbrev pub called :
        Request Headers E T → u.PathAndQuery → Run (Status Headers) (Response Headers E S)
    called r path =
        Client.Single.unary x u display E cn cd g cst cdt
          (connect served request_body response_body) r path

    abbrev pub chosen : Option CompressionEncoding
    chosen = first_common g.accept_compression_encodings s.send_compression_encodings encodings

    module _ (r : Request Headers E T) (path : u.PathAndQuery)
        (q : HttpRequest Headers E (Encode.Body x display cn))
        (prepared : prepare_request x u g
            (encoded x u display E cn cd g cst (Client.Single.once x u display E cn cd r))
            path
          ≡ ok q)
        (accepted : (e : CompressionEncoding)
          → g.send_compression_encoding ≡ some e
          → is_enabled s.accept_compression_encodings e ≡ true) where
      -- The server's answer, where the stream of the request is one message.
      served-message :
          {last : Decode.Stream x sd}
          → Yields x sd
              (Decode.new x sd sdt request_body Decode.Direction.request g.send_compression_encoding
                s.max_decoding_message_size)
              (r.message ∷ [])
              last
          → Ends x sd last none none
          → served (delivered x request_body q)
            ≡ some (
                map_response x display no_extensions sd sn s snt
                  (Server.Single.once x display no_extensions sd sn
                    (service (from_http_parts http q r.message)))
                  chosen)
      unfolding Server.Single.unary from_http_parts
      served-message y e =
          let (enc, acc) =
            request_encoding x u display no_extensions sd sn g s
              (encoded x u display E cn cd g cst (Client.Single.once x u display E cn cd r)) path q
              prepared accepted in
          let one =
            map_request_unary-message x display no_extensions sd sn s g.send_compression_encoding
              (delivered x request_body q) enc y e in
          rw (acc, one) refl

      -- The client's result, where the server answers and the client takes the response.
      called-response :
          {a : Server.Answer x display no_extensions sd sn}
          {r' : Response Headers E (Decode.Stream x cd)}
          → served (delivered x request_body q) ≡ some a
          → create_response x u cd g cdt (delivered_back x response_body a) ≡ ok r'
          → called r path ≡ single x u display E cn cd r'
      unfolding Client.Single.unary
      called-response {a} {r'} e c =
          client_streaming-single x u display E cn cd g cst cdt
            (connect served request_body response_body) (Client.Single.once x u display E cn cd r)
            path q (delivered_back x response_body a) r' prepared (ap (connected response_body) e) c

      module _
          (send_fits : send_limit x g.max_encoding_message_size
            ≤ unwrap_or s.max_decoding_message_size default_max_recv_message_size)
          (request_codec : IsCodec x cn sd) (request_agree : request_codec.Agree cst sdt)
          {cst' : cn.State} {wire : Bytes}
          (sends : Sends x display cn g.send_compression_encoding g.max_encoding_message_size [] cst
            (Encode.SourceEvent.message r.message ∷ [])
            (r.message ∷ [])
            cst'
            wire)
          (carried : data_of request_body ≡ wire) (ending : after_data request_body ≡ []) where
        -- The client refuses a trailers-only response with its status.
        response_refused :
            (status f : Status Headers)
            → All (λ b. b ≤ 255) status.message
            → All (λ b. b ≤ 255) status.details
            → from_header_map x (into_http x status) ≡ some f
            → is_ok f.code ≡ false
            → create_response x u cd g cdt (
                delivered_back x response_body
                  (status_response x display no_extensions sd sn status))
              ≡ err f
        unfolding create_response trailers_only from_encoding_header
        response_refused status f m b e n = ground (arith, no_encoding x status m b, e, n)

        -- In a call as in `unary-answered`, if the service gives a status other than OK, whose
        -- message is text and whose details are bytes, then the client's `unary` gives an error
        -- with the code, the message and the details of this status, whatever body comes with the
        -- response.
        pub unary-refused :
            (status : Status Headers)
            → service (from_http_parts http q r.message) ≡ err status
            → All (λ b. b ≤ 255) status.message
            → All (λ b. b ≤ 255) status.details
            → x.decode_utf8 status.message ≡ ok status.message
            → is_ok status.code ≡ false
            → (f : Status Headers) × (called r path ≡ some (err f))
              × (f.code ≡ status.code)
              × (f.message ≡ status.message)
              × (f.details ≡ status.details)
        unfolding map_response Client.Single.unary
        unary-refused status refused m b t n =
            let (sent, last, y, end) =
              client_to_server x display cn sd request_codec g.send_compression_encoding
                g.max_encoding_message_size s.max_decoding_message_size send_fits request_agree
                request_body carried sends ending in
            let (f, e, code, message, details) = from_header_map-into_http x status m b t in
            let answer =
              served-message y end
              ∙ ap
                  (λ o. some (
                    map_response x display no_extensions sd sn s snt
                      (Server.Single.once x display no_extensions sd sn o) chosen))
                  refused in
            (
              f,
              client_streaming-refused x u display E cn cd g cst cdt
                  (connect served request_body response_body)
                  (Client.Single.once x u display E cn cd r) path q
                  (delivered_back x response_body
                    (status_response x display no_extensions sd sn status))
                  f prepared (ap (connected response_body) answer)
                  (response_refused status f m b e (ap is_ok code ∙ n)),
              code,
              message,
              details,
            )

        -- Let a client call a method by `unary`, with a request that it can prepare, on a
        -- transport that runs the server's `unary` on the request, and let the server accept the
        -- encoding that the client sends with, the limits of each receiver cover those of the
        -- sender, and both codecs read what they wrote. If the one message of each direction is
        -- encoded within the sender's limit, the bytes of each side's body arrive, however they
        -- are cut into data frames and wherever a body waits, and the service answers the request
        -- with a reply, then the client gets a response with the message of the reply. The
        -- client's body sends just the bytes of the request's frame, and the server's body those
        -- of the reply's frame and then the trailers of the status OK.
        pub unary-answered :
            (reply : Response Headers E S) {snt' : sn.State} {wire' : Bytes} (h : Headers)
            (reply_codec : IsCodec x sn cd)
            → service (from_http_parts http q r.message) ≡ ok reply
            → send_limit x s.max_encoding_message_size
              ≤ unwrap_or g.max_decoding_message_size default_max_recv_message_size
            → reply_codec.Agree snt cdt
            → Sends x display sn chosen s.max_encoding_message_size [] snt
                (Encode.SourceEvent.message reply.message ∷ [])
                (reply.message ∷ [])
                snt'
                wire'
            → data_of response_body ≡ wire'
            → after_data response_body ≡ trailers_frame h ∷ []
            → to_header_map x (Status.new x Code.ok []) ≡ ok h
            → x.decode_utf8 [] ≡ ok []
            → (r' : Response Headers E S) × (called r path ≡ some (ok r'))
              × (r'.message ≡ reply.message)
              × Sent x display cn
                  (Encode.new x display cn Encode.Role.client cst
                    (Encode.SourceEvent.message r.message ∷ [])
                    g.send_compression_encoding
                    g.max_encoding_message_size)
                  wire
                  []
              × (a : Server.Answer x display no_extensions sd sn) × (b : Encode.Body x display sn)
              × (served (delivered x request_body q) ≡ some a)
              × (a.body ≡ some b)
              × Sent x display sn b wire' (trailers_frame h ∷ [])
        unfolding map_response
        unary-answered reply {wire' = wire'} h reply_codec answered fits agree replies back tail t
              e =
            let (sent, last, y, end) =
              client_to_server x display cn sd request_codec g.send_compression_encoding
                g.max_encoding_message_size s.max_decoding_message_size send_fits request_agree
                request_body carried sends ending in
            let (sent', last', y', end') =
              server_to_client x display sn cd reply_codec chosen s.max_encoding_message_size
                g.max_decoding_message_size fits agree response_body back h tail 200 replies t e in
            let (r', c, m, b) =
              response_negotiated x u display no_extensions cd sn g s
                (record {
                  metadata = reply.metadata;
                  message = Encode.SourceEvent.message reply.message ∷ [];
                  extensions = reply.extensions;
                })
                snt cdt chosen response_body refl in
            let a =
              served-message y end
              ∙ ap
                  (λ o. some (
                    map_response x display no_extensions sd sn s snt
                      (Server.Single.once x display no_extensions sd sn o) chosen))
                  answered in
            (
              _,
              called-response a c ∙ single-message x u display E cn cd r' m y' end' refl,
              refl,
              sent,
              _,
              _,
              a,
              b,
              sent',
            )
