-- ===== src/Deadline.antt =====
-- Calls with a deadline: the wrapper of a service of grpc-server/src/server.rs, the answer to a
-- request of grpc-server/src/h3_server.rs, and the calls of the channels of grpc-client/src/channel.rs
-- and h3_channel.rs. `elapses` says of a duration whether `tokio::time::timeout` ends the call.
use pure_grpc_rs.Base.{
  Bool, true, List, [], Option, none, some, ◌≡◌, refl, ap, arith, Result, ok, err, if◌then◌else◌,
}
use pure_grpc_rs.Base.Text.{ascii}
use pure_grpc_rs.Base.Words.{Bytes}
use pure_grpc_rs.Call.{delivered_back}
use pure_grpc_rs.Client
use pure_grpc_rs.Client.Single.{unary, once, encoded, Transport}
use pure_grpc_rs.Client.{Uris, prepare_request, create_response}
use pure_grpc_rs.Code.{Code}
use pure_grpc_rs.Codec.{Decoder, Encoder}
use pure_grpc_rs.Call.Single.{unary_unsent}
use pure_grpc_rs.Codec.Decode
use pure_grpc_rs.Codec.Decode.{BodyEvent}
use pure_grpc_rs.Codec.Encode
use pure_grpc_rs.Crates.{Crates}
use pure_grpc_rs.Interceptor.{refuse, refused_response}
use pure_grpc_rs.Request.{HttpRequest, HttpResponse, Request, Response, Duration}
use pure_grpc_rs.Status
use pure_grpc_rs.Status.Refused.{from_header_map-into_http}
use pure_grpc_rs.Status.{Status, ErrorNode, status_error, from_error, is_ok}

-- `tokio::time::timeout`, if there is a timeout, and what the code makes of the elapsed time.
unfoldable pub within : {A : Type 0} → Option Duration → (Duration → Bool) → A → A → A
within none elapses result late = result
within (some duration) elapses result late = if elapses duration then late else result

module _ (x : Crates) where
  open x use {Headers, http}

  abbrev pub deadline_exceeded : Bytes → Status Headers
  deadline_exceeded message = Status.new x Code.deadline_exceeded message

  module _ {E B C : Type 0} (no_extensions : E) (empty_body : C) (elapses : Duration → Bool)
      (service : HttpRequest Headers E B → HttpResponse Headers E C) where
    abbrev pub request_timed_out : HttpResponse Headers E C
    request_timed_out =
        refuse x no_extensions empty_body (deadline_exceeded (ascii "request timed out"))

    -- The extensions with the certificates of the client, if it has shown any.
    abbrev pub with_certs : {P : Type 0} → (P → E → E) → Option P → E → E
    with_certs insert none e = e
    with_certs insert (some certs) e = insert certs e

    -- `HyperServiceWrapper::call`
    unfoldable pub wrapped_call :
        {P : Type 0}
        → (P → E → E)
        → Option P
        → Option Duration
        → HttpRequest Headers E B
        → HttpResponse Headers E C
    unfolding within
    wrapped_call insert peer_certs timeout req =
        within timeout elapses
          (service (record req { extensions = with_certs insert peer_certs req.extensions }))
          request_timed_out

    -- What `serve_request` sends.
    unfoldable pub h3_answer : Option Duration → HttpRequest Headers E B → HttpResponse Headers E C
    unfolding within
    h3_answer timeout request = within timeout elapses (service request) request_timed_out

  -- `Channel::call`, on what the request of the client of hyper gives.
  unfoldable pub channel_call :
      {A : Type 0}
      → Option Duration
      → (Duration → Bool)
      → Result (ErrorNode Headers × List (ErrorNode Headers)) A
      → Result (ErrorNode Headers × List (ErrorNode Headers)) A
  unfolding within
  channel_call timeout elapses result =
      within timeout elapses result
        (err (status_error (deadline_exceeded (ascii "channel request timed out")), []))

  -- `H3Channel::call`, on what `send_h3_request` gives.
  unfoldable pub h3_channel_call :
      {A : Type 0}
      → Option Duration
      → (Duration → Bool)
      → Result (ErrorNode Headers × List (ErrorNode Headers)) A
      → Result (ErrorNode Headers × List (ErrorNode Headers)) A
  unfolding within
  h3_channel_call timeout elapses result =
      within timeout elapses result
        (err (status_error (deadline_exceeded (ascii "h3 channel request timed out")), []))

module _ (x : Crates) where
  open x use {Headers, http}

  module _ (u : Uris) {S : Type 0} (d : Decoder Headers S) (g : Client.Grpc u.Uri) (ds : d.State)
      (arrived : List (BodyEvent Headers)) {E B C : Type 0} (no_extensions : E) (empty_body : C)
      (elapses : Duration → Bool)
      (service : HttpRequest Headers E B → HttpResponse Headers E C) where
    -- What a client makes of an answer, with whatever body arrives.
    abbrev client_result :
        HttpResponse Headers E C → Result (Status Headers) (Response Headers E (Decode.Stream x d))
    client_result answer = create_response x u d g ds (delivered_back x arrived answer)

    -- If the timeout of a server elapses before the service has answered, then a client makes of
    -- the answer of the HTTP/2 wrapper, and of that to a request over HTTP/3, the same error,
    -- whatever the service would have answered and whatever body arrives. Its code is that of an
    -- exceeded deadline, and its message says that the request timed out, if these words are text.
    pub wrapped_call_late :
        {P : Type 0} (insert : P → E → E) (peer_certs : Option P) (timeout : Duration)
        (req : HttpRequest Headers E B)
        → elapses timeout ≡ true
        → x.decode_utf8 (ascii "request timed out") ≡ ok (ascii "request timed out")
        → (f : Status Headers) × (client_result (
              wrapped_call x no_extensions empty_body elapses service insert peer_certs
                (some timeout)
                req)
            ≡ err f)
          × (client_result (h3_answer x no_extensions empty_body elapses service (some timeout) req)
              ≡ err f)
          × (f.code ≡ Code.deadline_exceeded)
          × (f.message ≡ ascii "request timed out")
    unfolding wrapped_call h3_answer
    wrapped_call_late insert peer_certs timeout req e t =
        let status = deadline_exceeded x (ascii "request timed out") in
        let (f, h, code, message, details) =
          from_header_map-into_http x status (omega arith) tt t in
        let r =
          refused_response x no_extensions empty_body u d g ds arrived status f (omega arith) tt h
            (ap is_ok code) in
        (f, rw e r, rw e r, code, message)

  module _ (u : Uris) (display : Status Headers → Bytes) (E : Type 0) {S T : Type 0}
      (n : Encoder Headers S) (d : Decoder Headers T) (g : Client.Grpc u.Uri) (ns : n.State)
      (ds : d.State) (elapses : Duration → Bool) (inner : Transport x u display E n d) where
    -- If the timeout of a channel elapses before the transport has answered a request that the
    -- client can prepare, then `unary` gives an error whose code is that of an exceeded deadline,
    -- with the message of the kind of the channel, HTTP/2 or HTTP/3.
    pub unary_late :
        (timeout : Duration) (r : Request Headers E S) (path : u.PathAndQuery)
        (q : HttpRequest Headers E (Encode.Body x display n))
        → prepare_request x u g (encoded x u display E n d g ns (once x u display E n d r)) path
          ≡ ok q
        → elapses timeout ≡ true
        → (unary x u display E n d g ns ds
              (λ q. channel_call x (some timeout) elapses (inner q))
              r
              path
            ≡ some (err (deadline_exceeded x (ascii "channel request timed out"))))
          × (unary x u display E n d g ns ds
                (λ q. h3_channel_call x (some timeout) elapses (inner q))
                r
                path
              ≡ some (err (deadline_exceeded x (ascii "h3 channel request timed out"))))
    unfolding channel_call h3_channel_call from_error
    unary_late timeout r path q p e = (
      unary_unsent x u display E n d g ns ds (λ q. channel_call x (some timeout) elapses (inner q))
          r path q (status_error (deadline_exceeded x (ascii "channel request timed out"))) [] p
          (rw e refl),
      unary_unsent x u display E n d g ns ds
          (λ q. h3_channel_call x (some timeout) elapses (inner q)) r path q
          (status_error (deadline_exceeded x (ascii "h3 channel request timed out"))) [] p
          (rw e refl),
    )
