-- ===== src/Interceptor.antt =====
-- grpc-server/src/interceptor.rs: a service behind an interceptor, which sees the metadata and the
-- extensions of each request. The inner service is the function that its awaited call is.
use pure_grpc_rs.Base.{
  ◌≤◌, false, List, some, ◌≡◌, refl, ap, ◌∙◌, arith, All, Result, ok, err, ◌>>=◌,
}
use pure_grpc_rs.Call.{delivered_back}
use pure_grpc_rs.Client
use pure_grpc_rs.Client.{Uris, create_response, trailers_only}
use pure_grpc_rs.Codec.{Decoder}
use pure_grpc_rs.Codec.Decode.{BodyEvent}
use pure_grpc_rs.Compression.{from_encoding_header}
use pure_grpc_rs.Crates.{Crates}
use pure_grpc_rs.Metadata.{from_headers, into_headers}
use pure_grpc_rs.Request.{HttpRequest, HttpResponse, Request}
use pure_grpc_rs.Status.Refused.{no_encoding, from_header_map-into_http}
use pure_grpc_rs.Status.{Status, into_http, is_ok, from_header_map}

module _ (x : Crates) (E B C : Type 0) where
  open x use {Headers, http}

  abbrev pub Interceptor : Type 0
  Interceptor =
      Request Headers E (Unit {0}) → Result (Status Headers) (Request Headers E (Unit {0}))

  abbrev pub Service : Type 0
  Service = HttpRequest Headers E B → HttpResponse Headers E C

module _ (x : Crates) {E C : Type 0} (no_extensions : E) (empty_body : C) where
  open x use {Headers, http}

  -- `Status::into_http`
  abbrev pub refuse : Status Headers → HttpResponse Headers E C
  refuse status = record {
    status = 200;
    version = "HTTP/1.1";
    headers = into_http x status;
    extensions = no_extensions;
    body = empty_body;
  }

  pub refused_response :
      {T : Type 0} (u : Uris) (d : Decoder Headers T) (g : Client.Grpc u.Uri) (ds : d.State)
      (body : List (BodyEvent Headers)) (status f : Status Headers)
      → All (λ b. b ≤ 255) status.message
      → All (λ b. b ≤ 255) status.details
      → from_header_map x (into_http x status) ≡ some f
      → is_ok f.code ≡ false
      → create_response x u d g ds (delivered_back x body (refuse status)) ≡ err f
  unfolding create_response trailers_only from_encoding_header
  refused_response u d g ds body status f m b e n = ground (arith, no_encoding x status m b, e, n)

module _ (x : Crates) {E B C : Type 0} (no_extensions : E) (empty_body : C) where
  open x use {Headers, http}

  -- What the interceptor sees of a request.
  abbrev pub seen : HttpRequest Headers E B → Request Headers E (Unit {0})
  seen req = record {
    metadata = from_headers http req.headers;
    message = tt;
    extensions = req.extensions;
  }

  -- The request with what the interceptor has made of it.
  abbrev pub put_back :
      Request Headers E (Unit {0}) → HttpRequest Headers E B → HttpRequest Headers E B
  put_back intercepted req = record req {
    headers = into_headers http intercepted.metadata;
    extensions = intercepted.extensions;
  }

  unfoldable pub call : Service x E B C → Interceptor x E B C → Service x E B C
  call inner interceptor req = elim (interceptor (seen req)) [
    | ok intercepted ↦ inner (put_back intercepted req)
    | err status ↦ refuse x no_extensions empty_body status
  ]

  call-call_of :
      (inner : Service x E B C) (first second : Interceptor x E B C) (req : HttpRequest Headers E B)
      (r : Result (Status Headers) (Request Headers E (Unit {0})))
      → first (seen req) ≡ r
      → call (call inner second) first req ≡ call inner (λ r. first r >>= second) req
  unfolding call
  call-call_of inner first second req (ok r) e = rw (e, call) refl
  call-call_of inner first second req (err f) e = rw (e, call) refl

  -- A service behind two interceptors, one around the other, answers every request as the service
  -- behind one interceptor that runs the outer one and then, if it accepts, the inner one.
  pub call-call :
      (inner : Service x E B C) (first second : Interceptor x E B C) (req : HttpRequest Headers E B)
      → call (call inner second) first req ≡ call inner (λ r. first r >>= second) req
  call-call inner first second req = call-call_of inner first second req (first (seen req)) refl

  -- If an interceptor refuses a request with a status other than OK, whose message is text and
  -- whose details are bytes, then a client makes of the response, whatever the inner service does,
  -- an error with the code, the message and the details of this status.
  pub call-refused :
      {T : Type 0} (u : Uris) (d : Decoder Headers T) (g : Client.Grpc u.Uri) (ds : d.State)
      (body : List (BodyEvent Headers)) (inner : Service x E B C)
      (interceptor : Interceptor x E B C) (req : HttpRequest Headers E B) (status : Status Headers)
      → interceptor (seen req) ≡ err status
      → All (λ b. b ≤ 255) status.message
      → All (λ b. b ≤ 255) status.details
      → x.decode_utf8 status.message ≡ ok status.message
      → is_ok status.code ≡ false
      → (f : Status Headers) × (create_response x u d g ds
            (delivered_back x body (call inner interceptor req))
          ≡ err f)
        × (f.code ≡ status.code)
        × (f.message ≡ status.message)
        × (f.details ≡ status.details)
  unfolding call
  call-refused u d g ds body inner interceptor req status e m b t n =
      let (f, h, code, message, details) = from_header_map-into_http x status m b t in
      (
        f,
        rw (e, call)
            (refused_response x no_extensions empty_body u d g ds body status f m b h
              (ap is_ok code ∙ n)),
        code,
        message,
        details,
      )
