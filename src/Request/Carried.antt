-- ===== src/Request/Carried.antt =====
-- What a request and a response carry over HTTP (request.rs, response.rs).
use pure_grpc_rs.Base.{◌<◌, true, none, some, String, ◌≡◌, refl, ap, ◌∙◌, if◌then◌else◌}
use pure_grpc_rs.Base.Words.{Bytes}
use pure_grpc_rs.Crates.{Http}
use pure_grpc_rs.Metadata.{grpc_timeout_header, is_reserved, get, insert}
use pure_grpc_rs.Metadata.Sanitize.{get-into_sanitized_headers}
use pure_grpc_rs.Request.Timeout.{duration_to_grpc_timeout-rounded}
use pure_grpc_rs.Request.{
  Request, Response, Duration, duration_to_grpc_timeout, from_http, into_http, set_timeout,
  response_from_http, response_into_http,
}
use text.Mathlib.Text.{◌==◌}

module _ (http : Http) {E T : Type 0} where
  open http use {Headers}

  abbrev pub received : Request Headers E T → String → String → String → Request Headers E T
  received r uri method version = from_http http (into_http http r uri method version true)

  -- A request that is sanitized into an HTTP request and read back has its message and its
  -- extensions, the first value of each name of its metadata that is not reserved, and no value of
  -- a reserved name.
  pub from_http-into_http :
      (r : Request Headers E T) (uri method version k : String)
      → ((received r uri method version).message ≡ r.message)
        × ((received r uri method version).extensions ≡ r.extensions)
        × (get http k (received r uri method version).metadata
            ≡ (if is_reserved k then none else get http k r.metadata))
  unfolding from_http into_http get
  from_http-into_http r uri method version k =
      (refl, refl, get-into_sanitized_headers http r.metadata k)

  -- A response that is turned into an HTTP response and read back has its message and its
  -- extensions, the first value of each name of its metadata that is not reserved, and no value of
  -- a reserved name.
  pub response_from_http-response_into_http :
      (r : Response Headers E T) (k : String)
      → ((response_from_http http (response_into_http http r)).message ≡ r.message)
        × ((response_from_http http (response_into_http http r)).extensions ≡ r.extensions)
        × (get http k (response_from_http http (response_into_http http r)).metadata
            ≡ (if is_reserved k then none else get http k r.metadata))
  unfolding response_from_http response_into_http get
  response_from_http-response_into_http r k =
      (refl, refl, get-into_sanitized_headers http r.metadata k)

  set_timeout-some :
      (r : Request Headers E T) (d : Duration) (header : Bytes)
      → duration_to_grpc_timeout d ≡ some header
      → set_timeout http r d
        ≡ some (record r { metadata = (insert http grpc_timeout_header header r.metadata).1 })
  unfolding set_timeout
  set_timeout-some r d header e = rw (set_timeout, e) refl

  -- Setting a timeout, with its nanoseconds below a second, succeeds; the HTTP request then
  -- carries it in the header `grpc-timeout`, in the place of one set before, carries no reserved
  -- header, and carries every other header of the metadata as before.
  pub into_http-set_timeout :
      (r : Request Headers E T) (d : Duration) (uri method version k : String)
      → d.nanos < 1000000000
      → (header : Bytes) × (r' : Request Headers E T) × (duration_to_grpc_timeout d ≡ some header)
        × (set_timeout http r d ≡ some r')
        × (http.get k (into_http http r' uri method version true).headers ≡ (
            if is_reserved k
            then none
            else if grpc_timeout_header == k
            then some header
            else http.get k r.metadata.headers))
  unfolding into_http get insert
  into_http-set_timeout r d uri method version k h =
      let (header, e, _) = duration_to_grpc_timeout-rounded d h in
      let m = (insert http grpc_timeout_header header r.metadata).1 in
      (
        header,
        record r { metadata = m },
        e,
        set_timeout-some r d header e,
        get-into_sanitized_headers http m k
            ∙ ap (λ v. if is_reserved k then none else v)
                (http.get-insert grpc_timeout_header k header r.metadata.headers),
      )
