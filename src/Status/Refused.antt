-- ===== src/Status/Refused.antt =====
-- The trailers-only response of a status, and the status that is read from it
-- (grpc-core/src/status.rs).
use pure_grpc_rs.Base.{◌≤◌, none, some, ◌≡◌, refl, ap, ◌∙◌, arith, All, ok}
use pure_grpc_rs.Code.Laws.{from_bytes-to_header_value}
use pure_grpc_rs.Crates.{Crates}
use pure_grpc_rs.Metadata
use pure_grpc_rs.Metadata.{grpc_content_type, is_reserved}
use pure_grpc_rs.Status.{
  Status, into_http, from_header_map, grpc_message, grpc_status_details, is_status_header,
}
use pure_grpc_rs.Status.Wire.{error_message-field, error_details-field}
use pure_grpc_rs.Status.Written.{
  written, add_header-ok, get-written_status, get-written_message, get-written_details,
  get-written_other,
}

module _ (x : Crates) where
  open x use {Headers, http}

  abbrev typed : Headers
  typed = http.insert "content-type" grpc_content_type http.empty

  into_http-written :
      (s : Status Headers)
      → All (λ b. b ≤ 255) s.message
      → All (λ b. b ≤ 255) s.details
      → into_http x s ≡ written x s typed
  unfolding into_http
  into_http-written s m d = ground (arith, add_header-ok x s typed m d)

  abbrev refused : Status Headers → Status Headers
  refused s = record {
    code = s.code;
    message = s.message;
    details = s.details;
    metadata = Metadata.from_headers http (
        Metadata.insert_unless http (is_status_header x) (http.entries (written x s typed))
          http.empty);
  }

  from_header_map-written :
      (s : Status Headers)
      → All (λ b. b ≤ 255) s.message
      → All (λ b. b ≤ 255) s.details
      → x.decode_utf8 s.message ≡ ok s.message
      → from_header_map x (written x s typed) ≡ some (refused s)
  unfolding from_header_map is_reserved
  from_header_map-written s m d u = ground (
    arith,
    get-written_status x s typed,
    get-written_message x s typed,
    get-written_details x s typed,
    http.get-insert "content-type" grpc_message grpc_content_type http.empty,
    http.get-insert "content-type" grpc_status_details grpc_content_type http.empty,
    http.get-empty grpc_message,
    http.get-empty grpc_status_details,
    error_message-field x s.message m u,
    error_details-field x s.details d,
    from_bytes-to_header_value s.code,
  )

  pub from_header_map-into_http :
      (s : Status Headers)
      → All (λ b. b ≤ 255) s.message
      → All (λ b. b ≤ 255) s.details
      → x.decode_utf8 s.message ≡ ok s.message
      → (f : Status Headers) × (from_header_map x (into_http x s) ≡ some f)
        × (f.code ≡ s.code)
        × (f.message ≡ s.message)
        × (f.details ≡ s.details)
  from_header_map-into_http s m d u = (
    refused s,
    ap (from_header_map x) (into_http-written s m d) ∙ from_header_map-written s m d u,
    refl,
    refl,
    refl,
  )

  pub no_encoding :
      (s : Status Headers)
      → All (λ b. b ≤ 255) s.message
      → All (λ b. b ≤ 255) s.details
      → http.get "grpc-encoding" (into_http x s) ≡ none
  unfolding is_reserved is_status_header
  no_encoding s m d = ground (
    arith,
    into_http-written s m d,
    get-written_other x s typed "grpc-encoding" refl,
    http.get-insert "content-type" "grpc-encoding" grpc_content_type http.empty,
    http.get-empty "grpc-encoding",
  )
