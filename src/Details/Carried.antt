-- ===== src/Details/Carried.antt =====
-- Typed error details on their way through the trailers of a call (grpc-types/src/status_ext.rs,
-- grpc-core/src/status.rs).
use pure_grpc_rs.Base.{◌≤◌, List, some, ◌≡◌, ap, ◌∙◌, All, ok}
use pure_grpc_rs.Base.Words.{Bytes}
use pure_grpc_rs.Code.{Code}
use pure_grpc_rs.Crates.{Crates}
use pure_grpc_rs.Details.{
  Generated, ErrorDetail, IsUnknown, error_details, error_details_of, with_error_details,
  error_details-with_error_details,
}
use pure_grpc_rs.Status.{Status, to_header_map, from_header_map}
use pure_grpc_rs.Status.Wire.{from_header_map-to_header_map}

-- Error details that are put into a status, those of an unknown kind with a type URL of no known
-- kind, come back from the headers that the status is written to, in order, with the code of the
-- status, if its message is text and the encoded details are bytes.
pub error_details-from_header_map :
    (p : Generated) (x : Crates) (code : Code) (message : Bytes) (ds : List (ErrorDetail p))
    → All (IsUnknown p) ds
    → All (λ b. b ≤ 255) message
    → All (λ b. b ≤ 255) (with_error_details p x code message ds).details
    → x.decode_utf8 message ≡ ok message
    → (h : x.Headers) × (s : Status x.Headers) × (to_header_map x
          (with_error_details p x code message ds)
        ≡ ok h)
      × (from_header_map x h ≡ some s)
      × (s.code ≡ code)
      × (error_details p x s ≡ ok ds)
unfolding error_details with_error_details
error_details-from_header_map p x code message ds u m b t =
    let status = with_error_details p x code message ds in
    let (h, s, written, read, same) = from_header_map-to_header_map x status m b t in
    (
      h,
      s,
      written,
      read,
      same.0,
      ap (error_details_of p) same.2 ∙ (error_details-with_error_details p x code message ds u).0,
    )
