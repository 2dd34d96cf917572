-- ===== src/Status/Infer.antt =====
-- The outcome that a client infers at the end of a response (status.rs, `infer_grpc_status`), and
-- the status found in a chain of errors (`from_error`).
use pure_grpc_rs.Base.{
  ℕ, ◌≤◌, List, [], ◌∷◌, ◌++◌, map, none, some, ◌≡◌, ◌↔◌, refl, arith, if◌then◌else◌, ok, err, All,
}
use pure_grpc_rs.Base.Words.{Bytes}
use pure_grpc_rs.Code.{Code}
use pure_grpc_rs.Crates.{Crates}
use pure_grpc_rs.Status.Wire.{SameStatus, from_header_map-to_header_map}
use pure_grpc_rs.Status.{
  Status, ErrorKind, io_code, ErrorNode, status_error, io_error, other_error, to_header_map,
  infer_grpc_status, infer_from_http, is_ok, find_status_in_source_chain, from_error, new,
}

module _ (x : Crates) where
  open x use {Headers, http}

  -- Without trailers, the outcome is the error without a status just when the HTTP status is 200.
  pub infer_grpc_status-missing :
      (status : ℕ) → (infer_grpc_status x none status ≡ err none) ↔ (status ≡ 200)
  unfolding infer_grpc_status infer_from_http
  infer_grpc_status-missing status = ground arith

  -- From the headers of a status whose message is text and whose details are bytes, a client
  -- infers success if the code of the status is OK, and otherwise an error with a status of the
  -- same code, message and details and the metadata that is not reserved, whatever the HTTP
  -- status.
  pub infer_grpc_status-to_header_map :
      (s : Status Headers) (status : ℕ)
      → All (λ b. b ≤ 255) s.message
      → All (λ b. b ≤ 255) s.details
      → x.decode_utf8 s.message ≡ ok s.message
      → (h : Headers) × (s' : Status Headers) × (to_header_map x s ≡ ok h)
        × SameStatus x s s'
        × (infer_grpc_status x (some h) status ≡ (if is_ok s.code then ok tt else err (some s')))
  unfolding infer_grpc_status
  infer_grpc_status-to_header_map s status m d u =
      let (h, s', sent, got, same) = from_header_map-to_header_map x s m d u in
      (h, s', sent, same, ground (arith, got, same.0))

  find-others :
      (ts : List Bytes) (es : List (ErrorNode Headers))
      → find_status_in_source_chain x (map other_error ts ++ es) ≡ find_status_in_source_chain x es
  unfolding find_status_in_source_chain
  find-others [] es = refl
  find-others (t ∷ ts) es = find-others ts es

  find-only_others : (ts : List Bytes) → find_status_in_source_chain x (map other_error ts) ≡ none
  unfolding find_status_in_source_chain
  find-only_others [] = refl
  find-only_others (t ∷ ts) = find-only_others ts

  -- For an error behind whose wrappers stands a status, the result has this status's code and
  -- message; for one behind whose wrappers stands an I/O error, the result has the code of its
  -- kind and its text; for one with neither, the result has the code Unknown and the text of the
  -- outermost error.
  pub from_error-wrapped :
      (t : Bytes) (ts : List Bytes) (s : Status Headers) (kind : ErrorKind) (m : Bytes)
      (rest : List (ErrorNode Headers))
      → (from_error x (other_error t) (map other_error ts ++ (status_error s ∷ rest))
          ≡ new x s.code s.message)
        × (from_error x (other_error t) (map other_error ts ++ (io_error kind m ∷ rest))
            ≡ new x (io_code kind) m)
        × (from_error x (other_error t) (map other_error ts) ≡ new x Code.unknown t)
  unfolding from_error find_status_in_source_chain
  from_error-wrapped t ts s kind m rest = (
    rw (find-others ts (status_error s ∷ rest)),
    rw (find-others ts (io_error kind m ∷ rest)),
    rw (find-only_others ts),
  )
