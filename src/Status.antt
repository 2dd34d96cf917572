-- ===== src/Status.antt =====
-- grpc-core/src/status.rs: `Status`, its conversions to and from headers, from I/O errors and error
-- chains, and the status inferred from an HTTP answer. A `Status` keeps its code, message, details
-- and metadata; the `source` error, which is never sent, is left out, and so are `Debug` and
-- `Display`.
pub mod Written
pub mod Wire
pub mod Infer
pub mod Refused
use pure_grpc_rs.Base.{
  ℕ, Bool, true, false, ◌||◌, not, List, [], ◌∷◌, ◌++◌, Option, none, some, String, if◌then◌else◌,
  Result, ok, err, ◌==◌ as eq_ℕ, unwrap_or, ◌>>=◌,
}
use pure_grpc_rs.Base.Text.{ascii, decimal}
use pure_grpc_rs.Base.Words.{Bytes}
use pure_grpc_rs.Code.{Code, from_bytes, to_header_value}
use pure_grpc_rs.Crates.{Crates}
use pure_grpc_rs.Metadata
use pure_grpc_rs.Metadata.{MetadataMap, grpc_content_type}
use text.Mathlib.Text.{◌==◌}

pub record Status (H : Type 0) : Type 0 where
  pub code : Code
  pub message : Bytes
  pub details : Bytes
  pub metadata : MetadataMap H

abbrev pub grpc_status : String
grpc_status = "grpc-status"

abbrev pub grpc_message : String
grpc_message = "grpc-message"

abbrev pub grpc_status_details : String
grpc_status_details = "grpc-status-details-bin"

-- `std::io::ErrorKind`, the kinds that the code names and the rest.
pub data ErrorKind : Type 0 where
  broken_pipe would_block write_zero interrupted connection_refused connection_reset : ErrorKind
  not_connected addr_in_use addr_not_available already_exists connection_aborted : ErrorKind
  invalid_data invalid_input not_found permission_denied timed_out unexpected_eof other : ErrorKind

abbrev pub io_code : ErrorKind → Code
io_code broken_pipe = Code.internal
io_code would_block = Code.internal
io_code write_zero = Code.internal
io_code interrupted = Code.internal
io_code connection_refused = Code.unavailable
io_code connection_reset = Code.unavailable
io_code not_connected = Code.unavailable
io_code addr_in_use = Code.unavailable
io_code addr_not_available = Code.unavailable
io_code ErrorKind.already_exists = Code.already_exists
io_code connection_aborted = Code.aborted
io_code invalid_data = Code.data_loss
io_code invalid_input = Code.invalid_argument
io_code ErrorKind.not_found = Code.not_found
io_code ErrorKind.permission_denied = Code.permission_denied
io_code timed_out = Code.deadline_exceeded
io_code unexpected_eof = Code.out_of_range
io_code other = Code.unknown

-- One error of a chain of sources: what a downcast finds it to be. Texts are `to_string`.
pub data ErrorNode (H : Type 0) : Type 0 where
  status_error : Status H → ErrorNode H
  io_error : ErrorKind → Bytes → ErrorNode H
  other_error : Bytes → ErrorNode H

abbrev pub http_code : ℕ → Option Code
http_code status =
    if eq_ℕ status 400
    then some Code.internal
    else if eq_ℕ status 401
    then some Code.unauthenticated
    else if eq_ℕ status 403
    then some Code.permission_denied
    else if eq_ℕ status 404
    then some Code.not_found
    else if eq_ℕ status 429 || eq_ℕ status 502 || eq_ℕ status 503 || eq_ℕ status 504
    then some Code.unavailable
    else if eq_ℕ status 200
    then none
    else some Code.unknown

abbrev pub is_ok : Code → Bool
is_ok Code.ok = true
is_ok _ = false

-- The bytes that `ENCODING_SET` adds to the controls.
abbrev pub encoded_bytes : List ℕ
encoded_bytes = b' ' ∷ b'"' ∷ b'#' ∷ b'%' ∷ b'<' ∷ b'>' ∷ b'`' ∷ b'?' ∷ b'{' ∷ b'}' ∷ []

module _ (x : Crates) where
  open x use {Headers, http}

  abbrev pub with_details_and_metadata : Code → Bytes → Bytes → MetadataMap Headers → Status Headers
  with_details_and_metadata code message details metadata = record {
    code = code;
    message = message;
    details = details;
    metadata = metadata;
  }

  abbrev pub new : Code → Bytes → Status Headers
  new code message = with_details_and_metadata code message [] (Metadata.new http)

  abbrev pub from_io_error : ErrorKind → Bytes → Status Headers
  from_io_error kind message = new (io_code kind) message

  -- The loop over `source()`.
  unfoldable pub find_status_in_source_chain : List (ErrorNode Headers) → Option (Status Headers)
  find_status_in_source_chain [] = none
  find_status_in_source_chain (status_error s ∷ _) = some (new s.code s.message)
  find_status_in_source_chain (io_error kind message ∷ _) = some (from_io_error kind message)
  find_status_in_source_chain (other_error _ ∷ rest) = find_status_in_source_chain rest

  abbrev error_text : ErrorNode Headers → Bytes
  error_text (status_error s) = s.message
  error_text (io_error kind message) = message
  error_text (other_error message) = message

  -- An error and the chain of its sources.
  unfoldable pub from_error : ErrorNode Headers → List (ErrorNode Headers) → Status Headers
  from_error (status_error s) sources = s
  from_error e sources =
      unwrap_or (find_status_in_source_chain (e ∷ sources)) (new Code.unknown (error_text e))

  unfoldable pub add_all : List ℕ → x.AsciiSet → x.AsciiSet
  add_all [] s = s
  add_all (b ∷ bs) s = add_all bs (x.add s b)

  -- The set of bytes that `grpc-message` encodes.
  unfoldable pub encoding_set : x.AsciiSet
  unfolding add_all
  encoding_set = add_all encoded_bytes x.controls

  -- The bytes of an optional header value, percent-decoded and read as UTF-8.
  unfoldable pub error_message : Option Bytes → Result Bytes Bytes
  error_message none = ok []
  error_message (some header) = x.decode_utf8 (x.percent_decode header)

  unfoldable pub error_details : Option Bytes → Option Bytes
  error_details none = some []
  error_details (some header) = x.decode header

  unfoldable pub is_status_header : String → Bool
  is_status_header key = key == grpc_status || key == grpc_message || key == grpc_status_details

  abbrev message_or_note : Result Bytes Bytes → Bytes
  message_or_note (ok message) = message
  message_or_note (err e) = ascii "Error deserializing status message header: " ++ e

  unfoldable pub from_header_map : Headers → Option (Status Headers)
  unfolding error_message error_details
  from_header_map header_map = elim (http.get grpc_status header_map) [
    | none ↦ none
    | some code ↦ elim (error_details (http.get grpc_status_details header_map)) [
      | none ↦ some (new Code.internal (ascii "invalid base64 in grpc-status-details-bin header"))
      | some details ↦ some (
          with_details_and_metadata (from_bytes code)
            (message_or_note (error_message (http.get grpc_message header_map))) details
            (Metadata.from_headers http
              (Metadata.insert_unless http is_status_header (http.entries header_map) http.empty)))
    ]
  ]

  -- `HeaderMap::insert` of an encoded value, or the error at a value that is refused.
  unfoldable pub insert_checked :
      String → Bytes → Bytes → Headers → Headers × Result (Status Headers) (Unit {0})
  insert_checked key value note header_map =
      if x.accepts value
      then (http.insert key value header_map, ok tt)
      else (header_map, err (new Code.internal note))

  unfoldable pub add_message : Bytes → Headers → Headers × Result (Status Headers) (Unit {0})
  unfolding insert_checked
  add_message [] header_map = (header_map, ok tt)
  add_message (b ∷ bs) header_map =
      insert_checked grpc_message (x.percent_encode encoding_set (b ∷ bs))
        (ascii "invalid grpc-message header value") header_map

  unfoldable pub add_details : Bytes → Headers → Headers × Result (Status Headers) (Unit {0})
  unfolding insert_checked
  add_details [] header_map = (header_map, ok tt)
  add_details (b ∷ bs) header_map =
      insert_checked grpc_status_details (x.encode_no_pad (b ∷ bs))
        (ascii "invalid grpc-status-details-bin value") header_map

  -- The map as it is written, also where a value is refused.
  unfoldable pub add_header :
      Status Headers → Headers → Headers × Result (Status Headers) (Unit {0})
  unfolding add_message add_details
  add_header s header_map =
      let h = Metadata.extend_sanitized_into http s.metadata header_map in
      let (h', added) =
        add_message s.message (http.insert grpc_status (to_header_value s.code) h) in
      elim added [ ok _ ↦ add_details s.details h' | err e ↦ (h', err e) ]

  unfoldable pub to_header_map : Status Headers → Result (Status Headers) Headers
  to_header_map s =
      let (h, added) = add_header s http.empty in elim added [ ok _ ↦ ok h | err e ↦ err e ]

  -- The headers of the trailers-only response; its status is 200 and its body is empty.
  unfoldable pub into_http : Status Headers → Headers
  into_http s =
      let (h, added) = add_header s (http.insert "content-type" grpc_content_type http.empty) in
      elim added [
        | ok _ ↦ h
        | err fallback ↦ http.insert grpc_status (to_header_value fallback.code) h
      ]

  unfoldable pub infer_from_http : ℕ → Result (Option (Status Headers)) (Unit {0})
  infer_from_http status = elim (http_code status) [
    | none ↦ err none
    | some code ↦ err (
        some (
          new code
            (ascii "grpc-status header missing, mapped from HTTP status code " ++ decimal status)))
  ]

  -- `Err(None)` is an HTTP success without a status.
  unfoldable pub infer_grpc_status :
      Option Headers → ℕ → Result (Option (Status Headers)) (Unit {0})
  unfolding infer_from_http
  infer_grpc_status none status = infer_from_http status
  infer_grpc_status (some trailers) status = elim (from_header_map trailers) [
    | none ↦ infer_from_http status
    | some s ↦ if is_ok s.code then ok tt else err (some s)
  ]
