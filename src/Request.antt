-- ===== src/Request.antt =====
-- grpc-core/src/request.rs and grpc-core/src/response.rs: a request and a response with their
-- metadata, their conversions from and to the types of the `http` crate, and the timeout of a call.
-- `E` is the type of `http::Extensions`. Accessors are the fields.
pub mod Timeout
pub mod Carried
use pure_grpc_rs.Base.{
  ℕ, ◌+◌, ◌*◌, ◌/◌, Bool, true, false, ◌&&◌, ◌||◌, List, [], ◌∷◌, ◌++◌, Option, none, some,
  if◌then◌else◌, or_else, ltb, ◌==◌, String,
}
use pure_grpc_rs.Base.Text.{decimal}
use pure_grpc_rs.Base.Words.{Bytes}
use pure_grpc_rs.Crates.{Http}
use pure_grpc_rs.Metadata
use pure_grpc_rs.Metadata.{MetadataMap, grpc_timeout_header, into_sanitized_headers}

-- `http::Request` and `http::Response`.
pub record HttpRequest (H E T : Type 0) : Type 0 where
  pub method : String
  pub uri : String
  pub version : String
  pub headers : H
  pub extensions : E
  pub body : T

pub record HttpResponse (H E T : Type 0) : Type 0 where
  pub status : ℕ
  pub version : String
  pub headers : H
  pub extensions : E
  pub body : T

pub record Request (H E T : Type 0) : Type 0 where
  pub metadata : MetadataMap H
  pub message : T
  pub extensions : E

pub record Response (H E T : Type 0) : Type 0 where
  pub metadata : MetadataMap H
  pub message : T
  pub extensions : E

-- `std::time::Duration`
pub record Duration : Type 0 where
  pub secs : ℕ
  pub nanos : ℕ

abbrev pub as_nanos : Duration → ℕ
as_nanos d = d.secs * 1000000000 + d.nanos

abbrev pub as_micros : Duration → ℕ
as_micros d = d.secs * 1000000 + d.nanos / 1000

abbrev pub as_millis : Duration → ℕ
as_millis d = d.secs * 1000 + d.nanos / 1000000

abbrev pub longer : Duration → Duration → Bool
longer a b = ltb b.secs a.secs || ((a.secs == b.secs) && ltb b.nanos a.nanos)

abbrev pub max_duration : Duration
max_duration = record { secs = 99999999 * 3600; nanos = 0 }

abbrev pub clamp : Duration → Duration
clamp d = if longer d max_duration then max_duration else d

unfoldable pub try_format : ℕ → ℕ → Option Bytes
try_format value unit = if ltb 99999999 value then none else some (decimal value ++ (unit ∷ []))

-- `none` stands for the panic of `expect`.
unfoldable pub duration_to_grpc_timeout : Duration → Option Bytes
duration_to_grpc_timeout duration =
    let d = clamp duration in
    or_else (try_format (as_nanos d) b'n') (
      or_else (try_format (as_micros d) b'u') (
        or_else (try_format (as_millis d) b'm') (
          or_else (try_format d.secs b'S')
            (or_else (try_format (d.secs / 60) b'M') (try_format (d.secs / 60 / 60) b'H')))))

module _ (http : Http) {E T : Type 0} where
  open http use {Headers}

  unfoldable pub from_http : HttpRequest Headers E T → Request Headers E T
  from_http r = record {
    metadata = record { headers = r.headers };
    message = r.body;
    extensions = r.extensions;
  }

  unfoldable pub from_http_parts : {B : Type 0} → HttpRequest Headers E B → T → Request Headers E T
  from_http_parts parts message = record {
    metadata = record { headers = parts.headers };
    message = message;
    extensions = parts.extensions;
  }

  unfoldable pub into_http :
      Request Headers E T → String → String → String → Bool → HttpRequest Headers E T
  into_http r uri method version sanitize = record {
    method = method;
    uri = uri;
    version = version;
    headers = if sanitize then into_sanitized_headers http r.metadata else r.metadata.headers;
    extensions = r.extensions;
    body = r.message;
  }

  unfoldable pub set_timeout : Request Headers E T → Duration → Option (Request Headers E T)
  set_timeout r deadline = elim (duration_to_grpc_timeout deadline) [
    | none ↦ none
    | some value ↦
        some (record r { metadata = (Metadata.insert http grpc_timeout_header value r.metadata).1 })
  ]

  unfoldable pub response_from_http : HttpResponse Headers E T → Response Headers E T
  response_from_http r = record {
    metadata = record { headers = r.headers };
    message = r.body;
    extensions = r.extensions;
  }

  unfoldable pub response_into_http : Response Headers E T → HttpResponse Headers E T
  response_into_http r = record {
    status = 200;
    version = "HTTP/2.0";
    headers = into_sanitized_headers http r.metadata;
    extensions = r.extensions;
    body = r.message;
  }
