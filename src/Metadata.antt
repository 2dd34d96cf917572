-- ===== src/Metadata.antt =====
-- grpc-core/src/metadata.rs: the metadata of a call, a wrapper of `http::HeaderMap`, and the header
-- names that the protocol reserves. `len` and `is_empty` of the wrapper are not modelled.
pub mod Sanitize
use pure_grpc_rs.Base.{
  Bool, true, false, ◌||◌, List, [], ◌∷◌, Option, none, some, String, if◌then◌else◌, is_some,
}
use pure_grpc_rs.Base.Text.{ascii}
use pure_grpc_rs.Base.Words.{Bytes}
use pure_grpc_rs.Crates.{Http}
use text.Mathlib.Text.{◌==◌}

abbrev pub grpc_content_type : Bytes
grpc_content_type = ascii "application/grpc"

abbrev pub grpc_timeout_header : String
grpc_timeout_header = "grpc-timeout"

abbrev pub grpc_reserved_headers : List String
grpc_reserved_headers =
    "te" ∷ "content-type" ∷ "grpc-message" ∷ "grpc-message-type" ∷ "grpc-status"
    ∷ "grpc-status-details-bin" ∷ "grpc-encoding" ∷ "grpc-accept-encoding" ∷ []

-- `[&str]::contains`
abbrev pub contains : List String → String → Bool
contains [] k = false
contains (n ∷ ns) k = n == k || contains ns k

unfoldable pub is_reserved : String → Bool
is_reserved = contains grpc_reserved_headers

pub record MetadataMap (H : Type 0) : Type 0 where
  pub headers : H

module _ (http : Http) where
  open http use {Headers}

  abbrev pub new : MetadataMap Headers
  new = record { headers = http.empty }

  abbrev pub from_headers : Headers → MetadataMap Headers
  from_headers h = record { headers = h }

  abbrev pub into_headers : MetadataMap Headers → Headers
  into_headers m = m.headers

  -- The loop of `into_sanitized_headers`.
  unfoldable pub remove_all : List String → Headers → Headers
  remove_all [] h = h
  remove_all (name ∷ names) h = remove_all names (http.remove name h)

  unfoldable pub into_sanitized_headers : MetadataMap Headers → Headers
  unfolding remove_all
  into_sanitized_headers m = remove_all grpc_reserved_headers m.headers

  -- A loop that copies entries into a map by `insert`, those with a name of the set left out.
  unfoldable pub insert_unless : (String → Bool) → List (String × Bytes) → Headers → Headers
  insert_unless skip [] target = target
  insert_unless skip ((key, value) ∷ rest) target =
      insert_unless skip rest (if skip key then target else http.insert key value target)

  unfoldable pub extend_sanitized_into : MetadataMap Headers → Headers → Headers
  unfolding insert_unless
  extend_sanitized_into m target = insert_unless is_reserved (http.entries m.headers) target

  -- The value that was there before comes first.
  unfoldable pub insert : String → Bytes → MetadataMap Headers → Option Bytes × MetadataMap Headers
  insert key value m =
      (http.get key m.headers, record { headers = http.insert key value m.headers })

  unfoldable pub get : String → MetadataMap Headers → Option Bytes
  get key m = http.get key m.headers

  unfoldable pub remove : String → MetadataMap Headers → Option Bytes × MetadataMap Headers
  remove key m = (http.get key m.headers, record { headers = http.remove key m.headers })

  unfoldable pub contains_key : String → MetadataMap Headers → Bool
  contains_key key m = is_some (http.get key m.headers)

  unfoldable pub merge : MetadataMap Headers → MetadataMap Headers → MetadataMap Headers
  merge m other = record { headers = http.extend m.headers other.headers }
