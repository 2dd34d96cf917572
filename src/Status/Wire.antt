-- ===== src/Status/Wire.antt =====
-- A status written into headers and read back (status.rs, `add_header`, `to_header_map`,
-- `from_header_map`, `into_http`).
use pure_grpc_rs.Base.{
  ◌≤◌, false, [], ◌∷◌, none, some, String, ◌≡◌, refl, arith, if◌then◌else◌, ok, All,
}
use pure_grpc_rs.Base.Words.{Bytes}
use pure_grpc_rs.Code.Laws.{from_bytes-to_header_value}
use pure_grpc_rs.Crates.{Crates}
use pure_grpc_rs.Metadata
use pure_grpc_rs.Metadata.{MetadataMap, is_reserved, grpc_content_type}
use pure_grpc_rs.Metadata.Sanitize.{get-insert_unless, last_value, last_value-first_value}
use pure_grpc_rs.Status.Written.{
  field, encoded_message, percent-in-encoding_set, written, add_header-ok, get-written_status,
  get-written_message, get-written_details, get-written_other, written-IsSingle,
}
use pure_grpc_rs.Status.{
  Status, error_message, error_details, is_status_header, with_details_and_metadata, encoding_set,
  to_header_map, from_header_map, grpc_status, grpc_message, grpc_status_details,
}
use text.Mathlib.TextEquality.{eq_iff}

module _ (x : Crates) where
  open x use {Headers, http}

  -- The status that is read back.
  received : Status Headers → Status Headers
  received s = with_details_and_metadata x s.code s.message s.details (
      Metadata.from_headers http (
        Metadata.insert_unless http (is_status_header x) (http.entries (written x s http.empty))
          http.empty))

  pub error_message-field :
      (m : Bytes)
      → All (λ b. b ≤ 255) m
      → x.decode_utf8 m ≡ ok m
      → error_message x (field x (encoded_message x) m) ≡ ok m
  unfolding error_message encoded_message
  error_message-field [] a u = refl
  error_message-field (b ∷ bs) a u =
      rw (x.percent_decode-percent_encode (encoding_set x) (b ∷ bs) (percent-in-encoding_set x) a) u

  pub error_details-field :
      (d : Bytes) → All (λ b. b ≤ 255) d → error_details x (field x x.encode_no_pad d) ≡ some d
  unfolding error_details
  error_details-field [] a = refl
  error_details-field (b ∷ bs) a = x.decode-encode_no_pad (b ∷ bs) a

  from_header_map-written :
      (s : Status Headers)
      → All (λ b. b ≤ 255) s.message
      → All (λ b. b ≤ 255) s.details
      → x.decode_utf8 s.message ≡ ok s.message
      → from_header_map x (written x s http.empty) ≡ some (received s)
  unfolding from_header_map received
  from_header_map-written s m d u = ground (
    arith,
    get-written_status x s http.empty,
    get-written_message x s http.empty,
    get-written_details x s http.empty,
    http.get-empty grpc_message,
    http.get-empty grpc_status_details,
    error_message-field s.message m u,
    error_details-field s.details d,
    from_bytes-to_header_value s.code,
  )

  status_header-is_reserved : (k : String) → is_reserved k ≡ false → is_status_header x k ≡ false
  unfolding is_status_header is_reserved
  status_header-is_reserved k h = ground (
    arith,
    eq_iff k grpc_status,
    eq_iff grpc_status k,
    eq_iff k grpc_message,
    eq_iff grpc_message k,
    eq_iff k grpc_status_details,
    eq_iff grpc_status_details k,
  )

  -- What a status keeps on its way: its code, message and details, and of its metadata the last
  -- value of each name that the protocol does not reserve.
  abbrev pub SameStatus : Status Headers → Status Headers → Type 0
  SameStatus s s' =
      (s'.code ≡ s.code)
      × (s'.message ≡ s.message)
      × (s'.details ≡ s.details)
      × ((k : String)
          → http.get k s'.metadata.headers
            ≡ (if is_reserved k then none else last_value k (http.entries s.metadata.headers) none))

  get-written_last :
      (s : Status Headers) (k : String)
      → http.get k (written x s http.empty)
        ≡ last_value k (http.entries (written x s http.empty)) none
  get-written_last s k =
      let h = written x s http.empty in
      ground (
        arith,
        http.get-entries k h,
        last_value-first_value k (http.entries h) none (written-IsSingle x s k),
      )

  received-metadata :
      (s : Status Headers) (k : String)
      → http.get k (received s).metadata.headers
        ≡ (if is_reserved k then none else last_value k (http.entries s.metadata.headers) none)
  unfolding received
  received-metadata s k =
      let h = written x s http.empty in
      ground (
        arith,
        get-insert_unless http (is_status_header x) (http.entries h) k http.empty,
        http.get-empty k,
        get-written_last s k,
        get-written_other x s http.empty k,
        status_header-is_reserved k,
      )

  received-SameStatus : (s : Status Headers) → SameStatus s (received s)
  unfolding received
  received-SameStatus s = (refl, refl, refl, received-metadata s)

  -- A status whose message is text and whose details are bytes is written to headers without an
  -- error, and reading these headers gives a status with the same code, message and details, and
  -- with the last value of each name of the metadata that is not reserved, and no value of a
  -- reserved name.
  pub from_header_map-to_header_map :
      (s : Status Headers)
      → All (λ b. b ≤ 255) s.message
      → All (λ b. b ≤ 255) s.details
      → x.decode_utf8 s.message ≡ ok s.message
      → (h : Headers) × (s' : Status Headers) × (to_header_map x s ≡ ok h)
        × (from_header_map x h ≡ some s')
        × SameStatus s s'
  unfolding to_header_map
  from_header_map-to_header_map s m d u = (
    written x s http.empty,
    received s,
    ground (arith, add_header-ok x s http.empty m d),
    from_header_map-written s m d u,
    received-SameStatus s,
  )
