-- ===== src/Details.antt =====
-- grpc-types/src/any_ext.rs and status_ext.rs: typed error details in a status. The generated types
-- of google.rpc and their prost encodings are parameters.
pub mod Carried
use pure_grpc_rs.Base.{
  List, [], ◌∷◌, map, Option, none, some, String, ◌≡◌, refl, sym, ap, ◌∙◌, arith, All, Result, ok,
  err, ◌>>=◌, if◌then◌else◌,
}
use pure_grpc_rs.Base.Text.{ascii}
use pure_grpc_rs.Base.Int.{ℤ, pos}
use pure_grpc_rs.Base.Words.{Bytes, same}
use pure_grpc_rs.Code.{Code, code_to_i32}
use pure_grpc_rs.Crates.{Crates}
use pure_grpc_rs.Metadata
use pure_grpc_rs.Status.{Status, with_details_and_metadata}

-- The variants of `ErrorDetail` that have a type.
pub data Kind : Type 0 where
  error_info retry_info debug_info quota_failure precondition_failure bad_request : Kind
  request_info resource_info help localized_message : Kind

-- `TYPE_URL`
abbrev pub type_url : Kind → Bytes
type_url error_info = ascii "type.googleapis.com/google.rpc.ErrorInfo"
type_url retry_info = ascii "type.googleapis.com/google.rpc.RetryInfo"
type_url debug_info = ascii "type.googleapis.com/google.rpc.DebugInfo"
type_url quota_failure = ascii "type.googleapis.com/google.rpc.QuotaFailure"
type_url precondition_failure = ascii "type.googleapis.com/google.rpc.PreconditionFailure"
type_url bad_request = ascii "type.googleapis.com/google.rpc.BadRequest"
type_url request_info = ascii "type.googleapis.com/google.rpc.RequestInfo"
type_url resource_info = ascii "type.googleapis.com/google.rpc.ResourceInfo"
type_url help = ascii "type.googleapis.com/google.rpc.Help"
type_url localized_message = ascii "type.googleapis.com/google.rpc.LocalizedMessage"

-- The order of the arms of `decode_any`.
abbrev pub kinds : List Kind
kinds =
    error_info ∷ retry_info ∷ debug_info ∷ quota_failure ∷ precondition_failure ∷ bad_request
    ∷ request_info ∷ resource_info ∷ help ∷ localized_message ∷ []

abbrev first_of : Bytes → List Kind → Option Kind
first_of url [] = none
first_of url (k ∷ ks) = if same url (type_url k) then some k else first_of url ks

-- The arm that a type URL takes.
unfoldable pub arm_of : Bytes → Option Kind
arm_of url = first_of url kinds

-- `prost_types::Any`
pub record Any : Type 0 where
  pub type_url : Bytes
  pub value : Bytes

-- `google::rpc::Status`
pub record RpcStatus : Type 0 where
  pub code : ℤ
  pub message : Bytes
  pub details : List Any

-- The generated types. Nothing encodes the default of a message, and nothing else does.
pub record Generated : Type 1 where
  pub Value : Kind → Type 0
  pub encode_to_vec : (k : Kind) → Value k → Bytes
  pub decode : (k : Kind) → Bytes → Result Bytes (Value k)
  pub decode-encode_to_vec : (k : Kind) (v : Value k) → decode k (encode_to_vec k v) ≡ ok v
  pub encode_status : RpcStatus → Bytes
  pub decode_status : Bytes → Result Bytes RpcStatus
  pub decode_status-encode_status : (s : RpcStatus) → decode_status (encode_status s) ≡ ok s
  pub decode_status-nothing :
      decode_status [] ≡ ok (record { code = pos 0; message = []; details = [] })

module _ (p : Generated) where
  pub data ErrorDetail : Type 0 where
    typed : (k : Kind) → p.Value k → ErrorDetail
    unknown : Any → ErrorDetail

  unfoldable pub into_any : ErrorDetail → Any
  into_any (typed k v) = record { type_url = type_url k; value = p.encode_to_vec k v }
  into_any (unknown any) = any

  abbrev typed_of : (k : Kind) → Result Bytes (p.Value k) → Result Bytes ErrorDetail
  typed_of k (ok v) = ok (typed k v)
  typed_of k (err e) = err e

  unfoldable pub decode_any : Any → Result Bytes ErrorDetail
  unfolding arm_of
  decode_any any = elim (arm_of any.type_url) [
    | some k ↦ typed_of k (p.decode k any.value)
    | none ↦ ok (unknown any)
  ]

  -- `iter().map(decode_any).collect()`
  unfoldable pub decode_all : List Any → Result Bytes (List ErrorDetail)
  unfolding decode_any
  decode_all [] = ok []
  decode_all (any ∷ anys) = do d ← decode_any any; ds ← decode_all anys; ok (d ∷ ds)

  unfoldable pub error_details_of : Bytes → Result Bytes (List ErrorDetail)
  unfolding decode_all
  error_details_of [] = ok []
  error_details_of (b ∷ bytes) = do
    rpc_status ← p.decode_status (b ∷ bytes)
    decode_all rpc_status.details

  abbrev pub packed : Code → Bytes → List ErrorDetail → RpcStatus
  packed code message details = record {
    code = code_to_i32 code;
    message = message;
    details = map into_any details;
  }

  -- The arm of `get_details_*` for a variant.
  unfoldable pub value_of : (k : Kind) → ErrorDetail → Option (p.Value k)
  value_of error_info (typed error_info v) = some v
  value_of retry_info (typed retry_info v) = some v
  value_of debug_info (typed debug_info v) = some v
  value_of quota_failure (typed quota_failure v) = some v
  value_of precondition_failure (typed precondition_failure v) = some v
  value_of bad_request (typed bad_request v) = some v
  value_of request_info (typed request_info v) = some v
  value_of resource_info (typed resource_info v) = some v
  value_of help (typed help v) = some v
  value_of localized_message (typed localized_message v) = some v
  value_of _ _ = none

  -- `Iterator::find_map`
  abbrev pub find_map : (k : Kind) → List ErrorDetail → Option (p.Value k)
  find_map k [] = none
  find_map k (d ∷ ds) = elim (value_of k d) [ some v ↦ some v | none ↦ find_map k ds ]

  module _ (x : Crates) where
    open x use {Headers, http}

    unfoldable pub with_error_details : Code → Bytes → List ErrorDetail → Status Headers
    with_error_details code message details =
        with_details_and_metadata x code message (p.encode_status (packed code message details))
          (Metadata.new http)

    unfoldable pub error_details : Status Headers → Result Bytes (List ErrorDetail)
    unfolding error_details_of
    error_details status = error_details_of status.details

    abbrev found : (k : Kind) → Result Bytes (List ErrorDetail) → Option (p.Value k)
    found k (ok ds) = find_map k ds
    found k (err e) = none

    -- `get_details_error_info` and the others
    unfoldable pub get_details : (k : Kind) → Status Headers → Option (p.Value k)
    unfolding error_details
    get_details k status = found k (error_details status)

  -- The arm of each type URL is its own.
  arm_of-type_url : (k : Kind) → arm_of (type_url k) ≡ some k
  unfolding arm_of same
  arm_of-type_url error_info = refl
  arm_of-type_url retry_info = refl
  arm_of-type_url debug_info = refl
  arm_of-type_url quota_failure = refl
  arm_of-type_url precondition_failure = refl
  arm_of-type_url bad_request = refl
  arm_of-type_url request_info = refl
  arm_of-type_url resource_info = refl
  arm_of-type_url help = refl
  arm_of-type_url localized_message = refl

  -- What is unknown has a type URL of no known type.
  abbrev pub IsUnknown : ErrorDetail → Type 0
  IsUnknown (typed k v) = Unit
  IsUnknown (unknown any) = arm_of any.type_url ≡ none

  decode_any-into_any : (d : ErrorDetail) → IsUnknown d → decode_any (into_any d) ≡ ok d
  unfolding decode_any into_any
  decode_any-into_any (typed k v) u =
      rw (arm_of-type_url k, decode_any) (ap (typed_of k) (p.decode-encode_to_vec k v))
  decode_any-into_any (unknown any) u = rw (u, decode_any) refl

  decode_all-into_any :
      (ds : List ErrorDetail) → All IsUnknown ds → decode_all (map into_any ds) ≡ ok ds
  unfolding decode_all
  decode_all-into_any [] u = refl
  decode_all-into_any (d ∷ ds) (u, us) =
      rw (decode_any-into_any d u, decode_all-into_any ds us) refl

  error_details_of-packed :
      (s : RpcStatus) (bytes : Bytes)
      → p.encode_status s ≡ bytes
      → error_details_of bytes ≡ decode_all s.details
  unfolding error_details_of
  error_details_of-packed s [] e =
      let d : p.decode_status [] ≡ ok s =
        ap p.decode_status (sym e) ∙ p.decode_status-encode_status s in
      let nothing : s.details ≡ [] = ground (arith, d, p.decode_status-nothing) in
      sym (ap decode_all nothing)
  error_details_of-packed s (b ∷ bytes) e =
      let d : p.decode_status (b ∷ bytes) ≡ ok s =
        ap p.decode_status (sym e) ∙ p.decode_status-encode_status s in
      ground (arith, d)

  pub error_details-with_error_details :
      (x : Crates) (code : Code) (message : Bytes) (ds : List ErrorDetail)
      → All IsUnknown ds
      → let status = with_error_details x code message ds in
        (error_details x status ≡ ok ds) × (status.code ≡ code) × (status.message ≡ message)
  unfolding with_error_details error_details
  error_details-with_error_details x code message ds u =
      let s = packed code message ds in
      (error_details_of-packed s (p.encode_status s) refl ∙ decode_all-into_any ds u, refl, refl)

  pub get_details-with_error_details :
      (x : Crates) (code : Code) (message : Bytes) (ds : List ErrorDetail) (k : Kind)
      → All IsUnknown ds
      → get_details x k (with_error_details x code message ds) ≡ find_map k ds
  unfolding get_details
  get_details-with_error_details x code message ds k u =
      ap (found x k) (error_details-with_error_details x code message ds u).0
