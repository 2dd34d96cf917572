-- ===== src/Tests/Details.antt =====
-- Error details at concrete inputs, with a plain encoding of `google.rpc.Status`: the elements of
-- each field one higher, and a zero behind it.
use pure_grpc_rs.Base.{ℕ, zero, suc, List, [], ◌∷◌, some, ◌≡◌, refl, ap, ◌∙◌, arith, ok}
use pure_grpc_rs.Base.Int.{ℤ, pos, negsuc}
use pure_grpc_rs.Base.Text.{ascii}
use pure_grpc_rs.Base.Words.{Bytes, same}
use pure_grpc_rs.Code.{Code}
use pure_grpc_rs.Crates.Model.{model_crates, Entries}
use pure_grpc_rs.Details.Carried.{error_details-from_header_map}
use pure_grpc_rs.Details.{
  Any, RpcStatus, Generated, ErrorDetail, typed, unknown, help, arm_of, with_error_details,
  error_details, into_any,
}
use pure_grpc_rs.Status.{Status, to_header_map, from_header_map}

abbrev field : Bytes → Bytes → Bytes
field [] rest = 0 ∷ rest
field (b ∷ f) rest = suc b ∷ field f rest

abbrev push : ℕ → List Bytes → List Bytes
push b [] = (b ∷ []) ∷ []
push b (f ∷ fs) = (b ∷ f) ∷ fs

abbrev fields : Bytes → List Bytes
fields [] = [] ∷ []
fields (zero ∷ bytes) = [] ∷ fields bytes
fields (suc b ∷ bytes) = push b (fields bytes)

fields-field : (f rest : Bytes) → fields (field f rest) ≡ f ∷ fields rest
fields-field [] rest = refl
fields-field (b ∷ f) rest = ap (push b) (fields-field f rest)

abbrev of_code : ℤ → Bytes
of_code (pos n) = n ∷ []
of_code (negsuc n) = n ∷ 0 ∷ []

abbrev to_code : Bytes → ℤ
to_code (n ∷ []) = pos n
to_code (n ∷ (_ ∷ _)) = negsuc n
to_code [] = pos 0

abbrev of_anys : List Any → Bytes
of_anys [] = []
of_anys (any ∷ anys) = field any.type_url (field any.value (of_anys anys))

abbrev to_anys : List Bytes → List Any
to_anys (url ∷ (value ∷ fs)) = record { type_url = url; value = value } ∷ to_anys fs
to_anys _ = []

to_anys-of_anys : (anys : List Any) → to_anys (fields (of_anys anys)) ≡ anys
to_anys-of_anys [] = refl
to_anys-of_anys (any ∷ anys) =
    ap to_anys (
      fields-field any.type_url (field any.value (of_anys anys))
      ∙ ap (◌∷◌ any.type_url) (fields-field any.value (of_anys anys)))
    ∙ ap (◌∷◌ any) (to_anys-of_anys anys)

abbrev write_status : RpcStatus → Bytes
write_status s = field (of_code s.code) (field s.message (of_anys s.details))

abbrev read_fields : List Bytes → RpcStatus
read_fields (code ∷ (message ∷ fs)) = record {
  code = to_code code;
  message = message;
  details = to_anys fs;
}
read_fields _ = record { code = pos 0; message = []; details = [] }

to_code-of_code : (c : ℤ) → to_code (of_code c) ≡ c
to_code-of_code (pos n) = refl
to_code-of_code (negsuc n) = refl

read_fields-write_status : (s : RpcStatus) → read_fields (fields (write_status s)) ≡ s
read_fields-write_status s =
    let rest = field s.message (of_anys s.details) in
    ap read_fields (
      fields-field (of_code s.code) rest
      ∙ ap (◌∷◌ (of_code s.code)) (fields-field s.message (of_anys s.details)))
    ∙ ground (arith, to_code-of_code s.code, to_anys-of_anys s.details)

abbrev plain : Generated
plain = record {
  Value = λ k. Unit;
  encode_to_vec = λ k v. [];
  decode = λ k b. ok tt;
  decode-encode_to_vec = λ k v. refl;
  encode_status = write_status;
  decode_status = λ b. ok (read_fields (fields b));
  decode_status-encode_status = λ s. ap ok (read_fields-write_status s);
  decode_status-nothing = refl;
}

abbrev two_details : List (ErrorDetail plain)
two_details = unknown (record { type_url = ascii "other"; value = 1 ∷ [] }) ∷ typed help tt ∷ []

error_details-from_header_map_example :
    (h : Entries) × (s : Status Entries) × (to_header_map model_crates
        (with_error_details plain model_crates Code.aborted [] two_details)
      ≡ ok h)
    × (from_header_map model_crates h ≡ some s)
    × (s.code ≡ Code.aborted)
    × (error_details plain model_crates s ≡ ok two_details)
unfolding arm_of same with_error_details into_any
error_details-from_header_map_example =
    error_details-from_header_map plain model_crates Code.aborted [] two_details (refl, (tt, tt)) tt
      ground arith refl
