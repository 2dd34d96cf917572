-- ===== src/Codegen.antt =====
-- grpc-codegen/src/protobuf.rs: from the service descriptors of a proto file to the definitions
-- that the generators read. `StreamingType` and its `From` are of the crate codegen-schema.
pub mod Flat
pub mod Ir
use pure_grpc_rs.Base.{
  ℕ, sym, append-nil, append_assoc, Bool, false, List, [], ◌∷◌, ◌++◌, Option, none, some, ◌≡◌, ◌≢◌,
  refl, ap, arith, Result, ok, err, ◌>>=◌, unwrap_or, if◌then◌else◌, ◌==◌, All, map,
}
use pure_grpc_rs.Base.Text.{ascii}
use pure_grpc_rs.Base.Words.{Bytes}

pub record MethodDescriptorProto : Type 0 where
  pub name : Option Bytes
  pub input_type : Option Bytes
  pub output_type : Option Bytes
  pub client_streaming : Option Bool
  pub server_streaming : Option Bool

pub record ServiceDescriptorProto : Type 0 where
  pub name : Option Bytes
  pub method : List MethodDescriptorProto

pub record MethodDef (StreamingType : Type 0) : Type 0 where
  pub name : Bytes
  pub rust_name : Option Bytes
  pub input_type : Bytes
  pub output_type : Bytes
  pub streaming : StreamingType
  pub codec_path : Bytes
  pub comments : List Bytes

pub record ServiceDef (StreamingType : Type 0) : Type 0 where
  pub name : Bytes
  pub package_name : Option Bytes
  pub methods : List (MethodDef StreamingType)
  pub comments : List Bytes

abbrev pub default_codec_path : Bytes
default_codec_path = ascii "grpc_core::codec::prost_codec::ProstCodec"

-- `as_deref`, `filter` and `ok_or` of a field.
unfoldable pub required : Bytes → Option Bytes → Result Bytes Bytes
required missing none = err missing
required missing (some []) = err missing
required missing (some (b ∷ text)) = ok (b ∷ text)

-- `str::strip_prefix` of a dot.
unfoldable pub strip_dot : Bytes → Bytes
strip_dot [] = []
strip_dot (b ∷ text) = if b == b'.' then text else b ∷ text

-- The first piece of `rsplit('.')`, behind the piece that has been read.
unfoldable pub last_segment : Bytes → Bytes → Bytes
last_segment segment [] = segment
last_segment segment (b ∷ text) = last_segment (if b == b'.' then [] else segment ++ (b ∷ [])) text

unfoldable pub resolve_type : Bytes → Bytes → Bytes
unfolding strip_dot last_segment
resolve_type proto_type proto_path =
    proto_path ++ (ascii "::" ++ last_segment [] (strip_dot proto_type))

abbrev pub missing_from : Bytes → Bytes → Bytes
missing_from proto_name what =
    ascii "method `" ++ (proto_name ++ (ascii "` is missing an " ++ what))

module _ {StreamingType : Type 0} (streaming_from : Bool → Bool → StreamingType) where
  unfoldable pub method_from_proto :
      Bytes → MethodDescriptorProto → Result Bytes (MethodDef StreamingType)
  unfolding required resolve_type
  method_from_proto proto_path proto = do
    proto_name ← required (ascii "method descriptor is missing a name") proto.name
    input_type ← required (missing_from proto_name (ascii "input_type")) proto.input_type
    output_type ← required (missing_from proto_name (ascii "output_type")) proto.output_type
    ok (record {
      name = proto_name;
      rust_name = none;
      input_type = resolve_type input_type proto_path;
      output_type = resolve_type output_type proto_path;
      streaming =
          streaming_from (unwrap_or proto.client_streaming false)
            (unwrap_or proto.server_streaming false);
      codec_path = default_codec_path;
      comments = [];
    })

  unfoldable pub methods_from_proto :
      Bytes → List MethodDescriptorProto → Result Bytes (List (MethodDef StreamingType))
  unfolding method_from_proto
  methods_from_proto proto_path [] = ok []
  methods_from_proto proto_path (proto ∷ protos) = do
    method ← method_from_proto proto_path proto
    methods ← methods_from_proto proto_path protos
    ok (method ∷ methods)

  unfoldable pub service_from_proto :
      ServiceDescriptorProto → Bytes → Bytes → Result Bytes (ServiceDef StreamingType)
  unfolding required methods_from_proto
  service_from_proto proto package_name proto_path = do
    name ← required (ascii "service descriptor is missing a name") proto.name
    methods ← methods_from_proto proto_path proto.method
    ok (record { name = name; package_name = some package_name; methods = methods; comments = [] })

-- A descriptor that has its fields: none of them is empty.
pub record Complete : Type 0 where
  pub name : ℕ × Bytes
  pub input_type : ℕ × Bytes
  pub output_type : ℕ × Bytes
  pub client_streaming : Option Bool
  pub server_streaming : Option Bool

abbrev pub text_of : ℕ × Bytes → Bytes
text_of (b, text) = b ∷ text

abbrev pub descriptor : Complete → MethodDescriptorProto
descriptor c = record {
  name = some (text_of c.name);
  input_type = some (text_of c.input_type);
  output_type = some (text_of c.output_type);
  client_streaming = c.client_streaming;
  server_streaming = c.server_streaming;
}

segment_of_name :
    (segment name : Bytes) → All (λ b. b ≢ b'.') name → last_segment segment name ≡ segment ++ name
unfolding last_segment
segment_of_name segment [] p = sym (append-nil segment)
segment_of_name segment (b ∷ name) p =
    ground (
      arith,
      p.0,
      segment_of_name (segment ++ (b ∷ [])) name p.1,
      append_assoc segment (b ∷ []) name,
    )

segment_behind_dot :
    (segment scope name : Bytes)
    → All (λ b. b ≢ b'.') name
    → last_segment segment (scope ++ (b'.' ∷ name)) ≡ name
unfolding last_segment
segment_behind_dot segment [] name p = segment_of_name [] name p
segment_behind_dot segment (b ∷ scope) name p =
    segment_behind_dot (if b == b'.' then [] else segment ++ (b ∷ [])) scope name p

-- A type is found by its name alone: whatever the package and the enclosing messages in front of
-- it, a name without a dot becomes that name in the module of the types.
pub resolve_type-name :
    (scope name proto_path : Bytes)
    → All (λ b. b ≢ b'.') name
    → (resolve_type (b'.' ∷ (scope ++ (b'.' ∷ name))) proto_path
        ≡ proto_path ++ (ascii "::" ++ name))
      × (resolve_type (b'.' ∷ name) proto_path ≡ proto_path ++ (ascii "::" ++ name))
unfolding resolve_type strip_dot
resolve_type-name scope name proto_path p = (
  ap (λ t. proto_path ++ (ascii "::" ++ t)) (segment_behind_dot [] scope name p),
  ap (λ t. proto_path ++ (ascii "::" ++ t)) (segment_of_name [] name p),
)

module _ {StreamingType : Type 0} (streaming_from : Bool → Bool → StreamingType) where
  abbrev pub adapted : Bytes → Complete → MethodDef StreamingType
  adapted proto_path c = record {
    name = text_of c.name;
    rust_name = none;
    input_type = resolve_type (text_of c.input_type) proto_path;
    output_type = resolve_type (text_of c.output_type) proto_path;
    streaming =
        streaming_from (unwrap_or c.client_streaming false) (unwrap_or c.server_streaming false);
    codec_path = default_codec_path;
    comments = [];
  }

  methods_of_all :
      (proto_path : Bytes) (cs : List Complete)
      → methods_from_proto streaming_from proto_path (map descriptor cs)
        ≡ ok (map (adapted proto_path) cs)
  unfolding methods_from_proto method_from_proto required
  methods_of_all proto_path [] = refl
  methods_of_all proto_path (c ∷ cs) = rw (methods_of_all proto_path cs) refl

  methods_stop :
      (proto_path failure : Bytes) (cs : List Complete) (proto : MethodDescriptorProto)
      (protos : List MethodDescriptorProto)
      → method_from_proto streaming_from proto_path proto ≡ err failure
      → methods_from_proto streaming_from proto_path (map descriptor cs ++ (proto ∷ protos))
        ≡ err failure
  unfolding methods_from_proto method_from_proto required
  methods_stop proto_path failure [] proto protos e = rw e refl
  methods_stop proto_path failure (c ∷ cs) proto protos e =
      rw (methods_stop proto_path failure cs proto protos e) refl

  -- A service with a name, all of whose methods have a name and their two types, is adapted: its
  -- methods are those of the descriptor in their order. If a method that cannot be adapted comes
  -- after such methods, its error is that of the whole service, whatever comes behind it.
  pub service_from_proto-methods :
      (b : ℕ) (name package_name proto_path failure : Bytes) (cs : List Complete)
      (proto : MethodDescriptorProto) (protos : List MethodDescriptorProto)
      → method_from_proto streaming_from proto_path proto ≡ err failure
      → (service_from_proto streaming_from
            (record { name = some (b ∷ name); method = map descriptor cs })
            package_name
            proto_path
          ≡ ok (record {
            name = b ∷ name;
            package_name = some package_name;
            methods = map (adapted proto_path) cs;
            comments = [];
          }))
        × (service_from_proto streaming_from
              (record { name = some (b ∷ name); method = map descriptor cs ++ (proto ∷ protos) })
              package_name
              proto_path
            ≡ err failure)
  unfolding service_from_proto required
  service_from_proto-methods b name package_name proto_path failure cs proto protos e = (
    rw (methods_of_all proto_path cs) refl,
    rw (methods_stop proto_path failure cs proto protos e) refl,
  )
