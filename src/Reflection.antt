-- ===== src/Reflection.antt =====
-- grpc-reflection/src/lib.rs: the index of descriptors, and the answers to reflection requests.
-- `Prost` is what the code uses of prost for descriptors; names are texts, kept as their bytes.
pub mod Indexed
pub mod Stream
use pure_grpc_rs.Base.{
  ℕ, Bool, true, false, ◌||◌, List, [], ◌∷◌, ◌++◌, map, Option, none, some, Result, ok, err,
  map_err, ◌>>=◌, unwrap_or, if◌then◌else◌, String,
}
use pure_grpc_rs.Base.Maps.{get}
use pure_grpc_rs.Base.Text.{ascii}
use pure_grpc_rs.Base.Words.{Bytes, same}
use pure_grpc_rs.Code.{Code, num}
use pure_grpc_rs.Crates.{Crates}
use pure_grpc_rs.Status
use pure_grpc_rs.Status.{Status}

mutual
  -- `DescriptorProto`: its name, its nested types and its enums' names.
  pub data DescriptorProto : Type 0 where
    descriptor : Option Bytes → DescriptorProtos → List (Option Bytes) → DescriptorProto

  pub data DescriptorProtos : Type 0 where
    no_more : DescriptorProtos
    one_more : DescriptorProto → DescriptorProtos → DescriptorProtos

pub record ServiceDescriptorProto : Type 0 where
  pub name : Option Bytes
  pub method : List (Option Bytes)

pub record FileDescriptorProto : Type 0 where
  pub name : Option Bytes
  pub package_name : Option Bytes
  pub service : List ServiceDescriptorProto
  pub message_type : DescriptorProtos
  pub enum_type : List (Option Bytes)

-- `FileDescriptorSet::decode` and `FileDescriptorProto::encode`
pub record Prost : Type 0 where
  pub decode : Bytes → Result Bytes (List FileDescriptorProto)
  pub encode : FileDescriptorProto → Result Bytes Bytes

abbrev pub Symbols : Type 0
Symbols = List (Bytes × Bytes)

unfoldable pub make_fqn : Bytes → Bytes → Bytes
make_fqn [] name = name
make_fqn (b ∷ package_name) name = (b ∷ package_name) ++ (b'.' ∷ name)

-- The loop over names of enums, or of the methods of a service, inside `fqn`.
unfoldable pub index_names : (Bytes → Bytes) → Bytes → List (Option Bytes) → Symbols → Symbols
index_names qualify file_bytes [] symbols = symbols
index_names qualify file_bytes (none ∷ names) symbols = index_names qualify file_bytes names symbols
index_names qualify file_bytes (some name ∷ names) symbols =
    index_names qualify file_bytes names ((qualify name, file_bytes) ∷ symbols)

unfoldable pub index_message_types : Bytes → DescriptorProtos → Bytes → Symbols → Symbols
unfolding index_names
index_message_types parent_fqn no_more file_bytes symbols = symbols
index_message_types parent_fqn (one_more (descriptor none nested enums) messages) file_bytes
      symbols =
    index_message_types parent_fqn messages file_bytes symbols
index_message_types parent_fqn (one_more (descriptor (some msg_name) nested enums) messages)
      file_bytes symbols =
    let fqn = make_fqn parent_fqn msg_name in
    index_message_types parent_fqn messages file_bytes (
      index_names (make_fqn fqn) file_bytes enums
        (index_message_types fqn nested file_bytes ((fqn, file_bytes) ∷ symbols)))

pub record ReflectionServerBuilder : Type 0 where
  pub service_names : List Bytes
  pub symbols : Symbols
  pub files : Symbols

abbrev pub builder : ReflectionServerBuilder
builder = record { service_names = []; symbols = []; files = [] }

-- One service, by its name and its methods.
unfoldable pub index_service :
    Bytes
    → Option Bytes
    → List (Option Bytes)
    → Bytes
    → ReflectionServerBuilder
    → ReflectionServerBuilder
unfolding index_names
index_service package_name none method file_bytes b = b
index_service package_name (some svc_name) method file_bytes b =
    let fqn = make_fqn package_name svc_name in
    record b {
      service_names = b.service_names ++ (fqn ∷ []);
      symbols =
          index_names (λ method_name. fqn ++ (b'.' ∷ method_name)) file_bytes method
            ((fqn, file_bytes) ∷ b.symbols);
    }

unfoldable pub index_services :
    Bytes → List ServiceDescriptorProto → Bytes → ReflectionServerBuilder → ReflectionServerBuilder
unfolding index_service
index_services package_name [] file_bytes b = b
index_services package_name (svc ∷ services) file_bytes b =
    index_services package_name services file_bytes
      (index_service package_name svc.name svc.method file_bytes b)

abbrev pub index_file_name : Option Bytes → Bytes → Symbols → Symbols
index_file_name none file_bytes files = files
index_file_name (some name) file_bytes files = (name, file_bytes) ∷ files

-- One round of the loop over the files, with the bytes of the file.
unfoldable pub index_file :
    FileDescriptorProto → Bytes → ReflectionServerBuilder → ReflectionServerBuilder
unfolding index_services index_message_types index_names
index_file file file_bytes b =
    let package_name = unwrap_or file.package_name [] in
    let s =
      index_services package_name file.service file_bytes
        (record b { files = index_file_name file.name file_bytes b.files }) in
    record s {
      symbols =
          index_names (make_fqn package_name) file_bytes file.enum_type
            (index_message_types package_name file.message_type file_bytes s.symbols);
    }

module _ (x : Crates) (p : Prost) where
  open x use {Headers}

  abbrev internal : Bytes → Bytes → Status Headers
  internal note e = Status.new x Code.internal (note ++ e)

  unfoldable pub register_files :
      List FileDescriptorProto
      → ReflectionServerBuilder
      → Result (Status Headers) ReflectionServerBuilder
  register_files [] b = ok b
  register_files (file ∷ files) b = do
    file_bytes ←
        map_err (internal (ascii "failed to re-encode FileDescriptorProto: ")) (p.encode file)
    register_files files (index_file file file_bytes b)

  unfoldable pub register_encoded_file_descriptor_set :
      Bytes → ReflectionServerBuilder → Result (Status Headers) ReflectionServerBuilder
  unfolding register_files
  register_encoded_file_descriptor_set encoded b = do
    files ←
        map_err (internal (ascii "invalid FileDescriptorSet: descriptor bytes are corrupt: "))
          (p.decode encoded)
    register_files files b

abbrev pub register_service : Bytes → ReflectionServerBuilder → ReflectionServerBuilder
register_service name b = record b { service_names = b.service_names ++ (name ∷ []) }

abbrev pub reflection_name : Bytes
reflection_name = ascii "grpc.reflection.v1.ServerReflection"

-- `Vec::contains`
unfoldable pub contains : List Bytes → Bytes → Bool
contains [] name = false
contains (n ∷ names) name = same n name || contains names name

pub record ReflectionState : Type 0 where
  pub service_names : List Bytes
  pub symbols : Symbols
  pub files : Symbols

unfoldable pub build : ReflectionServerBuilder → ReflectionState
unfolding contains
build b = record {
  service_names =
      if contains b.service_names reflection_name
      then b.service_names
      else b.service_names ++ (reflection_name ∷ []);
  symbols = b.symbols;
  files = b.files;
}

pub data MessageRequest : Type 0 where
  file_by_filename file_containing_symbol all_extension_numbers_of_type : Bytes → MessageRequest
  list_services : Bytes → MessageRequest
  -- `ExtensionRequest`: the type and the number.
  file_containing_extension : Bytes → ℕ → MessageRequest

pub record ServerReflectionRequest : Type 0 where
  pub host : Bytes
  pub message_request : Option MessageRequest

pub data MessageResponse : Type 0 where
  file_descriptor_response : List Bytes → MessageResponse
  list_services_response : List Bytes → MessageResponse
  error_response : ℕ → Bytes → MessageResponse

pub record ServerReflectionResponse : Type 0 where
  pub valid_host : Bytes
  pub original_request : Option ServerReflectionRequest
  pub message_response : Option MessageResponse

-- An unset oneof of a request is none.
abbrev pub not_found : Bytes → Bytes → MessageResponse
not_found note name = error_response (num Code.not_found) (note ++ name)

abbrev pub file_or : MessageResponse → Option Bytes → MessageResponse
file_or missing none = missing
file_or missing (some file_bytes) = file_descriptor_response (file_bytes ∷ [])

unfoldable pub answer : ReflectionState → Option MessageRequest → MessageResponse
answer state (some (list_services _)) = list_services_response state.service_names
answer state (some (file_containing_symbol symbol)) =
    file_or (not_found (ascii "symbol not found: ") symbol) (get symbol state.symbols)
answer state (some (file_by_filename filename)) =
    file_or (not_found (ascii "file not found: ") filename) (get filename state.files)
answer state (some (all_extension_numbers_of_type _)) =
    error_response (num Code.unimplemented) (ascii "extensions not supported")
answer state _ = error_response (num Code.invalid_argument) (ascii "unknown request type")

unfoldable pub handle_reflection_request :
    ReflectionState → ServerReflectionRequest → ServerReflectionResponse
unfolding answer
handle_reflection_request state req = record {
  valid_host = [];
  original_request = some req;
  message_response = some (answer state req.message_request);
}
